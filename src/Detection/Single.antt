-- ===== src/Detection/Single.antt =====
-- When a rule without a threshold fires on an event.
use thot_secure.Prelude.{
  ℕ, String, Bool, true, false, List, [], ◌∷◌, ◌++◌, ◌≤◌, ◌≡◌, ◌↔◌, ◌⊎◌, all, any, not, ◌&&◌, arith,
  refl, sym, ◌∙◌, Bool-cases, inl, inr,
}
use thot_secure.Platform.{Platform}
use thot_secure.Value.{Dict, is_in}
use thot_secure.Detection.Matchers.{Condition, evaluate_condition}
use thot_secure.Detection.Rules.{Rule}
use thot_secure.Detection.Loading.{CompiledRule}
use thot_secure.Detection.Engine.{
  Event, DetectionEngine, is_among, applies_to, some_of, matches, is_candidate, evaluate,
}
use thot_secure.Detection.Firing.{fires}
use thot_secure.Detection.Thresholds.{lacks}
use thot_secure.Detection.Streams.{evaluate-candidate}

-- The list names the text, or it is empty and stands for all.
abbrev pub Admits : List String → String → Type 0
Admits names s = (names ≡ []) ⊎ (is_in s names ≡ true)

and_parts : (a b : Bool) → (a && b) ≡ true → (a ≡ true) × (b ≡ true)
and_parts a b h = ground arith

and_both : (a b : Bool) → a ≡ true → b ≡ true → (a && b) ≡ true
and_both a b g h = ground arith

is_among-Admits : (names : List String) (s : String) → (is_among s names ≡ true) ↔ Admits names s
is_among-Admits [] s = (λ h. inl refl, λ h. refl)
is_among-Admits (n ∷ ns) s = (λ h. inr h, λ h. elim h [ inl e ↦ cc | inr e ↦ e ])

module _ (py : Platform) (context : Dict) where
  -- Every condition has this value on the event.
  abbrev pub Each : Bool → List Condition → Type 0
  Each b [] = Unit {0}
  Each b (c ∷ cs) = (evaluate_condition py c context ≡ b) × Each b cs

  -- A condition holds of the event.
  abbrev pub Some : List Condition → Type 0
  Some [] = ⊥
  Some (c ∷ cs) = (evaluate_condition py c context ≡ true) ⊎ Some cs

  all-Each :
      (cs : List Condition) → (all (λ c. evaluate_condition py c context) cs ≡ true) ↔ Each true cs
  all-Each [] = (λ h. tt, λ h. refl)
  all-Each (c ∷ cs) = (
    λ h.
        let (a, b) =
          and_parts (evaluate_condition py c context)
            (all (λ c. evaluate_condition py c context) cs) h in
        (a, (all-Each cs).0 b),
    λ (a, b). and_both _ _ a ((all-Each cs).1 b),
  )

  all-Each-not :
      (cs : List Condition)
      → (all (λ c. not (evaluate_condition py c context)) cs ≡ true) ↔ Each false cs
  all-Each-not [] = (λ h. tt, λ h. refl)
  all-Each-not (c ∷ cs) = (
    λ h.
        let (a, b) =
          and_parts (not (evaluate_condition py c context))
            (all (λ c. not (evaluate_condition py c context)) cs) h in
        (ground arith, (all-Each-not cs).0 b),
    λ (a, b). and_both _ _ (ground arith) ((all-Each-not cs).1 b),
  )

  any-Some :
      (cs : List Condition) → (any (λ c. evaluate_condition py c context) cs ≡ true) ↔ Some cs
  any-Some [] = (λ h. cc, λ h. absurd h)
  any-Some (c ∷ cs) = (
    λ h. elim (Bool-cases (evaluate_condition py c context)) [
      | inl e ↦ inl e
      | inr e ↦ inr ((any-Some cs).0 (ground arith))
    ],
    λ h. elim h [ inl e ↦ ground arith | inr i ↦ let r = (any-Some cs).1 i in ground arith ],
  )

  some_of-Some : (cs : List Condition) → (some_of py context cs ≡ true) ↔ ((cs ≡ []) ⊎ Some cs)
  some_of-Some [] = (λ h. inl refl, λ h. refl)
  some_of-Some (c ∷ cs) = (
    λ h. inr ((any-Some (c ∷ cs)).0 h),
    λ h. elim h [ inl e ↦ cc | inr i ↦ (any-Some (c ∷ cs)).1 i ],
  )

  -- All of `all`, one of `any` unless it is empty, and none of `not`.
  pub record Meets (rule : Rule) : Type 0 where
    pub all_hold : Each true rule.match_spec.all_of
    pub one_holds : (rule.match_spec.any_of ≡ []) ⊎ Some rule.match_spec.any_of
    pub none_holds : Each false rule.match_spec.none_of

  matches-Meets : (rule : Rule) → (matches py rule context ≡ true) ↔ Meets rule
  unfolding matches
  matches-Meets rule = (
    λ h.
        let (ab, c) = and_parts _ _ h in
        let (a, b) = and_parts _ _ ab in
        record {
          all_hold = (all-Each rule.match_spec.all_of).0 a;
          one_holds = (some_of-Some rule.match_spec.any_of).0 b;
          none_holds = (all-Each-not rule.match_spec.none_of).0 c;
        },
    λ m.
        and_both _ _
          (and_both _ _ ((all-Each rule.match_spec.all_of).1 m.all_hold)
            ((some_of-Some rule.match_spec.any_of).1 m.one_holds))
          ((all-Each-not rule.match_spec.none_of).1 m.none_holds),
  )

-- What makes a rule strike on an event.
pub record Strikes (py : Platform) (entry : CompiledRule) (event : Event) : Type 0 where
  pub enabled : entry.rule.enabled ≡ true
  pub source : Admits entry.source_types event.source_type
  pub kind : Admits entry.kinds event.kind
  pub meets : Meets py event.dump entry.rule

module _ (py : Platform) where
  is_candidate-Strikes :
      (entry : CompiledRule) (event : Event)
      → (is_candidate py entry event ≡ true) ↔ Strikes py entry event
  unfolding is_candidate applies_to
  is_candidate-Strikes entry event = (
    λ h.
        let (ab, c) = and_parts _ _ h in
        let (a, b) = and_parts _ _ ab in
        let (s, k) = and_parts _ _ b in
        record {
          enabled = a;
          source = (is_among-Admits entry.source_types event.source_type).0 s;
          kind = (is_among-Admits entry.kinds event.kind).0 k;
          meets = (matches-Meets py event.dump entry.rule).0 c;
        },
    λ m.
        and_both _ _
          (and_both _ _ m.enabled (
            and_both _ _ ((is_among-Admits entry.source_types event.source_type).1 m.source)
              ((is_among-Admits entry.kinds event.kind).1 m.kind)))
          ((matches-Meets py event.dump entry.rule).1 m.meets),
  )

  -- A loaded rule without a threshold, whose identifier no other loaded rule has, fires on an
  -- event, in any state of the engine, exactly if it is enabled, its source types and its kinds
  -- name those of the event or are empty, all its `all` conditions hold, one of its `any`
  -- conditions if there are any, and none of its `not` conditions.
  pub evaluate-single :
      (before after : List CompiledRule) (entry : CompiledRule) (event : Event) (now : ℕ)
      (e : DetectionEngine)
      → e.compiled ≡ before ++ entry ∷ after
      → lacks py entry.rule.id before ≡ true
      → lacks py entry.rule.id after ≡ true
      → entry.threshold_count ≤ 1
      → (fires py entry.rule.id (evaluate py event now e).0 ≡ true) ↔ Strikes py entry event
  evaluate-single before after entry event now e c b a h =
      let same = evaluate-candidate py before after entry event now e c b a h in
      let (to, from) = is_candidate-Strikes entry event in
      (λ f. to (sym same ∙ f), λ s. same ∙ from s)
