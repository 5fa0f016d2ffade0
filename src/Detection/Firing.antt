-- ===== src/Detection/Firing.antt =====
-- When a rule fires on one event.
use thot_secure.Prelude.{
  ℕ, String, Bool, true, false, List, [], ◌∷◌, ◌++◌, ◌≡◌, str_eq, eq_refl, leb, any, ◌&&◌, ◌||◌,
  arith, if◌then◌else◌, refl, ap, ap₂, ◌∙◌, Bool-cases, inl, inr,
}
use thot_secure.Platform.{Platform}
use thot_secure.Detection.Loading.{CompiledRule}
use thot_secure.Detection.Engine.{
  Event, MatchResult, DetectionEngine, window_of, register_hit, group_key, is_candidate, new_match,
  evaluate_rule, evaluate_rules,
}
use thot_secure.Detection.Thresholds.{
  answer, lacks, register_hit-answer, evaluate_rule-window_other,
}

or_false : (b : Bool) → (b || false) ≡ b
or_false true = refl
or_false false = refl

pub and_true : (b : Bool) → (b && true) ≡ b
and_true true = refl
and_true false = refl

pub and_false : (b : Bool) → (b && false) ≡ false
and_false true = refl
and_false false = refl

module _ (py : Platform) where
  -- The results name the rule.
  abbrev pub fires : String → List MatchResult → Bool
  fires id results = any (λ m. str_eq m.rule.id id) results

  fires-append :
      (id : String) (xs ys : List MatchResult) → fires id (xs ++ ys) ≡ (fires id xs || fires id ys)
  fires-append id [] ys = refl
  fires-append id (m ∷ xs) ys = ground (arith, fires-append id xs ys)

  fires_single :
      (id : String) (b : Bool) (m : MatchResult)
      → fires id (if b then m ∷ [] else []) ≡ (b && str_eq m.rule.id id)
  fires_single id true m = or_false (str_eq m.rule.id id)
  fires_single id false m = refl

  evaluate_rule-fires :
      (entry : CompiledRule) (event : Event) (now : ℕ) (e : DetectionEngine)
      → fires entry.rule.id (evaluate_rule py entry event now e).0 ≡ (
          is_candidate py entry event
          && leb 1
              (answer entry now (window_of entry.rule.id (group_key py entry event) e.windows)))
  unfolding evaluate_rule
  evaluate_rule-fires entry event now e =
      let id = entry.rule.id in
      let a = register_hit-answer entry (group_key py entry event) now e.windows in
      let n = answer entry now (window_of id (group_key py entry event) e.windows) in
      elim (Bool-cases (is_candidate py entry event)) [
        | inr f ↦ rw f refl
        | inl f ↦
            rw (f, a)
              (fires_single id (leb 1 n) (new_match py entry event now n)
                ∙ rw (eq_refl id) (and_true (leb 1 n)))
      ]

  evaluate_rule-fires_other :
      (entry : CompiledRule) (id : String) (event : Event) (now : ℕ) (e : DetectionEngine)
      → str_eq entry.rule.id id ≡ false
      → fires id (evaluate_rule py entry event now e).0 ≡ false
  unfolding evaluate_rule
  evaluate_rule-fires_other entry id event now e d =
      let n = (register_hit entry (group_key py entry event) now e.windows).0 in
      elim (Bool-cases (is_candidate py entry event)) [
        | inr f ↦ rw f refl
        | inl f ↦ rw f (
            fires_single id (leb 1 n) (new_match py entry event now n) ∙ rw d (and_false (leb 1 n)))
      ]

  evaluate_rules-fires_other :
      (entries : List CompiledRule) (id : String) (event : Event) (now : ℕ) (e : DetectionEngine)
      → lacks py id entries ≡ true
      → fires id (evaluate_rules py entries event now e).0 ≡ false
  unfolding evaluate_rules
  evaluate_rules-fires_other [] id event now e d = refl
  evaluate_rules-fires_other (c ∷ entries) id event now e d =
      let e' = (evaluate_rule py c event now e).1 in
      fires-append id (evaluate_rule py c event now e).0 (evaluate_rules py entries event now e').0
      ∙ ap₂ (λ x y. x || y) (evaluate_rule-fires_other c id event now e (ground arith))
          (evaluate_rules-fires_other entries id event now e' (ground arith))

  pub evaluate_rules-fires :
      (before after : List CompiledRule) (entry : CompiledRule) (event : Event) (now : ℕ)
      (e : DetectionEngine)
      → lacks py entry.rule.id before ≡ true
      → lacks py entry.rule.id after ≡ true
      → fires entry.rule.id (evaluate_rules py (before ++ entry ∷ after) event now e).0 ≡ (
          is_candidate py entry event
          && leb 1
              (answer entry now (window_of entry.rule.id (group_key py entry event) e.windows)))
  unfolding evaluate_rules
  evaluate_rules-fires [] after entry event now e b a =
      let e' = (evaluate_rule py entry event now e).1 in
      fires-append entry.rule.id (evaluate_rule py entry event now e).0
        (evaluate_rules py after event now e').0
      ∙ ap₂ (λ x y. x || y) (evaluate_rule-fires entry event now e)
          (evaluate_rules-fires_other after entry.rule.id event now e' a)
      ∙ or_false (
          is_candidate py entry event
          && leb 1
              (answer entry now (window_of entry.rule.id (group_key py entry event) e.windows)))
  evaluate_rules-fires (c ∷ before) after entry event now e b a =
      let e' = (evaluate_rule py c event now e).1 in
      let id = entry.rule.id in
      let g = group_key py entry event in
      fires-append id (evaluate_rule py c event now e).0
        (evaluate_rules py (before ++ entry ∷ after) event now e').0
      ∙ ap₂ (λ x y. x || y) (evaluate_rule-fires_other c id event now e (ground arith))
          (evaluate_rules-fires before after entry event now e' (ground arith) a
            ∙ ap (λ ws. is_candidate py entry event && leb 1 (answer entry now ws))
                (evaluate_rule-window_other py c id g event now e (ground arith)))
