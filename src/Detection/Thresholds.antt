-- ===== src/Detection/Thresholds.antt =====
-- What the evaluation of one event does to the window of a rule and a group.
use thot_secure.Prelude.{
  ℕ, String, Bool, true, false, List, [], ◌∷◌, ◌++◌, ◌≡◌, str_eq, eq_iff, eq_refl, leb, not, all,
  length, ◌&&◌, arith, if◌then◌else◌, refl, ap, subst, ◌∙◌, Bool-cases, inl, inr,
}
use thot_secure.Platform.{Platform}
use thot_secure.Detection.Loading.{CompiledRule}
use thot_secure.Detection.Engine.{
  Event, Window, DetectionEngine, max_window_entries, window_of, set_window, slide, span_of,
  register_hit, group_key, is_candidate, count_match, evaluate_rule, evaluate_rules,
}

window_of-set_window :
    (id g : String) (hits : List ℕ) (ws : List Window)
    → window_of id g (set_window id g hits ws) ≡ hits
unfolding window_of set_window
window_of-set_window id g hits [] = rw (eq_refl id, eq_refl g) refl
window_of-set_window id g hits (w ∷ ws) = ground (arith, window_of-set_window id g hits ws)

abbrev same_key : String → String → String → String → Bool
same_key id g r h = str_eq id r && str_eq g h

window_of-set_window_other :
    (id g r h : String) (hits : List ℕ) (ws : List Window)
    → same_key r h id g ≡ false
    → window_of id g (set_window r h hits ws) ≡ window_of id g ws
unfolding window_of set_window
window_of-set_window_other id g r h hits [] n = rw n refl
window_of-set_window_other id g r h hits (w ∷ ws) n = ground (
  arith,
  window_of-set_window_other id g r h hits ws n,
  eq_iff w.rule_id id,
  eq_iff w.rule_id r,
  eq_iff w.group_key g,
  eq_iff w.group_key h,
  eq_iff r id,
  eq_iff h g,
)

-- The answer of `register_hit` from the window of its key.
abbrev pub answer : CompiledRule → ℕ → List ℕ → ℕ
answer entry now window =
    let n = length (slide max_window_entries (span_of entry) now window) in
    if leb entry.threshold_count 1 then 1 else if leb entry.threshold_count n then n else 0

abbrev pub pushed : CompiledRule → ℕ → List ℕ → List ℕ
pushed entry now window =
    if leb entry.threshold_count 1
    then window
    else slide max_window_entries (span_of entry) now window

pub register_hit-answer :
    (entry : CompiledRule) (g : String) (now : ℕ) (ws : List Window)
    → (register_hit entry g now ws).0 ≡ answer entry now (window_of entry.rule.id g ws)
unfolding register_hit
register_hit-answer entry g now ws = ground arith

register_hit-pushed :
    (entry : CompiledRule) (g : String) (now : ℕ) (ws : List Window)
    → window_of entry.rule.id g (register_hit entry g now ws).1
      ≡ pushed entry now (window_of entry.rule.id g ws)
unfolding register_hit
register_hit-pushed entry g now ws = elim (Bool-cases (leb entry.threshold_count 1)) [
  | inl e ↦ rw e refl
  | inr e ↦ rw e (
      window_of-set_window entry.rule.id g
        (slide max_window_entries (span_of entry) now (window_of entry.rule.id g ws)) ws)
]

register_hit_other :
    (entry : CompiledRule) (id g h : String) (now : ℕ) (ws : List Window)
    → same_key entry.rule.id h id g ≡ false
    → window_of id g (register_hit entry h now ws).1 ≡ window_of id g ws
unfolding register_hit
register_hit_other entry id g h now ws n = elim (Bool-cases (leb entry.threshold_count 1)) [
  | inl e ↦ rw e refl
  | inr e ↦ rw e (
      window_of-set_window_other id g entry.rule.id h
        (slide max_window_entries (span_of entry) now (window_of entry.rule.id h ws)) ws n)
]

module _ (py : Platform) where
  count_match-windows : (n : ℕ) (e : DetectionEngine) → (count_match py n e).windows ≡ e.windows
  count_match-windows n e = elim (Bool-cases (leb 1 n)) [ inl h ↦ rw h refl | inr h ↦ rw h refl ]

  count_match-compiled : (n : ℕ) (e : DetectionEngine) → (count_match py n e).compiled ≡ e.compiled
  count_match-compiled n e = elim (Bool-cases (leb 1 n)) [ inl h ↦ rw h refl | inr h ↦ rw h refl ]

  -- Does the event hit the window of the rule and the group?
  abbrev pub is_hit : CompiledRule → String → Event → Bool
  is_hit entry g event = is_candidate py entry event && str_eq (group_key py entry event) g

  evaluate_rule-window :
      (entry : CompiledRule) (g : String) (event : Event) (now : ℕ) (e : DetectionEngine)
      → window_of entry.rule.id g (evaluate_rule py entry event now e).1.windows ≡ (
          if is_hit entry g event
          then pushed entry now (window_of entry.rule.id g e.windows)
          else window_of entry.rule.id g e.windows)
  unfolding evaluate_rule
  evaluate_rule-window entry g event now e =
      let h = group_key py entry event in
      let n = (register_hit entry h now e.windows).0 in
      let ws = (register_hit entry h now e.windows).1 in
      let c = count_match-windows n (record e { windows = ws }) in
      elim (Bool-cases (is_candidate py entry event)) [
        | inr f ↦ rw f refl
        | inl f ↦ elim (Bool-cases (str_eq h g)) [
          | inl q ↦
              rw (f, q)
                (ap (window_of entry.rule.id g) c
                  ∙ subst
                      (λ x.
                        window_of entry.rule.id x ws
                        ≡ pushed entry now (window_of entry.rule.id x e.windows))
                      ((eq_iff h g).0 q) (register_hit-pushed entry h now e.windows))
          | inr q ↦
              rw (f, q)
                (ap (window_of entry.rule.id g) c
                  ∙ register_hit_other entry entry.rule.id g h now e.windows
                      (rw (eq_refl entry.rule.id, q) refl))
        ]
      ]

  pub evaluate_rule-window_other :
      (entry : CompiledRule) (id g : String) (event : Event) (now : ℕ) (e : DetectionEngine)
      → str_eq entry.rule.id id ≡ false
      → window_of id g (evaluate_rule py entry event now e).1.windows ≡ window_of id g e.windows
  unfolding evaluate_rule
  evaluate_rule-window_other entry id g event now e d =
      let h = group_key py entry event in
      let n = (register_hit entry h now e.windows).0 in
      let ws = (register_hit entry h now e.windows).1 in
      let c = count_match-windows n (record e { windows = ws }) in
      elim (Bool-cases (is_candidate py entry event)) [
        | inr f ↦ rw f refl
        | inl f ↦
            rw f (ap (window_of id g) c ∙ register_hit_other entry id g h now e.windows (rw d refl))
      ]

  evaluate_rule-compiled :
      (entry : CompiledRule) (event : Event) (now : ℕ) (e : DetectionEngine)
      → (evaluate_rule py entry event now e).1.compiled ≡ e.compiled
  unfolding evaluate_rule
  evaluate_rule-compiled entry event now e = elim (Bool-cases (is_candidate py entry event)) [
    | inr f ↦ rw f refl
    | inl f ↦
        let r = register_hit entry (group_key py entry event) now e.windows in
        rw f (count_match-compiled r.0 (record e { windows = r.1 }))
  ]

  pub evaluate_rules-compiled :
      (entries : List CompiledRule) (event : Event) (now : ℕ) (e : DetectionEngine)
      → (evaluate_rules py entries event now e).1.compiled ≡ e.compiled
  unfolding evaluate_rules
  evaluate_rules-compiled [] event now e = refl
  evaluate_rules-compiled (entry ∷ entries) event now e =
      evaluate_rules-compiled entries event now (evaluate_rule py entry event now e).1
      ∙ evaluate_rule-compiled entry event now e

  -- No entry has the id.
  abbrev pub lacks : String → List CompiledRule → Bool
  lacks id entries = all (λ c. not (str_eq c.rule.id id)) entries

  evaluate_rules-window_other :
      (entries : List CompiledRule) (id g : String) (event : Event) (now : ℕ) (e : DetectionEngine)
      → lacks id entries ≡ true
      → window_of id g (evaluate_rules py entries event now e).1.windows ≡ window_of id g e.windows
  unfolding evaluate_rules
  evaluate_rules-window_other [] id g event now e d = refl
  evaluate_rules-window_other (entry ∷ entries) id g event now e d =
      evaluate_rules-window_other entries id g event now (evaluate_rule py entry event now e).1
        (ground arith)
      ∙ evaluate_rule-window_other entry id g event now e (ground arith)

  pub evaluate_rules-window :
      (before after : List CompiledRule) (entry : CompiledRule) (g : String) (event : Event)
      (now : ℕ) (e : DetectionEngine)
      → lacks entry.rule.id before ≡ true
      → lacks entry.rule.id after ≡ true
      → window_of entry.rule.id g
          (evaluate_rules py (before ++ entry ∷ after) event now e).1.windows
        ≡ (if is_hit entry g event
            then pushed entry now (window_of entry.rule.id g e.windows)
            else window_of entry.rule.id g e.windows)
  unfolding evaluate_rules
  evaluate_rules-window [] after entry g event now e b a =
      evaluate_rules-window_other after entry.rule.id g event now
        (evaluate_rule py entry event now e).1 a
      ∙ evaluate_rule-window entry g event now e
  evaluate_rules-window (c ∷ before) after entry g event now e b a =
      evaluate_rules-window before after entry g event now (evaluate_rule py c event now e).1
        (ground arith) a
      ∙ ap (λ ws. if is_hit entry g event then pushed entry now ws else ws)
          (evaluate_rule-window_other c entry.rule.id g event now e (ground arith))
