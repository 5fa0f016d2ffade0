-- ===== src/Detection/Loading.antt =====
-- The loading of rules in detection/engine.py: the rules without a problem, compiled, and sorted by
-- falling severity. That the sort is Python's follows from its being stable.
use thot_secure.Prelude.{
  ℕ, String, Bool, true, false, Option, none, some, List, [], ◌∷◌, ◌+◌, ◌≤◌, ◌≡◌, str_eq, ltb, not,
  keep, length, ◌&&◌, ◌||◌, if◌then◌else◌, arith, refl, ◌∙◌, Bool-cases, inl, inr,
}
use thot_secure.Value.{put}
use thot_secure.Platform.{Platform}
use thot_secure.Detection.Matchers.{compare_texts, Sign, below}
use thot_secure.Detection.Rules.{Threshold, Rule, Problem, validate_rule}

pub record CompiledRule : Type 0 where
  pub rule : Rule
  pub source_types : List String
  pub kinds : List String
  pub dedup_fields : List String
  pub group_fields : List String
  pub threshold_count : ℕ
  pub window_seconds : ℕ

abbrev pub threshold_fields : Option Threshold → List String
threshold_fields none = []
threshold_fields (some t) = t.group_by

abbrev pub threshold_count_of : Option Threshold → ℕ
threshold_count_of none = 1
threshold_count_of (some t) = t.count

abbrev pub threshold_window_of : Option Threshold → ℕ
threshold_window_of none = 60
threshold_window_of (some t) = t.window_seconds

unfoldable pub compile_rule : Rule → CompiledRule
compile_rule rule = record {
  rule = rule;
  source_types = rule.source_types;
  kinds = rule.kinds;
  dedup_fields = rule.dedup_key;
  group_fields = threshold_fields rule.match_spec.threshold;
  threshold_count = threshold_count_of rule.match_spec.threshold;
  window_seconds = threshold_window_of rule.match_spec.threshold;
}

abbrev pub severity_weight : String → ℕ
severity_weight s =
    if str_eq s "info"
    then 0
    else if str_eq s "low"
    then 1
    else if str_eq s "medium"
    then 2
    else if str_eq s "high"
    then 3
    else if str_eq s "critical"
    then 4
    else 2

abbrev is_below : Sign → Bool
is_below below = true
is_below s = false

-- (-weight(a), a.id) < (-weight(b), b.id)
abbrev pub goes_before : Rule → Rule → Bool
goes_before a b =
    ltb (severity_weight b.severity) (severity_weight a.severity)
    || (not (ltb (severity_weight a.severity) (severity_weight b.severity))
        && is_below (compare_texts a.id b.id))

-- A stable sort, by insertion from the end.
unfoldable pub insert_rule : CompiledRule → List CompiledRule → List CompiledRule
insert_rule a [] = a ∷ []
insert_rule a (b ∷ bs) =
    let rest = insert_rule a bs in if goes_before b.rule a.rule then b ∷ rest else a ∷ b ∷ bs

unfoldable pub sort_rules : List CompiledRule → List CompiledRule
sort_rules [] = []
sort_rules (a ∷ rest) = insert_rule a (sort_rules rest)

module _ (py : Platform) where
  abbrev pub is_sound : List Problem → Bool
  is_sound [] = true
  is_sound (p ∷ ps) = false

  unfoldable pub accepted : List Rule → List CompiledRule
  accepted [] = []
  accepted (r ∷ rs) =
      let rest = accepted rs in
      if is_sound (validate_rule py r) then compile_rule r ∷ rest else rest

  abbrev pub index_rules :
      List (String × CompiledRule) → List CompiledRule → List (String × CompiledRule)
  index_rules d [] = d
  index_rules d (c ∷ cs) = index_rules (put c.rule.id c d) cs

abbrev pub weight_of : CompiledRule → ℕ
weight_of c = severity_weight c.rule.severity

-- No rule weighs more than the bound, and none more than the one before it.
abbrev pub Ranked : ℕ → List CompiledRule → Type 0
Ranked m [] = Unit
Ranked m (c ∷ cs) = (weight_of c ≤ m) × Ranked (weight_of c) cs

first_heavier : (u v : ℕ) (b : Bool) → (ltb v u || (not (ltb u v) && b)) ≡ true → v ≤ u
first_heavier u v b h = ground arith

first_lighter : (u v : ℕ) (b : Bool) → (ltb v u || (not (ltb u v) && b)) ≡ false → u ≤ v
first_lighter u v b h = ground arith

insert_rule-Ranked :
    (m : ℕ) (a : CompiledRule) (bs : List CompiledRule)
    → Ranked m bs
    → weight_of a ≤ m
    → Ranked m (insert_rule a bs)
unfolding insert_rule
insert_rule-Ranked m a [] r h = (h, tt)
insert_rule-Ranked m a (b ∷ bs) (l, r) h =
    let lexical = is_below (compare_texts b.rule.id a.rule.id) in
    elim (Bool-cases (goes_before b.rule a.rule)) [
      | inl e ↦ rw e (
        l,
        insert_rule-Ranked (weight_of b) a bs r
            (first_heavier (weight_of b) (weight_of a) lexical e),
      )
      | inr e ↦ rw e (h, (first_lighter (weight_of b) (weight_of a) lexical e, r))
    ]

heaviest : (s : String) → severity_weight s ≤ 4
heaviest s =
    grade (str_eq s "info") (str_eq s "low") (str_eq s "medium") (str_eq s "high")
      (str_eq s "critical")
  where
    grade :
        (a b c d e : Bool)
        → (if a then 0 else if b then 1 else if c then 2 else if d then 3 else if e then 4 else 2)
          ≤ 4
    grade a b c d e = ground arith

pub sort_rules-Ranked : (cs : List CompiledRule) → Ranked 4 (sort_rules cs)
unfolding sort_rules
sort_rules-Ranked [] = tt
sort_rules-Ranked (c ∷ cs) =
    insert_rule-Ranked 4 c (sort_rules cs) (sort_rules-Ranked cs) (heaviest c.rule.severity)

module _ (p : CompiledRule → Bool) where
  -- How many rules pass the test.
  abbrev pub tally : List CompiledRule → ℕ
  tally cs = length (keep p cs)

  tally_cons :
      (c : CompiledRule) (cs : List CompiledRule)
      → tally (c ∷ cs) ≡ (if p c then 1 else 0) + tally cs
  tally_cons c cs = ground arith

  tally-insert_rule :
      (a : CompiledRule) (bs : List CompiledRule) → tally (insert_rule a bs) ≡ tally (a ∷ bs)
  unfolding insert_rule
  tally-insert_rule a [] = refl
  tally-insert_rule a (b ∷ bs) = elim (Bool-cases (goes_before b.rule a.rule)) [
    | inr e ↦ rw e refl
    | inl e ↦
        let h = tally-insert_rule a bs in
        rw e (
          omega (
            arith,
            h,
            tally_cons b (insert_rule a bs),
            tally_cons a (b ∷ bs),
            tally_cons b bs,
            tally_cons a bs,
          ))
  ]

  pub tally-sort_rules : (cs : List CompiledRule) → tally (sort_rules cs) ≡ tally cs
  unfolding sort_rules
  tally-sort_rules [] = refl
  tally-sort_rules (c ∷ cs) =
      tally-insert_rule c (sort_rules cs)
      ∙ omega (arith, tally_cons c (sort_rules cs), tally_cons c cs, tally-sort_rules cs)
