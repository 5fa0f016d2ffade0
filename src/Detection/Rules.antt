-- ===== src/Detection/Rules.antt =====
-- The rules of core/models.py and what the engine asks of one before it is loaded:
-- `condition_is_coherent` of detection/matchers.py and `validate_rule` of detection/rule_loader.py.
-- The texts of the diagnostics are left out: a problem is a case of `Problem`. On a numeric operand
-- that float() does not take, the code raises and loads no rule at all; here it is a problem of its
-- rule.
use Prim.Native.String.{count}
use thot_secure.Prelude.{
  ℕ, String, Bool, true, false, Option, none, some, List, [], ◌∷◌, ◌++◌, str_eq, ltb, not, all,
  keep, map, ◌&&◌, if◌then◌else◌,
}
use text.Mathlib.Text.{starts_with}
use thot_secure.Value.{Value, null, str, arr, obj, is_in}
use thot_secure.Platform.{Platform, str_of}
use thot_secure.Net.{is_valid_cidr}
use thot_secure.Detection.Regex.{compile_search}
use thot_secure.Detection.Matchers.{
  Condition, as_items, as_number, Reading, number, no_number, overflow,
}

pub record Threshold : Type 0 where
  pub count : ℕ
  pub window_seconds : ℕ
  pub group_by : List String

pub record MatchSpec : Type 0 where
  pub all_of : List Condition
  pub any_of : List Condition
  pub none_of : List Condition
  pub threshold : Option Threshold

pub record Rule : Type 0 where
  pub id : String
  pub title : String
  pub severity : String
  pub enabled : Bool
  pub tags : List String
  pub source_types : List String
  pub kinds : List String
  pub match_spec : MatchSpec
  pub dedup_key : List String
  pub dedup_ttl_seconds : ℕ
  pub confidence : ℕ
  pub risk_base : Option ℕ
  pub asset_criticality : ℕ
  pub remediation : String
  pub false_positives : List String
  pub path : Option String

pub data Problem : Type 0 where
  incoherent : Condition → Problem
  group_by_missing : Problem
  group_by_not_label : String → Problem
  suspect_mitre_tag : String → Problem

abbrev pub numeric_operators : List String
numeric_operators = "gt" ∷ "gte" ∷ "lt" ∷ "lte" ∷ "len_gt" ∷ "len_lt" ∷ []

abbrev pub text_operators : List String
text_operators = "contains" ∷ "icontains" ∷ "startswith" ∷ "endswith" ∷ []

abbrev pub is_some {ℓ} : {A : Type ℓ} → Option A → Bool
is_some none = false
is_some (some a) = true

-- `_as_number(v) is not None`
abbrev pub is_number : Reading → Bool
is_number (number x) = true
is_number no_number = false
is_number overflow = false

-- isinstance(v, (list, tuple, set, str, int, float, bool))
abbrev pub is_list_or_scalar : Value → Bool
is_list_or_scalar null = false
is_list_or_scalar (obj fs) = false
is_list_or_scalar v = true

-- isinstance(v, (str, int, float))
abbrev pub is_textual : Value → Bool
is_textual null = false
is_textual (arr vs) = false
is_textual (obj fs) = false
is_textual v = true

module _ (py : Platform) where
  abbrev pub compiles : Bool → Value → Bool
  compiles case_sensitive (str s) = is_some (compile_search py s case_sensitive "")
  compiles case_sensitive v = false

  unfoldable pub condition_is_coherent : Condition → Bool
  condition_is_coherent c =
      if str_eq c.op "exists"
      then true
      else if str_eq c.op "regex"
      then all (compiles c.case_sensitive) (as_items c.value)
      else if str_eq c.op "cidr"
      then all (λ v. is_valid_cidr py (str_of py v)) (as_items c.value)
      else if is_in c.op numeric_operators
      then is_number (as_number py c.value)
      else if is_in c.op ("in" ∷ "not_in" ∷ []) && not (is_list_or_scalar c.value)
      then false
      else not (is_in c.op text_operators && not (is_textual c.value))

  abbrev pub condition_problems : List Condition → List Problem
  condition_problems cs = map incoherent (keep (λ c. not (condition_is_coherent c)) cs)

  abbrev pub threshold_problems : Option Threshold → List Problem
  threshold_problems none = []
  threshold_problems (some t) =
      (if ltb 1 t.count && has_none t.group_by then group_by_missing ∷ [] else [])
      ++ map group_by_not_label (keep (λ f. not (starts_with f "labels.")) t.group_by)
    where
      has_none : List String → Bool
      has_none [] = true
      has_none (x ∷ xs) = false

  unfoldable pub validate_rule : Rule → List Problem
  validate_rule rule =
      condition_problems (m.all_of ++ m.any_of ++ m.none_of)
      ++ threshold_problems m.threshold
      ++ map suspect_mitre_tag (keep (λ t. starts_with t "mitre:" && ltb (count t) 9) rule.tags)
    where
      open rule use {match_spec as m}
