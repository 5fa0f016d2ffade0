-- ===== src/Decision/Conditions.antt =====
-- The `when` blocks of policies: `DecisionContext.resolve`, `evaluate_when` and the comparisons of
-- decision/engine.py. The explanations that accompany each answer are left out. `now` is the time
-- that `utcnow()` reads.
use thot_secure.Prelude.{
  ℕ, ◌+◌, ◌*◌, ◌/◌, ◌%◌, String, Bool, true, false, Option, none, some, List, [], ◌∷◌, str_eq, ◌==◌,
  ltb, leb, not, ◌&&◌, ◌||◌, any, all, map, if◌then◌else◌,
}
use thot_secure.Value.{
  Value, Items, Dict, null, boolean, int, float, str, arr, obj, nil, item, to_list, to_dict, is_in,
  get,
}
use thot_secure.Platform.{Platform, str_of}
use thot_secure.Model.{
  Finding, Tenant, Settings, TenantMode, manual, supervised, automatic, severity_rank,
}
use thot_secure.Detection.Regex.{prefix, compile_search}

pub record DecisionContext : Type 0 where
  pub finding : Finding
  pub tenant : Tenant
  pub environment : String
  pub settings : Option Settings
  pub asset_host : Option String
  pub target_value : Option String
  pub extra : Dict
  pub now : ℕ

abbrev pub strings : List String → Items
strings [] = nil
strings (s ∷ r) = item (str s) (strings r)

abbrev pub mode_name : TenantMode → String
mode_name manual = "manual"
mode_name supervised = "supervised"
mode_name automatic = "auto"

-- WEEKDAYS[i]
abbrev pub weekday_name : ℕ → String
weekday_name i =
    if i == 0
    then "monday"
    else if i == 1
    then "tuesday"
    else if i == 2
    then "wednesday"
    else if i == 3
    then "thursday"
    else if i == 4
    then "friday"
    else if i == 5
    then "saturday"
    else "sunday"

-- The epoch was a Thursday.
abbrev pub weekday : ℕ → ℕ
weekday now = (now / 86400000 + 3) % 7

abbrev pub hour_utc : ℕ → ℕ
hour_utc now = now / 3600000 % 24

abbrev pub or_null : Option Value → Value
or_null none = null
or_null (some v) = v

unfoldable pub resolve : DecisionContext → String → Value
resolve c key =
    if str_eq key "finding.severity"
    then str f.severity
    else if str_eq key "finding.risk_score"
    then float f.risk_score
    else if str_eq key "finding.confidence"
    then float f.confidence
    else if str_eq key "finding.rule_id"
    then str f.rule_id
    else if str_eq key "finding.tags"
    then arr (strings f.tags)
    else if str_eq key "finding.tags_any"
    then arr (strings f.tags)
    else if str_eq key "finding.status"
    then str f.status
    else if str_eq key "finding.count"
    then int f.count
    else if str_eq key "finding.title"
    then str f.title
    else if str_eq key "finding.mitre"
    then arr (strings f.mitre)
    else if str_eq key "tenant.id"
    then str c.tenant.tenant_id
    else if str_eq key "tenant.mode"
    then str (mode_name c.tenant.mode)
    else if str_eq key "environment"
    then str c.environment
    else if str_eq key "time.hour_utc"
    then int (hour_utc c.now)
    else if str_eq key "time.weekday"
    then str (weekday_name (weekday c.now))
    else if str_eq key "action.playbook"
    then or_null (get "playbook" c.extra)
    else null
  where
    open c use {finding as f}

unfoldable pub numeric_compare : Option ℕ → Option ℕ → String → Bool
numeric_compare none right op = false
numeric_compare (some l) none op = false
numeric_compare (some l) (some r) op =
    if str_eq op "gt"
    then ltb r l
    else if str_eq op "gte"
    then leb r l
    else if str_eq op "lt"
    then ltb l r
    else if str_eq op "lte"
    then leb l r
    else false

abbrev pub numeric_operators : List String
numeric_operators = "gt" ∷ "gte" ∷ "lt" ∷ "lte" ∷ []

unfoldable pub as_list : Value → List Value
as_list null = []
as_list (arr vs) = to_list vs
as_list v = v ∷ []

module _ (py : Platform) where
  unfoldable pub norm : Value → String
  norm null = ""
  norm (boolean true) = "true"
  norm (boolean false) = "false"
  norm (int n) = py.lower (py.strip (py.str_int n))
  norm (float x) = py.lower (py.strip (py.str_float x))
  norm (str s) = py.lower (py.strip s)
  norm (arr vs) = py.lower (py.strip (py.str_container (arr vs)))
  norm (obj fs) = py.lower (py.strip (py.str_container (obj fs)))

  -- In hundredths.
  unfoldable pub to_number : Value → Option ℕ
  to_number (boolean b) = some (if b then 100 else 0)
  to_number (int n) = some (n * 100)
  to_number (float x) = some x
  to_number (str s) = py.parse_float (py.strip s)
  to_number _ = none

  unfoldable pub regex_match : Value → Value → Bool
  regex_match pattern null = false
  regex_match pattern text =
      elim (compile_search py (str_of py pattern) false (prefix 4096 (str_of py text))) [
        | none ↦ false
        | some b ↦ b
      ]

  -- rank <op> severity_rank(str(value)), for each comparator
  unfoldable pub severity_operators : ℕ → Dict → Bool
  severity_operators rank [] = true
  severity_operators rank ((op, v) ∷ ops) =
      numeric_compare (some rank) (some (severity_rank py (str_of py v))) op
      && severity_operators rank ops

  unfoldable pub evaluate_severity : Value → Value → Bool
  unfolding severity_operators
  evaluate_severity actual (arr vs) =
      any (λ v. severity_rank py (str_of py actual) == severity_rank py (str_of py v)) (to_list vs)
  evaluate_severity actual (obj fs) =
      severity_operators (severity_rank py (str_of py actual)) (to_dict fs)
  evaluate_severity actual expected =
      severity_rank py (str_of py actual) == severity_rank py (str_of py expected)

  unfoldable pub evaluate_operator : Value → String → Value → Bool
  evaluate_operator actual op v =
      if is_in op numeric_operators
      then numeric_compare (to_number actual) (to_number v) op
      else if str_eq op "eq"
      then str_eq (norm actual) (norm v)
      else if str_eq op "ne"
      then not (str_eq (norm actual) (norm v))
      else if str_eq op "in"
      then is_in (norm actual) (map norm (as_list v))
      else if str_eq op "not_in"
      then not (is_in (norm actual) (map norm (as_list v)))
      else if str_eq op "matches"
      then regex_match v actual
      else false

  unfoldable pub evaluate_operators : Value → Dict → Bool
  evaluate_operators actual [] = true
  evaluate_operators actual ((op, v) ∷ ops) =
      evaluate_operator actual op v && evaluate_operators actual ops

  -- The expected value is a list.
  unfoldable pub evaluate_list : String → Value → List String → Bool
  evaluate_list key actual required =
      let present = map norm (as_list actual) in
      if str_eq key "finding.tags"
      then all (λ t. is_in t present) required
      else if str_eq key "finding.mitre" || str_eq key "finding.tags_any"
      then any (λ t. is_in t present) required
      else is_in (norm actual) required

  unfoldable pub evaluate_key : String → Value → Value → Bool
  evaluate_key key actual (arr vs) =
      if str_eq key "finding.severity"
      then evaluate_severity actual (arr vs)
      else evaluate_list key actual (map norm (to_list vs))
  evaluate_key key actual (obj fs) =
      if str_eq key "finding.severity"
      then evaluate_severity actual (obj fs)
      else evaluate_operators actual (to_dict fs)
  evaluate_key key actual expected =
      if str_eq key "finding.severity"
      then evaluate_severity actual expected
      else str_eq (norm actual) (norm expected)

  unfoldable pub evaluate_when : Dict → DecisionContext → Bool
  evaluate_when [] c = true
  evaluate_when ((key, expected) ∷ conditions) c =
      evaluate_key key (resolve c key) expected && evaluate_when conditions c
