-- ===== src/Actions/Params.antt =====
-- `validate_params` of actions/engine.py. `none` is its PlaybookError. The bounds of a numeric
-- parameter count hundredths.
use thot_secure.Prelude.{
  ℕ, ◌*◌, ◌/◌, String, Bool, true, false, Option, none, some, List, [], ◌∷◌, ltb, not, all, ◌&&◌,
  ◌||◌, if◌then◌else◌,
}
use thot_secure.Value.{Value, Dict, null, boolean, int, float, str, get, is_in, truthy}
use thot_secure.Platform.{Platform, str_of}
use thot_secure.Net.{is_valid_ip, is_valid_cidr}

pub data ParamType : Type 0 where
  string_type integer_type boolean_type duration_type ip_type : ParamType
  -- cidr, host, path, package, secret, url
  other_type : ParamType

pub record PlaybookParam : Type 0 where
  pub kind : ParamType
  pub required : Bool
  pub default : Option Value
  pub minimum : Option ℕ
  pub maximum : Option ℕ
  pub choices : List String

abbrev pub Specs : Type 0
Specs = List (String × PlaybookParam)

-- d.get(k), where a value None counts as absent
abbrev pub present : Option Value → Option Value
present none = none
present (some null) = none
present (some v) = some v

-- What the loop does with one parameter: a value, nothing to bind, or the error.
pub data Taken : Type 0 where
  bound : Value → Taken
  unbound : Taken
  invalid : Taken

abbrev pub below : ℕ → Option ℕ → Bool
below n none = false
below n (some m) = ltb n m

abbrev pub above : ℕ → Option ℕ → Bool
above n none = false
above n (some m) = ltb m n

module _ (py : Platform) where
  -- safe_int(value, default=-1), none for -1
  unfoldable pub safe_int : Value → Option ℕ
  safe_int (int n) = some n
  safe_int (float x) = some (x / 100)
  safe_int (boolean b) = some (if b then 1 else 0)
  safe_int (str s) = py.parse_int s
  safe_int _ = none

  unfoldable pub check_integer : PlaybookParam → Option ℕ → Taken
  check_integer spec none = invalid
  check_integer spec (some n) =
      if below (n * 100) spec.minimum
      then invalid
      else if above (n * 100) spec.maximum
      then invalid
      else bound (int n)

  abbrev pub is_nil : List String → Bool
  is_nil [] = true
  is_nil (x ∷ xs) = false

  unfoldable pub check_text : PlaybookParam → String → Taken
  check_text spec s =
      if not (is_nil spec.choices) && not (is_in s spec.choices) then invalid else bound (str s)

  unfoldable pub check_value : PlaybookParam → ParamType → Value → Taken
  unfolding check_integer check_text safe_int
  check_value spec integer_type v = check_integer spec (safe_int v)
  check_value spec duration_type v = check_integer spec (safe_int v)
  check_value spec boolean_type v = bound (boolean (truthy v))
  check_value spec ip_type v =
      if is_valid_ip py (str_of py v) || is_valid_cidr py (str_of py v)
      then bound (str (str_of py v))
      else invalid
  check_value spec string_type v = check_text spec (str_of py v)
  check_value spec other_type v = check_text spec (str_of py v)

  -- The given value, the default, or the error of a required parameter.
  unfoldable pub take_value : PlaybookParam → Option Value → Taken
  unfolding check_value
  take_value spec (some v) = check_value spec spec.kind v
  take_value spec none = elim (present spec.default) [
    | some v ↦ check_value spec spec.kind v
    | none ↦ if spec.required then invalid else unbound
  ]

  unfoldable pub take_all : Specs → Dict → Option Dict
  take_all [] provided = some []
  take_all ((name, spec) ∷ specs) provided =
      let rest = take_all specs provided in
      elim (take_value spec (present (get name provided))) [
        | invalid ↦ none
        | unbound ↦ rest
        | bound v ↦ elim rest [ none ↦ none | some d ↦ some ((name, v) ∷ d) ]
      ]

  abbrev pub names : {V : Type 0} → List (String × V) → List String
  names [] = []
  names ((k, v) ∷ d) = k ∷ names d

  unfoldable pub validate_params : Specs → Dict → Option Dict
  unfolding take_all
  validate_params specs provided =
      if all (λ k. is_in k (names specs)) (names provided) then take_all specs provided else none
