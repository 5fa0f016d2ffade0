-- ===== src/Detection/Matchers.antt =====
-- The conditions of detection rules: detection/matchers.py, with `Condition` of core/models.py.
-- `Value` has no datetime, no negative number and no int whose `str` raises (beyond 4300 digits),
-- and a float is exact, so a comparison of an int with a float is exact too.
use Prim.Native.Char.{code}
use Prim.Native.String.{count}
use thot_secure.Prelude.{
  ℕ, ◌*◌, String, Bool, true, false, Option, none, some, List, [], ◌∷◌, str_eq, ltb, not, keep,
  length, map, ◌&&◌, ◌||◌, if◌then◌else◌,
}
use text.Mathlib.Text.{starts_with}
use thot_secure.Value.{
  Value, Dict, null, boolean, int, float, str, arr, obj, to_list, to_dict, of_dict, is_in, truthy,
}
use thot_secure.Value.Paths.{deep_get}
use thot_secure.Platform.{Platform, str_of}
use thot_secure.Net.{is_valid_cidr, ip_in_cidrs}
use thot_secure.Detection.Regex.{prefix, max_regex_input, compile_search}

pub record Condition : Type 0 where
  pub field_path : String
  pub op : String
  pub value : Value
  pub case_sensitive : Bool
  pub negate : Bool

-- The sign of (a > b) - (a < b).
pub data Sign : Type 0 where
  below equal above : Sign

abbrev pub sign_of : ℕ → ℕ → Sign
sign_of a b = if ltb a b then below else if ltb b a then above else equal

-- Python's order of texts, by code points.
unfoldable pub compare_texts : String → String → Sign
compare_texts String.[] String.[] = equal
compare_texts String.[] (String.◌∷◌ d t) = below
compare_texts (String.◌∷◌ c s) String.[] = above
compare_texts (String.◌∷◌ c s) (String.◌∷◌ d t) =
    let rest = compare_texts s t in
    if ltb (code c) (code d) then below else if ltb (code d) (code c) then above else rest

-- needle in text
unfoldable pub is_inside : String → String → Bool
is_inside needle String.[] = str_eq needle ""
is_inside needle (String.◌∷◌ c s) = starts_with (String.◌∷◌ c s) needle || is_inside needle s

-- text.endswith(needle)
unfoldable pub ends_with : String → String → Bool
ends_with String.[] needle = str_eq needle ""
ends_with (String.◌∷◌ c s) needle = str_eq (String.◌∷◌ c s) needle || ends_with s needle

abbrev pub is_str : Value → Bool
is_str (str s) = true
is_str v = false

abbrev pub is_boolean : Value → Bool
is_boolean (boolean b) = true
is_boolean v = false

abbrev pub is_null : Value → Bool
is_null null = true
is_null v = false

-- v if isinstance(v, list) else [v]
abbrev pub as_items : Value → List Value
as_items (arr vs) = to_list vs
as_items v = v ∷ []

abbrev pub length_of : Value → Option ℕ
length_of (str s) = some (count s)
length_of (arr vs) = some (length (to_list vs))
length_of (obj fs) = some (length (to_dict fs))
length_of v = none

abbrev pub is_sign : String → Sign → Bool
is_sign op below = str_eq op "lt" || str_eq op "lte"
is_sign op equal = str_eq op "gte" || str_eq op "lte"
is_sign op above = str_eq op "gt" || str_eq op "gte"

abbrev pub is_equal : Sign → Bool
is_equal equal = true
is_equal s = false

-- What `_as_number` gives: a number in hundredths, None, or the OverflowError of float().
pub data Reading : Type 0 where
  number : ℕ → Reading
  no_number overflow : Reading

-- What `_compare` gives: a sign, None, or the OverflowError.
pub data Comparison : Type 0 where
  compared : Sign → Comparison
  incomparable raised : Comparison

-- An exception makes a condition false.
abbrev pub holds : Comparison → String → Bool
holds (compared s) op = is_sign op s
holds incomparable op = false
holds raised op = false

abbrev pub reading_of : Option ℕ → Reading
reading_of none = no_number
reading_of (some x) = number x

-- An int, a float or a bool, in hundredths.
abbrev pub numeric : Value → Option ℕ
numeric (boolean b) = some (if b then 100 else 0)
numeric (int n) = some (n * 100)
numeric (float x) = some x
numeric v = none

module _ (py : Platform) where
  unfoldable pub as_text : Value → String
  as_text (str s) = s
  as_text null = ""
  as_text (boolean b) = if b then "true" else "false"
  as_text v = str_of py v

  -- In hundredths.
  abbrev pub number_in : String → Option ℕ
  number_in text =
      if str_eq text ""
      then none
      else elim (py.parse_float text) [ none ↦ py.leading_number text | some x ↦ some x ]

  unfoldable pub as_number : Value → Reading
  as_number (boolean b) = number (if b then 100 else 0)
  as_number (int n) = if py.fits_float n then number (n * 100) else overflow
  as_number (float x) = number x
  as_number (str s) = reading_of (number_in (py.strip s))
  as_number v = no_number

  -- The comparison of two numbers, which needs no conversion.
  abbrev pub compare_numbers : Option ℕ → Option ℕ → Option Sign
  compare_numbers (some l) (some r) = some (sign_of l r)
  compare_numbers l r = none

  abbrev pub compare_as_texts : Value → Value → Comparison
  compare_as_texts actual expected =
      if is_null actual || is_null expected
      then incomparable
      else compared (compare_texts (as_text actual) (as_text expected))

  abbrev pub compare_readings : Reading → Reading → Comparison → Comparison
  compare_readings overflow r texts = raised
  compare_readings (number l) overflow texts = raised
  compare_readings no_number overflow texts = raised
  compare_readings (number l) (number r) texts = compared (sign_of l r)
  compare_readings (number l) no_number texts = texts
  compare_readings no_number (number r) texts = texts
  compare_readings no_number no_number texts = texts

  -- `_compare`
  unfoldable pub compare_values : Value → Value → Comparison
  compare_values actual expected = elim (compare_numbers (numeric actual) (numeric expected)) [
    | none ↦
        compare_readings (as_number actual) (as_number expected) (compare_as_texts actual expected)
    | some s ↦ compared s
  ]

  -- `comparison == 0`, or `actual == expected` for values that do not compare: one is None.
  abbrev pub same : Comparison → Value → Value → Bool
  same incomparable actual expected = is_null actual && is_null expected
  same (compared s) actual expected = is_equal s
  same raised actual expected = false

  -- `comparison != 0`, or `actual != expected`
  abbrev pub differ : Comparison → Value → Value → Bool
  differ incomparable actual expected = not (is_null actual && is_null expected)
  differ (compared s) actual expected = not (is_equal s)
  differ raised actual expected = false

  abbrev pub lower_unless : Bool → String → String
  lower_unless case_sensitive s = if case_sensitive then s else py.lower s

  abbrev pub equal_ignoring_case : Value → Value → Bool
  equal_ignoring_case actual expected =
      str_eq (py.lower (as_text actual)) (py.lower (as_text expected))

  unfoldable pub evaluate_eq : Bool → Value → Value → Bool
  evaluate_eq case_sensitive actual expected =
      if is_str actual && is_str expected && not case_sensitive
      then equal_ignoring_case actual expected
      else if is_boolean actual || is_boolean expected
      then equal_ignoring_case actual expected
      else same (compare_values actual expected) actual expected

  unfoldable pub evaluate_ne : Bool → Value → Value → Bool
  evaluate_ne case_sensitive actual expected =
      if is_str actual && is_str expected && not case_sensitive
      then not (equal_ignoring_case actual expected)
      else differ (compare_values actual expected) actual expected

  unfoldable pub evaluate_in : Bool → Value → Value → Bool
  evaluate_in case_sensitive actual expected =
      is_in (lower_unless case_sensitive (as_text actual))
        (map (λ v. lower_unless case_sensitive (as_text v)) (as_items expected))

  -- The first pattern that is refused ends the search.
  unfoldable pub matches_any : Bool → String → List Value → Bool
  matches_any case_sensitive text [] = false
  matches_any case_sensitive text (p ∷ ps) =
      elim (compile_search py (str_of py p) case_sensitive text) [
        | none ↦ false
        | some b ↦ b || matches_any case_sensitive text ps
      ]

  unfoldable pub evaluate_cidr : Value → Value → Bool
  evaluate_cidr actual expected =
      not (is_null actual)
      && ip_in_cidrs py (as_text actual)
          (keep (is_valid_cidr py) (map (str_of py) (as_items expected)))

  abbrev pub or_zero : Option ℕ → ℕ
  or_zero none = 0
  or_zero (some x) = x

  -- In hundredths; none for the OverflowError of float().
  unfoldable pub safe_float : Value → Option ℕ
  safe_float (boolean b) = some (if b then 100 else 0)
  safe_float (int n) = if py.fits_float n then some (n * 100) else none
  safe_float (float x) = some x
  safe_float (str s) = some (or_zero (py.parse_float s))
  safe_float v = some 0

  abbrev pub longer : Option ℕ → Option ℕ → Bool
  longer (some n) (some x) = ltb x (n * 100)
  longer n x = false

  abbrev pub shorter : Option ℕ → Option ℕ → Bool
  shorter (some n) (some x) = ltb (n * 100) x
  shorter n x = false

  abbrev pub comparisons : List String
  comparisons = "gt" ∷ "gte" ∷ "lt" ∷ "lte" ∷ []

  -- The operators of `_evaluate`; one that raises is false.
  unfoldable pub evaluate_op : String → Bool → Value → Value → Bool
  evaluate_op op case_sensitive actual expected =
      if str_eq op "exists"
      then (if is_null expected || truthy expected then not (is_null actual) else is_null actual)
      else if str_eq op "eq"
      then evaluate_eq case_sensitive actual expected
      else if str_eq op "ne"
      then evaluate_ne case_sensitive actual expected
      else if is_in op comparisons
      then holds (compare_values actual expected) op
      else if str_eq op "in"
      then evaluate_in case_sensitive actual expected
      else if str_eq op "not_in"
      then not (evaluate_in case_sensitive actual expected)
      else if str_eq op "contains"
      then is_inside (lower_unless case_sensitive (as_text expected))
          (lower_unless case_sensitive (as_text actual))
      else if str_eq op "icontains"
      then is_inside (py.lower (as_text expected)) (py.lower (as_text actual))
      else if str_eq op "startswith"
      then starts_with (lower_unless case_sensitive (as_text actual))
          (lower_unless case_sensitive (as_text expected))
      else if str_eq op "endswith"
      then ends_with (lower_unless case_sensitive (as_text actual))
          (lower_unless case_sensitive (as_text expected))
      else if str_eq op "regex"
      then not (is_null actual)
        && matches_any case_sensitive (prefix max_regex_input (as_text actual)) (as_items expected)
      else if str_eq op "cidr"
      then evaluate_cidr actual expected
      else if str_eq op "len_gt"
      then longer (length_of actual) (safe_float expected)
      else if str_eq op "len_lt"
      then shorter (length_of actual) (safe_float expected)
      else false

  -- `_evaluate`
  unfoldable pub evaluate_field : Condition → Dict → Bool
  evaluate_field c context =
      evaluate_op c.op c.case_sensitive (deep_get (obj (of_dict context)) c.field_path) c.value

  unfoldable pub evaluate_condition : Condition → Dict → Bool
  evaluate_condition c context =
      let result = evaluate_field c context in if c.negate then not result else result
