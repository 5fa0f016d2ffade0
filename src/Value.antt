-- ===== src/Value.antt =====
-- The dynamic values that the program reads from YAML and JSON (`Any` in its annotations), and
-- Python's operations on them. A `float` counts hundredths; negative numbers are not represented.
pub mod Keys
pub mod Paths
use thot_secure.Prelude.{
  ℕ, String, Bool, true, false, Option, none, some, List, [], ◌∷◌, str_eq, ◌==◌, not, any,
  if◌then◌else◌,
}

mutual
  pub data Value : Type 0 where
    null : Value
    boolean : Bool → Value
    int : ℕ → Value
    float : ℕ → Value
    str : String → Value
    arr : Items → Value
    obj : Fields → Value

  pub data Items : Type 0 where
    nil : Items
    item : Value → Items → Items

  pub data Fields : Type 0 where
    end : Fields
    field : String → Value → Fields → Fields

-- A `dict[str, Any]`, in insertion order.
abbrev pub Dict : Type 0
Dict = List (String × Value)

abbrev pub to_dict : Fields → Dict
to_dict end = []
to_dict (field k v fs) = (k, v) ∷ to_dict fs

abbrev pub of_dict : Dict → Fields
of_dict [] = end
of_dict ((k, v) ∷ d) = field k v (of_dict d)

abbrev pub to_list : Items → List Value
to_list nil = []
to_list (item v vs) = v ∷ to_list vs

module _ {ℓ} {V : Type ℓ} where
  -- d.get(k)
  unfoldable pub get : String → List (String × V) → Option V
  get k [] = none
  get k ((j, v) ∷ d) = if str_eq j k then some v else get k d

  -- d[k] = v
  unfoldable pub put : String → V → List (String × V) → List (String × V)
  put k v [] = (k, v) ∷ []
  put k v ((j, w) ∷ d) = if str_eq j k then (j, v) ∷ d else (j, w) ∷ put k v d

-- s in {…} for texts
unfoldable pub is_in : String → List String → Bool
is_in s names = any (λ n. str_eq s n) names

-- bool(s) for a text
unfoldable pub non_empty : String → Bool
non_empty s = not (str_eq s "")

-- bool(v)
unfoldable pub truthy : Value → Bool
unfolding non_empty
truthy null = false
truthy (boolean b) = b
truthy (int n) = not (n == 0)
truthy (float n) = not (n == 0)
truthy (str s) = non_empty s
truthy (arr nil) = false
truthy (arr (item v vs)) = true
truthy (obj end) = false
truthy (obj (field k v fs)) = true

-- bool(o) for an optional text
unfoldable pub has_text : Option String → Bool
has_text none = false
has_text (some s) = non_empty s

-- o or "" for an optional text
unfoldable pub or_empty : Option String → String
or_empty none = ""
or_empty (some s) = s
