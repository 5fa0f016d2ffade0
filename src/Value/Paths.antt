-- ===== src/Value/Paths.antt =====
-- `deep_get` of core/util.py, on JSON values: the attributes of a scalar (`hasattr`) are left out,
-- so a path that goes on after a scalar finds nothing.
use Prim.Native.Char.{Char, code}
use thot_secure.Prelude.{
  ℕ, zero, suc, ◌+◌, ◌*◌, ◌-◌, String, str_append, Option, none, some, List, [], ◌∷◌, str_eq, ◌==◌,
  leb, ◌&&◌, if◌then◌else◌,
}
use thot_secure.Value.{Value, null, arr, obj, to_list, to_dict, get}

abbrev pub snoc : String → Char → String
snoc s c = str_append s (String.◌∷◌ c "")

-- path.split(".")
unfoldable pub split_dots : String → String → List String
split_dots word String.[] = word ∷ []
split_dots word (String.◌∷◌ c s) =
    let rest = split_dots "" s in
    let more = split_dots (snoc word c) s in if code c == b'.' then word ∷ rest else more

-- int(s) if s.isdigit()
unfoldable pub digits : ℕ → String → Option ℕ
digits n String.[] = some n
digits n (String.◌∷◌ c s) =
    let rest = digits (n * 10 + (code c - b'0')) s in
    if leb b'0' (code c) && leb (code c) b'9' then rest else none

unfoldable pub index_of : String → Option ℕ
unfolding digits
index_of s = if str_eq s "" then none else digits 0 s

unfoldable pub nth : ℕ → List Value → Value
nth i [] = null
nth zero (v ∷ vs) = v
nth (suc i) (v ∷ vs) = nth i vs

-- One segment of the path; `null` stands for the default.
unfoldable pub dig : Value → String → Value
unfolding index_of nth
dig (obj fs) k = elim (get k (to_dict fs)) [ none ↦ null | some v ↦ v ]
dig (arr vs) k = elim (index_of k) [ none ↦ null | some i ↦ nth i (to_list vs) ]
dig v k = null

unfoldable pub dig_all : Value → List String → Value
unfolding dig
dig_all v [] = v
dig_all v (k ∷ ks) = dig_all (dig v k) ks

unfoldable pub deep_get : Value → String → Value
unfolding dig_all
deep_get source path = if str_eq path "" then source else dig_all source (split_dots "" path)
