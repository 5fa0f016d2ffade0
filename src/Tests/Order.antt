-- ===== src/Tests/Order.antt =====
-- The order of texts by code points, for the witness of the pages.
use Prim.Native.Char.{Char, code}
use text.Mathlib.TextEquality.{codes_equal}
use text.Mathlib.TextPositions.{compare_self}
use Prim.Native.Nat.{compare}
use thot_secure.Prelude.{
  String, Bool, true, false, ◌≡◌, ltb, arith, if◌then◌else◌, refl, sym, ap, ap₂, ◌∙◌,
}
use thot_secure.Platform.{Platform}
use thot_secure.Storage.Pages.{IsOrder}
use thot_secure.Tests.Toy.{toy}

abbrev pub before : String → String → Bool
before String.[] String.[] = false
before String.[] (String.◌∷◌ d t) = true
before (String.◌∷◌ c s) String.[] = false
before (String.◌∷◌ c s) (String.◌∷◌ d t) =
    let rest = before s t in
    if ltb (code c) (code d) then true else if ltb (code d) (code c) then false else rest

before_self : (a : String) → before a a ≡ false
before_self String.[] = refl
before_self (String.◌∷◌ c s) = ground (arith, before_self s)

before_trans : (a b c : String) → before a b ≡ true → before b c ≡ true → before a c ≡ true
before_trans String.[] String.[] c h k = k
before_trans String.[] (String.◌∷◌ d t) String.[] h k = k
before_trans String.[] (String.◌∷◌ d t) (String.◌∷◌ e u) h k = refl
before_trans (String.◌∷◌ c s) String.[] u h k = ground (arith)
before_trans (String.◌∷◌ c s) (String.◌∷◌ d t) String.[] h k = k
before_trans (String.◌∷◌ c s) (String.◌∷◌ d t) (String.◌∷◌ e u) h k =
    ground (arith, before_trans s t u)

before_total : (a b : String) → before a b ≡ false → before b a ≡ false → a ≡ b
before_total String.[] String.[] h k = refl
before_total String.[] (String.◌∷◌ d t) h k = let no : ⊥ = ground arith in absurd no
before_total (String.◌∷◌ c s) String.[] h k = let no : ⊥ = ground arith in absurd no
before_total (String.◌∷◌ c s) (String.◌∷◌ d t) h k =
    let e : code c ≡ code d = ground arith in
    let f = codes_equal c d (ap (compare (code c)) (sym e) ∙ compare_self (code c)) in
    let x : before s t ≡ false = ground arith in
    let y : before t s ≡ false = ground arith in
    ap₂ (λ (p : Char) (q : String). String.◌∷◌ p q) f (before_total s t x y)

-- The platform whose texts have that order.
abbrev pub ordered : Platform
ordered = record toy { text_before = before }

pub ordered-IsOrder : IsOrder ordered.text_before
ordered-IsOrder = (before_self, before_trans, before_total)
