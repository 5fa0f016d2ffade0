-- ===== src/Detection/Complements.antt =====
-- Which operators of a condition are the negation of each other.
use thot_secure.Prelude.{
  ℕ, String, Bool, true, false, Option, none, some, ◌≡◌, not, ◌&&◌, ◌||◌, refl, Bool-cases, inl,
  inr,
}
use thot_secure.Value.{Value, null, boolean, int, float, str, arr, obj, is_in}
use thot_secure.Platform.{Platform}
use thot_secure.Detection.Matchers.{
  is_boolean, is_str, is_null, is_equal, Comparison, compared, incomparable, raised, reading_of,
  compare_readings, number_in, compare_as_texts, as_number, same, differ, evaluate_op, evaluate_eq,
  evaluate_ne, compare_values, below, equal, above, holds,
}

abbrev pub comparable : Comparison → Bool
comparable (compared s) = true
comparable incomparable = false
comparable raised = false

abbrev pub has_raised : Comparison → Bool
has_raised (compared s) = false
has_raised incomparable = false
has_raised raised = true

exclusive :
    (o : Comparison)
    → ((holds o "lt" && holds o "gte") ≡ false)
      × ((holds o "gt" && holds o "lte") ≡ false)
      × ((holds o "lt" || holds o "gte") ≡ comparable o)
      × ((holds o "gt" || holds o "lte") ≡ comparable o)
exclusive incomparable = (refl, refl, refl, refl)
exclusive raised = (refl, refl, refl, refl)
exclusive (compared below) = (refl, refl, refl, refl)
exclusive (compared equal) = (refl, refl, refl, refl)
exclusive (compared above) = (refl, refl, refl, refl)

and_true : (b : Bool) → b ≡ (b && true)
and_true true = refl
and_true false = refl

and_false : (b : Bool) → (b && false) ≡ false
and_false true = refl
and_false false = refl

module _ (py : Platform) where
  same-raised :
      (o : Comparison) (actual expected : Value)
      → (same py o actual expected && has_raised o) ≡ false
  same-raised (compared s) actual expected = and_false (is_equal s)
  same-raised incomparable actual expected = and_false (is_null actual && is_null expected)
  same-raised raised actual expected = refl

  differ-same :
      (o : Comparison) (actual expected : Value)
      → differ py o actual expected ≡ (not (same py o actual expected) && not (has_raised o))
  differ-same (compared s) actual expected = and_true (not (is_equal s))
  differ-same incomparable actual expected = and_true (not (is_null actual && is_null expected))
  differ-same raised actual expected = refl

  readings_of_texts :
      (a b : Option ℕ) (o : Comparison)
      → has_raised o ≡ false
      → has_raised (compare_readings py (reading_of a) (reading_of b) o) ≡ false
  readings_of_texts none none o h = h
  readings_of_texts none (some y) o h = h
  readings_of_texts (some x) none o h = h
  readings_of_texts (some x) (some y) o h = refl

  -- Texts are never converted from an int.
  texts_compare :
      (actual expected : Value) (b : Bool)
      → (is_str actual && is_str expected && b) ≡ true
      → has_raised (compare_values py actual expected) ≡ false
  unfolding compare_values as_number
  texts_compare (str s) (str t) b h =
      readings_of_texts (number_in py (py.strip s)) (number_in py (py.strip t))
        (compare_as_texts py (str s) (str t)) refl
  texts_compare (str s) null b h = cc
  texts_compare (str s) (boolean x) b h = cc
  texts_compare (str s) (int x) b h = cc
  texts_compare (str s) (float x) b h = cc
  texts_compare (str s) (arr x) b h = cc
  texts_compare (str s) (obj x) b h = cc
  texts_compare null e b h = cc
  texts_compare (boolean x) e b h = cc
  texts_compare (int x) e b h = cc
  texts_compare (float x) e b h = cc
  texts_compare (arr x) e b h = cc
  texts_compare (obj x) e b h = cc

module _ (py : Platform) (case_sensitive : Bool) (actual expected : Value) where
  abbrev pub satisfies : String → Bool
  satisfies op = evaluate_op py op case_sensitive actual expected

  -- Unless a boolean is compared, `ne` is the negation of `eq`, but for a comparison that raises,
  -- as that of an int too large for a float with a text does, where both are false; `not_in` is
  -- always the negation of `in`; `lt` and `gte` exclude each other, and so do `gt` and `lte`, and
  -- one of each two holds exactly when the values compare.
  pub evaluate_op-complements :
      is_boolean actual ≡ false
      → is_boolean expected ≡ false
      → (satisfies "ne"
          ≡ (not (satisfies "eq") && not (has_raised (compare_values py actual expected))))
        × ((satisfies "eq" && has_raised (compare_values py actual expected)) ≡ false)
        × (satisfies "not_in" ≡ not (satisfies "in"))
        × ((satisfies "lt" && satisfies "gte") ≡ false)
        × ((satisfies "gt" && satisfies "lte") ≡ false)
        × ((satisfies "lt" || satisfies "gte") ≡ comparable (compare_values py actual expected))
        × ((satisfies "gt" || satisfies "lte") ≡ comparable (compare_values py actual expected))
  unfolding evaluate_op evaluate_eq evaluate_ne is_in
  evaluate_op-complements a b =
      let (l, g, m, n) = exclusive (compare_values py actual expected) in
      (
        elim (Bool-cases (is_str actual && is_str expected && not case_sensitive)) [
          | inl e ↦ rw e (rw (texts_compare py actual expected (not case_sensitive) e) (and_true _))
          | inr e ↦
              rw (e, a, b) (differ-same py (compare_values py actual expected) actual expected)
        ],
        elim (Bool-cases (is_str actual && is_str expected && not case_sensitive)) [
          | inl e ↦
              rw e (rw (texts_compare py actual expected (not case_sensitive) e) (and_false _))
          | inr e ↦
              rw (e, a, b) (same-raised py (compare_values py actual expected) actual expected)
        ],
        refl,
        l,
        g,
        m,
        n,
      )
