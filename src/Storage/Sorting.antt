-- ===== src/Storage/Sorting.antt =====
-- The order of the rows that `list_actions` selects.
use thot_secure.Prelude.{
  String, Bool, true, false, some, List, [], ◌∷◌, ◌++◌, ◌≡◌, ◌≢◌, keep, arith, refl, ap, Bool-cases,
  inl, inr,
}
use thot_secure.Platform.{Platform}
use thot_secure.Model.{Action}
use thot_secure.Storage.Listing.{
  Cursor, ActionQuery, comes_after, is_after, is_listed, place_of, insert_row, in_order,
}
use thot_secure.Storage.Pages.{IsOrder, after_asym, after_self, after_trans}

module _ (py : Platform) (o : IsOrder py.text_before) where
  abbrev AllAfter : Cursor → List Action → Type 0
  AllAfter c [] = Unit
  AllAfter c (a ∷ rows) = (comes_after py a c ≡ true) × AllAfter c rows

  abbrev pub Sorted : List Action → Type 0
  Sorted [] = Unit
  Sorted (a ∷ rows) = AllAfter (place_of py a) rows × Sorted rows

  -- No two rows have the same id.
  abbrev Fresh : Action → List Action → Type 0
  Fresh a [] = Unit
  Fresh a (b ∷ rows) = (a.action_id ≢ b.action_id) × Fresh a rows

  keep_all :
      (c : Cursor) (rows : List Action) → AllAfter c rows → keep (is_after py (some c)) rows ≡ rows
  keep_all c [] h = refl
  keep_all c (a ∷ rows) (e, h) = rw e (ap (λ rest. a ∷ rest) (keep_all c rows h))

  AllAfter-last :
      (c : Cursor) (xs : List Action) (a : Action) (ys : List Action)
      → AllAfter c (xs ++ a ∷ ys)
      → comes_after py a c ≡ true
  AllAfter-last c [] a ys (e, h) = e
  AllAfter-last c (x ∷ xs) a ys (e, h) = AllAfter-last c xs a ys h

  before_other :
      (a b : Action)
      → comes_after py a (place_of py b) ≡ false
      → a.action_id ≢ b.action_id
      → comes_after py b (place_of py a) ≡ true
  before_other a b e d = elim (Bool-cases (comes_after py b (place_of py a))) [
    | inl f ↦ f
    | inr f ↦
        let x : py.text_before a.action_id b.action_id ≡ false = ground arith in
        let y : py.text_before b.action_id a.action_id ≡ false = ground arith in
        absurd (d (o.2 a.action_id b.action_id x y))
  ]

  -- After the last row of a part, the rest is left.
  pub keep-append :
      (xs : List Action) (a : Action) (ys : List Action)
      → Sorted (xs ++ a ∷ ys)
      → keep (is_after py (some (place_of py a))) (xs ++ a ∷ ys) ≡ ys
  keep-append [] a ys (h, s) = rw (after_self py o a) (keep_all (place_of py a) ys h)
  keep-append (x ∷ xs) a ys (h, s) =
      rw (after_asym py o a x (AllAfter-last (place_of py x) xs a ys h)) (keep-append xs a ys s)

  AllAfter-insert_row :
      (c : Cursor) (a : Action) (rows : List Action)
      → AllAfter c rows
      → comes_after py a c ≡ true
      → AllAfter c (insert_row py a rows)
  unfolding insert_row
  AllAfter-insert_row c a [] h e = (e, tt)
  AllAfter-insert_row c a (b ∷ rows) (f, h) e =
      elim (Bool-cases (comes_after py a (place_of py b))) [
        | inl g ↦ rw g (f, AllAfter-insert_row c a rows h e)
        | inr g ↦ rw g (e, (f, h))
      ]

  AllAfter-trans :
      (a : Action) (c : Cursor) (rows : List Action)
      → AllAfter (place_of py a) rows
      → comes_after py a c ≡ true
      → AllAfter c rows
  AllAfter-trans a c [] h e = tt
  AllAfter-trans a c (b ∷ rows) (f, h) e = (after_trans py o b a c f e, AllAfter-trans a c rows h e)

  insert_row-Sorted :
      (a : Action) (rows : List Action) → Fresh a rows → Sorted rows → Sorted (insert_row py a rows)
  unfolding insert_row
  insert_row-Sorted a [] n s = (tt, tt)
  insert_row-Sorted a (b ∷ rows) (d, n) (h, s) =
      elim (Bool-cases (comes_after py a (place_of py b))) [
        | inl e ↦
            rw e (AllAfter-insert_row (place_of py b) a rows h e, insert_row-Sorted a rows n s)
        | inr e ↦
            let f = before_other a b e d in
            rw e ((f, AllAfter-trans b (place_of py a) rows h f), (h, s))
      ]

  -- No two rows of the table have the same id.
  abbrev pub DistinctIds : List Action → Type 0
  DistinctIds [] = Unit
  DistinctIds (a ∷ rows) = Fresh a rows × DistinctIds rows

  Fresh-keep :
      (p : Action → Bool) (a : Action) (rows : List Action) → Fresh a rows → Fresh a (keep p rows)
  Fresh-keep p a [] n = tt
  Fresh-keep p a (b ∷ rows) (d, n) = elim (Bool-cases (p b)) [
    | inl e ↦ rw e (d, Fresh-keep p a rows n)
    | inr e ↦ rw e (Fresh-keep p a rows n)
  ]

  Fresh-insert_row :
      (a b : Action) (rows : List Action)
      → a.action_id ≢ b.action_id
      → Fresh a rows
      → Fresh a (insert_row py b rows)
  unfolding insert_row
  Fresh-insert_row a b [] d n = (d, tt)
  Fresh-insert_row a b (x ∷ rows) d (m, n) = elim (Bool-cases (comes_after py b (place_of py x))) [
    | inl e ↦ rw e (m, Fresh-insert_row a b rows d n)
    | inr e ↦ rw e (d, (m, n))
  ]

  Fresh-in_order : (a : Action) (rows : List Action) → Fresh a rows → Fresh a (in_order py rows)
  unfolding in_order
  Fresh-in_order a [] n = tt
  Fresh-in_order a (b ∷ rows) (d, n) =
      Fresh-insert_row a b (in_order py rows) d (Fresh-in_order a rows n)

  in_order-Sorted : (rows : List Action) → DistinctIds rows → Sorted (in_order py rows)
  unfolding in_order
  in_order-Sorted [] d = tt
  in_order-Sorted (a ∷ rows) (n, d) =
      insert_row-Sorted a (in_order py rows) (Fresh-in_order a rows n) (in_order-Sorted rows d)

  keep-DistinctIds :
      (p : Action → Bool) (rows : List Action) → DistinctIds rows → DistinctIds (keep p rows)
  keep-DistinctIds p [] d = tt
  keep-DistinctIds p (a ∷ rows) (n, d) = elim (Bool-cases (p a)) [
    | inl e ↦ rw e (Fresh-keep p a rows n, keep-DistinctIds p rows d)
    | inr e ↦ rw e (keep-DistinctIds p rows d)
  ]

  pub listed-Sorted :
      (tenant : String) (q : ActionQuery) (rows : List Action)
      → DistinctIds rows
      → Sorted (in_order py (keep (is_listed py tenant q) rows))
  listed-Sorted tenant q rows d =
      in_order-Sorted (keep (is_listed py tenant q) rows)
        (keep-DistinctIds (is_listed py tenant q) rows d)
