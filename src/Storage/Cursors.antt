-- ===== src/Storage/Cursors.antt =====
-- Following the cursors of `list_actions` to the last page.
use thot_secure.Prelude.{
  ℕ, zero, suc, String, Bool, none, some, List, [], ◌∷◌, ◌++◌, ◌+◌, ◌≡◌, ◌≤◌, ◌<◌, ltb, length,
  keep, take, arith, refl, sym, ap, subst, ◌∙◌, Bool-cases, inl, inr,
}
use thot_secure.Platform.{Platform}
use thot_secure.Model.{Action}
use thot_secure.Storage.Listing.{
  ActionQuery, page_size, is_after, is_listed, place_of, comes_after, insert_row, in_order,
  last_place, list_actions,
}
use thot_secure.Storage.Pages.{IsOrder, from_start, in_order-keep}
use thot_secure.Storage.Sorting.{DistinctIds, Sorted, keep-append, listed-Sorted}

-- The rows after the first n.
abbrev drop : ℕ → List Action → List Action
drop zero rows = rows
drop (suc n) [] = []
drop (suc n) (a ∷ rows) = drop n rows

take-drop : (n : ℕ) (rows : List Action) → take n rows ++ drop n rows ≡ rows
take-drop zero rows = refl
take-drop (suc n) [] = refl
take-drop (suc n) (a ∷ rows) = ap (λ rest. a ∷ rest) (take-drop n rows)

length-drop :
    (n : ℕ) (rows : List Action) → n < length rows → length (drop n rows) + n ≡ length rows
length-drop zero rows h = omega arith
length-drop (suc n) [] h = omega arith
length-drop (suc n) (a ∷ rows) h = omega (arith, length-drop n rows (omega arith))

append_assoc : (xs ys zs : List Action) → (xs ++ ys) ++ zs ≡ xs ++ (ys ++ zs)
append_assoc [] ys zs = refl
append_assoc (x ∷ xs) ys zs = ap (λ rest. x ∷ rest) (append_assoc xs ys zs)

module _ (py : Platform) where
  -- The rows of all pages: each query goes on after the cursor of the one before it.
  abbrev pub follow : ℕ → String → ActionQuery → List Action → List Action
  follow zero tenant q rows = []
  follow (suc n) tenant q rows =
      let (page, next) = list_actions py tenant q rows in
      page ++ elim next [ none ↦ [] | some c ↦ follow n tenant (record q { cursor = some c }) rows ]

  last_place_of :
      (x : Action) (ys : List Action)
      → (xs : List Action) × (a : Action) × (x ∷ ys ≡ xs ++ a ∷ [])
        × (last_place py (x ∷ ys) ≡ some (place_of py a))
  last_place_of x [] = ([], x, refl, refl)
  last_place_of x (y ∷ ys) =
      let (xs, a, e, f) = last_place_of y ys in (x ∷ xs, a, ap (λ rest. x ∷ rest) e, f)

  last_place-take :
      (n : ℕ) (rows : List Action)
      → n < length rows
      → 1 ≤ n
      → (xs : List Action) × (a : Action) × (take n rows ≡ xs ++ a ∷ [])
        × (last_place py (take n rows) ≡ some (place_of py a))
  last_place-take zero rows h k = let no : ⊥ = omega arith in absurd no
  last_place-take (suc n) [] h k = let no : ⊥ = omega arith in absurd no
  last_place-take (suc n) (x ∷ rows) h k = last_place_of x (take n rows)

  take_whole : (n : ℕ) (rows : List Action) → length rows ≤ n → take n rows ≡ rows
  take_whole zero [] h = refl
  take_whole zero (a ∷ rows) h = let no : ⊥ = omega arith in absurd no
  take_whole (suc n) [] h = refl
  take_whole (suc n) (a ∷ rows) h = ap (λ rest. a ∷ rest) (take_whole n rows (omega arith))

  append-nil : (rows : List Action) → rows ++ [] ≡ rows
  append-nil [] = refl
  append-nil (a ∷ rows) = ap (λ rest. a ∷ rest) (append-nil rows)

  page_size_positive : (n : ℕ) → 1 ≤ page_size n
  unfolding page_size
  page_size_positive n = omega arith

  length-insert_row :
      (a : Action) (rows : List Action) → length (insert_row py a rows) ≡ suc (length rows)
  unfolding insert_row
  length-insert_row a [] = refl
  length-insert_row a (b ∷ rows) = elim (Bool-cases (comes_after py a (place_of py b))) [
    | inl e ↦ rw e (ap suc (length-insert_row a rows))
    | inr e ↦ rw e refl
  ]

  length-in_order : (rows : List Action) → length (in_order py rows) ≡ length rows
  unfolding in_order
  length-in_order [] = refl
  length-in_order (a ∷ rows) =
      length-insert_row a (in_order py rows) ∙ ap suc (length-in_order rows)

  length-keep : (p : Action → Bool) (rows : List Action) → length (keep p rows) ≤ length rows
  length-keep p [] = omega arith
  length-keep p (a ∷ rows) = ground (arith, length-keep p rows)

  abbrev listed : String → ActionQuery → List Action → List Action
  listed tenant q rows = in_order py (keep (is_listed py tenant q) rows)

  module _ (o : IsOrder py.text_before) where
    follow-listed :
        (n : ℕ) (tenant : String) (q : ActionQuery) (rows before : List Action)
        → DistinctIds py o rows
        → listed tenant (from_start q) rows ≡ before ++ listed tenant q rows
        → length (listed tenant q rows) < n
        → follow n tenant q rows ≡ listed tenant q rows
    unfolding list_actions
    follow-listed zero tenant q rows before d e h = let no : ⊥ = omega arith in absurd no
    follow-listed (suc n) tenant q rows before d e h =
        let found = listed tenant q rows in
        let limit = page_size q.limit in
        elim (Bool-cases (ltb limit (length found))) [
          | inr f ↦ rw f (append-nil (take limit found) ∙ take_whole limit found (ground arith))
          | inl f ↦
              let (xs, a, g, k) =
                last_place-take limit found (ground arith) (page_size_positive q.limit) in
              let q' = record q { cursor = some (place_of py a) } in
              let rest = drop limit found in
              let whole : listed tenant (from_start q) rows ≡ (before ++ xs) ++ a ∷ rest =
                e
                ∙ ap (λ ys. before ++ ys)
                    (sym (take-drop limit found)
                      ∙ ap (λ ys. ys ++ rest) g
                      ∙ append_assoc xs (a ∷ []) rest)
                ∙ sym (append_assoc before xs (a ∷ rest)) in
              let next : listed tenant q' rows ≡ rest =
                in_order-keep py o tenant q' rows
                ∙ ap (keep (is_after py (some (place_of py a)))) whole
                ∙ keep-append py o (before ++ xs) a rest
                    (subst (Sorted py o) whole (listed-Sorted py o tenant (from_start q) rows d)) in
              let split =
                whole
                ∙ sym (append_assoc (before ++ xs) (a ∷ []) rest)
                ∙ ap (λ ys. ((before ++ xs) ++ a ∷ []) ++ ys) (sym next) in
              let size = ap length next in
              let smaller : length (listed tenant q' rows) < n = omega (
                arith,
                size,
                h,
                length-drop limit found (ground arith),
                page_size_positive q.limit,
              ) in
              rw (f, k)
                (ap (λ ys. take limit found ++ ys)
                    (follow-listed n tenant q' rows ((before ++ xs) ++ a ∷ []) d split smaller
                      ∙ next)
                  ∙ take-drop limit found)
        ]

    -- With SQLite's order of texts a strict total order and distinct action ids: following the cursors
    -- from the first page ends, after no more pages than there are rows and one, and yields every row
    -- that passes the filters exactly once, in the order of the listing, whatever the page size.
    pub follow-in_order :
        (tenant : String) (q : ActionQuery) (rows : List Action)
        → DistinctIds py o rows
        → follow (suc (length rows)) tenant (from_start q) rows
          ≡ in_order py (keep (is_listed py tenant (from_start q)) rows)
    follow-in_order tenant q rows d =
        follow-listed (suc (length rows)) tenant (from_start q) rows [] d refl (
          omega (
            arith,
            length-in_order (keep (is_listed py tenant (from_start q)) rows),
            length-keep (is_listed py tenant (from_start q)) rows,
          ))
