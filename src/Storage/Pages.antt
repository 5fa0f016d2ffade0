-- ===== src/Storage/Pages.antt =====
-- Following the cursors of `list_actions`: the order of the rows, and what a cursor skips.
use thot_secure.Prelude.{
  String, Bool, true, false, Option, none, some, List, [], ◌∷◌, ◌≡◌, str_eq, keep, ◌&&◌,
  if◌then◌else◌, arith, refl, sym, ap, ◌∙◌, Bool-cases, inl, inr,
}
use thot_secure.Platform.{Platform}
use thot_secure.Model.{Action}
use thot_secure.Storage.Listing.{
  Cursor, ActionQuery, has_status, is_filtered, comes_after, is_after, is_listed, place_of,
  insert_row, in_order,
}

-- The query from the first page on.
abbrev pub from_start : ActionQuery → ActionQuery
from_start q = record q { cursor = none }

-- SQLite's order of texts is a strict total order.
abbrev pub IsOrder : (String → String → Bool) → Type 0
IsOrder before =
    ((a : String) → before a a ≡ false)
    × ((a b c : String) → before a b ≡ true → before b c ≡ true → before a c ≡ true)
    × ((a b : String) → before a b ≡ false → before b a ≡ false → a ≡ b)

five : (a b c d e : Bool) → (a && b && c && d && e) ≡ ((a && b && c && d && true) && e)
five true true true true e = refl
five true true true false e = refl
five true true false d e = refl
five true false c d e = refl
five false b c d e = refl

module _ (py : Platform) (o : IsOrder py.text_before) where
  pub after_trans :
      (a b : Action) (c : Cursor)
      → comes_after py a (place_of py b) ≡ true
      → comes_after py b c ≡ true
      → comes_after py a c ≡ true
  after_trans a b (t, id) h k = ground (arith, o.1 a.action_id b.action_id id)

  pub after_self : (a : Action) → comes_after py a (place_of py a) ≡ false
  after_self a = ground (arith, o.0 a.action_id)

  pub after_asym :
      (a b : Action)
      → comes_after py a (place_of py b) ≡ true
      → comes_after py b (place_of py a) ≡ false
  after_asym a b h = elim (Bool-cases (comes_after py b (place_of py a))) [
    | inl e ↦ let no = sym (after_self a) ∙ after_trans a b (place_of py a) h e in e ∙ sym no
    | inr e ↦ e
  ]

  after_total :
      (a b : Action) (c : Cursor)
      → comes_after py a (place_of py b) ≡ false
      → comes_after py a c ≡ true
      → comes_after py b c ≡ true
  after_total a b (t, id) h k = elim (Bool-cases (comes_after py b (place_of py a))) [
    | inl e ↦ after_trans b a (t, id) e k
    | inr e ↦
        let r : a.requested_at ≡ b.requested_at = ground arith in
        let x : py.text_before a.action_id b.action_id ≡ false = ground arith in
        let y : py.text_before b.action_id a.action_id ≡ false = ground arith in
        let q = ap (λ z. py.text_before z id) (o.2 a.action_id b.action_id x y) in ground (arith, q)
  ]

  is_listed-from_start :
      (tenant : String) (q : ActionQuery) (a : Action)
      → is_listed py tenant q a ≡ (is_listed py tenant (from_start q) a && is_after py q.cursor a)
  unfolding is_listed
  is_listed-from_start tenant q a =
      five (str_eq a.tenant_id tenant) (has_status q.status a)
        (is_filtered q.playbook (some a.playbook)) (is_filtered q.finding_id a.finding_id)
        (is_after py q.cursor a)

  keep-insert_row_out :
      (c : Cursor) (a : Action) (rows : List Action)
      → comes_after py a c ≡ false
      → keep (is_after py (some c)) (insert_row py a rows) ≡ keep (is_after py (some c)) rows
  unfolding insert_row
  keep-insert_row_out c a [] h = rw h refl
  keep-insert_row_out c a (b ∷ rows) h = elim (Bool-cases (comes_after py a (place_of py b))) [
    | inl e ↦ rw e (
        ap (λ rest. if comes_after py b c then b ∷ rest else rest) (keep-insert_row_out c a rows h))
    | inr e ↦ rw e (rw h refl)
  ]

  keep-insert_row_in :
      (c : Cursor) (a : Action) (rows : List Action)
      → comes_after py a c ≡ true
      → keep (is_after py (some c)) (insert_row py a rows)
        ≡ insert_row py a (keep (is_after py (some c)) rows)
  unfolding insert_row
  keep-insert_row_in c a [] h = rw h refl
  keep-insert_row_in c a (b ∷ rows) h = elim (Bool-cases (comes_after py a (place_of py b))) [
    | inl e ↦ elim (Bool-cases (comes_after py b c)) [
      | inl f ↦ rw (e, f) (rw e (ap (λ rest. b ∷ rest) (keep-insert_row_in c a rows h)))
      | inr f ↦ rw (e, f) (keep-insert_row_in c a rows h)
    ]
    | inr e ↦ let f = after_total a b c e h in rw (e, f, h) (rw e refl)
  ]

  keep-none : (rows : List Action) → keep (is_after py none) rows ≡ rows
  keep-none [] = refl
  keep-none (a ∷ rows) = ap (λ rest. a ∷ rest) (keep-none rows)

  keep-insert_row :
      (c : Option Cursor) (a : Action) (rows : List Action)
      → keep (is_after py c) (insert_row py a rows) ≡ (
          if is_after py c a
          then insert_row py a (keep (is_after py c) rows)
          else keep (is_after py c) rows)
  keep-insert_row none a rows =
      keep-none (insert_row py a rows) ∙ ap (insert_row py a) (sym (keep-none rows))
  keep-insert_row (some c) a rows = elim (Bool-cases (comes_after py a c)) [
    | inl e ↦ rw e (keep-insert_row_in c a rows e)
    | inr e ↦ rw e (keep-insert_row_out c a rows e)
  ]

  -- The rows that a query with a cursor lists are those of the first page on, after the cursor.
  pub in_order-keep :
      (tenant : String) (q : ActionQuery) (rows : List Action)
      → in_order py (keep (is_listed py tenant q) rows)
        ≡ keep (is_after py q.cursor) (in_order py (keep (is_listed py tenant (from_start q)) rows))
  unfolding in_order
  in_order-keep tenant q [] = refl
  in_order-keep tenant q (a ∷ rows) =
      let e = is_listed-from_start tenant q a in
      let found = in_order py (keep (is_listed py tenant (from_start q)) rows) in
      let h = in_order-keep tenant q rows in
      let k = keep-insert_row q.cursor a found in
      elim (Bool-cases (is_listed py tenant (from_start q) a)) [
        | inr f ↦ let d : is_listed py tenant q a ≡ false = e ∙ rw f refl in rw (d, f) h
        | inl f ↦ elim (Bool-cases (is_after py q.cursor a)) [
          | inl g ↦
              let d : is_listed py tenant q a ≡ true = e ∙ rw (f, g) refl in
              let m : keep (is_after py q.cursor) (insert_row py a found)
                  ≡ insert_row py a (keep (is_after py q.cursor) found) =
                k ∙ rw g refl in
              rw (d, f) (ap (insert_row py a) h ∙ sym m)
          | inr g ↦
              let d : is_listed py tenant q a ≡ false = e ∙ rw (f, g) refl in
              let m : keep (is_after py q.cursor) (insert_row py a found)
                  ≡ keep (is_after py q.cursor) found =
                k ∙ rw g refl in
              rw (d, f) (h ∙ sym m)
        ]
      ]
