-- ===== src/Storage/Listing.antt =====
-- `list_actions` of storage/store.py: filters, the order of the rows, pages and their cursors. A
-- cursor is the pair that `_encode_cursor` packs and `_decode_cursor` gives back.
use thot_secure.Prelude.{
  ℕ, String, Bool, true, Option, none, some, List, [], ◌∷◌, str_eq, ◌==◌, ltb, not, max, min,
  length, keep, take, ◌&&◌, ◌||◌, if◌then◌else◌,
}
use thot_secure.Value.{non_empty}
use thot_secure.Platform.{Platform}
use thot_secure.Model.{Status, Action}
use thot_secure.Storage.Actions.{status_in}

abbrev pub Cursor : Type 0
Cursor = ℕ × String

pub record ActionQuery : Type 0 where
  pub status : List Status
  pub playbook : Option String
  pub finding_id : Option String
  pub limit : ℕ
  pub cursor : Option Cursor

abbrev pub max_page_size : ℕ
max_page_size = 500

unfoldable pub page_size : ℕ → ℕ
page_size limit = max 1 (min limit max_page_size)

abbrev pub has_status : List Status → Action → Bool
has_status [] a = true
has_status (s ∷ ss) a = status_in a.status (s ∷ ss)

-- A filter on a text that may be None or empty.
abbrev pub is_filtered : Option String → Option String → Bool
is_filtered none value = true
is_filtered (some t) none = not (non_empty t)
is_filtered (some t) (some v) = not (non_empty t) || str_eq v t

module _ (py : Platform) where
  -- ORDER BY requested_at DESC, action_id DESC: `a` comes before the place (t, id).
  abbrev pub comes_after : Action → Cursor → Bool
  comes_after a (t, id) =
      ltb a.requested_at t || (a.requested_at == t && py.text_before a.action_id id)

  abbrev pub is_after : Option Cursor → Action → Bool
  is_after none a = true
  is_after (some c) a = comes_after a c

  unfoldable pub is_listed : String → ActionQuery → Action → Bool
  is_listed tenant_id q a =
      str_eq a.tenant_id tenant_id
      && has_status q.status a
      && is_filtered q.playbook (some a.playbook)
      && is_filtered q.finding_id a.finding_id
      && is_after q.cursor a

  abbrev pub place_of : Action → Cursor
  place_of a = (a.requested_at, a.action_id)

  unfoldable pub insert_row : Action → List Action → List Action
  insert_row a [] = a ∷ []
  insert_row a (b ∷ rows) =
      let rest = insert_row a rows in if comes_after a (place_of b) then b ∷ rest else a ∷ b ∷ rows

  unfoldable pub in_order : List Action → List Action
  unfolding insert_row
  in_order [] = []
  in_order (a ∷ rows) = insert_row a (in_order rows)

  abbrev pub last_place : List Action → Option Cursor
  last_place [] = none
  last_place (a ∷ []) = some (place_of a)
  last_place (a ∷ b ∷ rows) = last_place (b ∷ rows)

  -- The page, and the cursor of the next one.
  unfoldable pub list_actions : String → ActionQuery → List Action → List Action × Option Cursor
  unfolding in_order is_listed
  list_actions tenant_id q rows =
      let found = in_order (keep (is_listed tenant_id q) rows) in
      let limit = page_size q.limit in
      let page = take limit found in
      (page, if ltb limit (length found) then last_place page else none)
