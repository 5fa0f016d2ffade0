-- ===== src/Storage/Actions.antt =====
-- The table `actions` of storage/store.py. Its rows are a list in the order of insertion.
use thot_secure.Prelude.{
  ℕ, String, str_append, Bool, false, Option, none, some, List, [], ◌∷◌, ◌++◌, str_eq, ◌==◌, ◌||◌,
  ltb, leb, not, ◌&&◌, any, find, keep, length, if◌then◌else◌,
}
use thot_secure.Value.{str}
use thot_secure.Platform.{Platform}
use thot_secure.Model.{
  Status, status_code, rejected, failed, succeeded, executing, approved, Action,
}

-- a.status in {…}
unfoldable pub status_in : Status → List Status → Bool
status_in s [] = false
status_in s (t ∷ ts) = status_code s == status_code t || status_in s ts

-- ConflictError, with the action that holds the idempotency key, or NotFoundError.
pub data StoreError : Type 0 where
  key_conflict : String → StoreError
  id_conflict : StoreError
  action_not_found : StoreError

-- SELECT * FROM actions WHERE action_id = ? AND tenant_id = ?
unfoldable pub is_row : String → String → Action → Bool
is_row tenant_id action_id a = str_eq a.action_id action_id && str_eq a.tenant_id tenant_id

unfoldable pub get_action : String → String → List Action → Option Action
get_action tenant_id action_id rows = find (is_row tenant_id action_id) rows

unfoldable pub find_action_by_idempotency : String → List Action → Option Action
find_action_by_idempotency key rows = find (λ a. str_eq a.idempotency_key key) rows

-- The columns that UPDATE actions SET … writes; the others keep their values.
unfoldable pub written : Action → Action → Action
written a row = record row {
  status = a.status;
  approved_by = a.approved_by;
  approved_at = a.approved_at;
  rejected_by = a.rejected_by;
  rejected_at = a.rejected_at;
  executed_at = a.executed_at;
  result = a.result;
  rollback = a.rollback;
  audit_seq = a.audit_seq;
}

unfoldable pub write_rows : Action → List Action → List Action
write_rows a [] = []
write_rows a (row ∷ rows) =
    (if is_row a.tenant_id a.action_id row then written a row else row) ∷ write_rows a rows

-- `update_action`; none for NotFoundError (no row was written).
unfoldable pub update_action : Action → List Action → Option (List Action)
update_action a rows =
    if any (is_row a.tenant_id a.action_id) rows then some (write_rows a rows) else none

pub data Inserted : Type 0 where
  stored : List Action → Inserted
  refused : StoreError → Inserted

-- `insert_action`: `action_id` is the primary key, `idempotency_key` is unique.
unfoldable pub insert_action : Action → List Action → Inserted
insert_action a rows =
    if any (λ r. str_eq r.action_id a.action_id) rows
    then refused id_conflict
    else elim (find_action_by_idempotency a.idempotency_key rows) [
      | none ↦ stored (rows ++ a ∷ [])
      | some existing ↦ refused (key_conflict existing.action_id)
    ]

-- `count_actions_since(tenant_id, since)`, with `exclude_failed` at its default.
unfoldable pub counts_since : String → ℕ → Action → Bool
counts_since tenant_id since a =
    str_eq a.tenant_id tenant_id
    && leb since a.requested_at
    && not (status_in a.status (rejected ∷ failed ∷ []))

unfoldable pub count_actions_since : String → ℕ → List Action → ℕ
count_actions_since tenant_id since rows = length (keep (counts_since tenant_id since) rows)

module _ (py : Platform) where
  -- target LIKE '%"value"%', on the JSON text of the target.
  unfoldable pub target_like : String → Action → Bool
  target_like value a =
      py.like (str_append "%\"" (str_append value "\"%"))
        (py.json_text (("type", str a.target_type) ∷ ("value", str a.target_value) ∷ []))

  unfoldable pub is_recent_on : String → String → String → Action → Bool
  is_recent_on tenant_id playbook value a =
      str_eq a.tenant_id tenant_id
      && str_eq a.playbook playbook
      && target_like value a
      && status_in a.status (succeeded ∷ executing ∷ approved ∷ [])

-- ORDER BY requested_at DESC LIMIT 1
unfoldable pub latest : List Action → Option Action
latest [] = none
latest (a ∷ rows) = elim (latest rows) [
  | none ↦ some a
  | some b ↦ if ltb a.requested_at b.requested_at then some b else some a
]

unfoldable pub last_action_for : Platform → String → String → String → List Action → Option Action
last_action_for py tenant_id playbook value rows =
    latest (keep (is_recent_on py tenant_id playbook value) rows)
