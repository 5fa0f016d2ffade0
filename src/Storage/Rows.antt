-- ===== src/Storage/Rows.antt =====
-- Reading a row back after a write.
use thot_secure.Prelude.{
  String, true, some, List, [], ◌∷◌, ◌++◌, ◌≡◌, eq_iff, arith, if◌then◌else◌, Bool-cases, inl, inr,
  ap, ◌∙◌,
}
use thot_secure.Model.{Action}
use thot_secure.Storage.Actions.{is_row, get_action, written, write_rows}

pub is_row_iff :
    (t id : String) (a : Action) → is_row t id a ≡ true → (a.action_id ≡ id) × (a.tenant_id ≡ t)
unfolding is_row
is_row_iff t id a h = ground (arith, eq_iff a.action_id id, eq_iff a.tenant_id t)

pub get_action-is_row :
    (t id : String) (rows : List Action) (a : Action)
    → get_action t id rows ≡ some a
    → is_row t id a ≡ true
unfolding get_action
get_action-is_row t id [] a h = cc
get_action-is_row t id (r ∷ rows) a h = elim (Bool-cases (is_row t id r)) [
  | inl e ↦ ground (arith, get_action-is_row t id rows a)
  | inr e ↦ ground (arith, get_action-is_row t id rows a)
]

-- A row that was found is found by its own key.
pub get_action_key :
    (t id : String) (rows : List Action) (a : Action)
    → get_action t id rows ≡ some a
    → get_action a.tenant_id a.action_id rows ≡ some a
get_action_key t id rows a h =
    let (i, u) = is_row_iff t id a (get_action-is_row t id rows a h) in
    ap (λ (x : String). get_action x a.action_id rows) u
    ∙ ap (λ (y : String). get_action t y rows) i
    ∙ h

-- What a write makes of a row.
abbrev pub rewritten : Action → Action → Action
rewritten b r = if is_row b.tenant_id b.action_id r then written b r else r

is_row-rewritten : (t id : String) (b r : Action) → is_row t id (rewritten b r) ≡ is_row t id r
unfolding is_row written
is_row-rewritten t id b r = ground arith

pub get_action-write_rows :
    (t id : String) (b : Action) (rows : List Action) (a : Action)
    → get_action t id rows ≡ some a
    → get_action t id (write_rows b rows) ≡ some (rewritten b a)
unfolding get_action write_rows
get_action-write_rows t id b [] a h = cc
get_action-write_rows t id b (r ∷ rows) a h =
    ground (arith, is_row-rewritten t id b r, get_action-write_rows t id b rows a)

pub get_action-append :
    (t id : String) (rows : List Action) (a x : Action)
    → get_action t id rows ≡ some a
    → get_action t id (rows ++ x ∷ []) ≡ some a
unfolding get_action
get_action-append t id [] a x h = cc
get_action-append t id (r ∷ rows) a x h = ground (arith, get_action-append t id rows a x)
