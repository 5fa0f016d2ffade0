-- ===== src/Actions/Reap.antt =====
-- `reap` of actions/engine.py: approvals that expire and rollbacks that fall due.
use thot_secure.Prelude.{
  ℕ, ◌+◌, String, Bool, true, false, Option, none, some, List, [], ◌∷◌, str_eq, leb, find, ◌&&◌,
  if◌then◌else◌,
}
use thot_secure.Model.{Tenant, Action, Token, Status, pending_approval, succeeded, expired}
use thot_secure.Value.{non_empty}
use thot_secure.Storage.Listing.{ActionQuery, list_actions}
use thot_secure.Actions.World.{
  World, Env, not_found, conflict, Result, ok, err, M, pure, ◌>>=◌, Author, status_before,
  set_status,
}
use thot_secure.Actions.Engine.{past, rollback}

abbrev pub reaper : Author
reaper = record { actor = "system:reaper"; role = "system" }

-- The first page of the actions in one status.
abbrev pub in_status : Status → ActionQuery
in_status s = record {
  status = s ∷ [];
  playbook = none;
  finding_id = none;
  limit = 500;
  cursor = none;
}

abbrev pub has_token : Option Token → Bool
has_token none = false
has_token (some t) = true

abbrev pub reached : Option ℕ → ℕ → Bool
reached none now = false
reached (some t) now = leb t now

abbrev pub is_due : Action → ℕ → Bool
is_due a now =
    a.rollback.available && has_token a.rollback.token && reached a.rollback.expires_at now

module _ (env : Env) where
  open env use {py, now}

  unfoldable pub list_page : String → Status → World → List Action
  list_page tenant_id s w = (list_actions py tenant_id (in_status s) w.rows).0

  unfoldable pub expire_one : Action → M ℕ
  expire_one a =
      if past a.expires_at now
      then (set_status env a expired reaper "action.fail" (status_before a) >>= λ b. pure 1)
      else pure 0

  unfoldable pub expire_all : List Action → M ℕ
  expire_all [] = pure 0
  expire_all (a ∷ rest) = expire_one a >>= λ n. expire_all rest >>= λ m. pure (n + m)

  -- except (ConflictError, NotFoundError)
  abbrev pub counted : Result Action → World → Result ℕ × World
  counted (ok a) w = (ok 1, w)
  counted (err conflict) w = (ok 0, w)
  counted (err not_found) w = (ok 0, w)
  counted (err e) w = (err e, w)

  unfoldable pub undo_one : Tenant → Action → M ℕ
  undo_one t a w =
      if is_due a now
      then (let (r, w') = rollback env t a.action_id reaper w in counted r w')
      else (ok 0, w)

  unfoldable pub undo_all : Tenant → List Action → M ℕ
  undo_all t [] = pure 0
  undo_all t (a ∷ rest) = undo_one t a >>= λ n. undo_all t rest >>= λ m. pure (n + m)

  -- The body of the loop over the tenants.
  unfoldable pub reap_tenant : Tenant → M (ℕ × ℕ)
  reap_tenant t w =
      (expire_all (list_page t.tenant_id pending_approval w) >>= λ n w'.
      (undo_all t (list_page t.tenant_id succeeded w') >>= λ m. pure (n, m)) w')
        w

  abbrev pub reap_known : Option Tenant → M (ℕ × ℕ)
  reap_known none = pure (0, 0)
  reap_known (some t) = reap_tenant t

  unfoldable pub reap_one : String → M (ℕ × ℕ)
  reap_one tenant_id w = reap_known (find (λ t. str_eq t.tenant_id tenant_id) w.tenants) w

  unfoldable pub reap_ids : List String → M (ℕ × ℕ)
  reap_ids [] = pure (0, 0)
  reap_ids (i ∷ rest) = reap_one i >>= λ n. reap_ids rest >>= λ m. pure (n.0 + m.0, n.1 + m.1)

  abbrev pub ids_of : List Tenant → List String
  ids_of [] = []
  ids_of (t ∷ ts) = t.tenant_id ∷ ids_of ts

  -- All tenants, or the one that is named.
  unfoldable pub reap : Option String → M (ℕ × ℕ)
  reap none w = reap_ids (ids_of w.tenants) w
  reap (some id) w = if non_empty id then reap_ids (id ∷ []) w else reap_ids (ids_of w.tenants) w
