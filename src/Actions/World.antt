-- ===== src/Actions/World.antt =====
-- The state that actions/engine.py works on, the monad of its methods, and `_set_status`.
-- A method returns its result or raises; what it wrote before raising stays written.
use thot_secure.Prelude.{
  ℕ, String, str_append, Bool, true, false, Option, none, some, List, [], ◌∷◌, ◌++◌,
}
use thot_secure.Value.{Dict, str, boolean}
use thot_secure.Platform.{Platform}
use thot_secure.Model.{
  Tenant, Settings, Finding, Action, ActionMode, by_policy, by_hand, Status, planned,
  pending_approval, approved, rejected, executing, succeeded, failed, expired, rolled_back,
}
use thot_secure.Audit.Defs.{AuditLog, append_audit}
use thot_secure.Storage.Actions.{update_action}
use thot_secure.Actions.Params.{Specs}
use thot_secure.Actions.Executor.{Step, Procedure, Call, Connectors}

pub record Playbook : Type 0 where
  pub name : String
  pub reversible : Bool
  pub params : Specs
  pub execute : List Step
  pub rollback : List Step

abbrev pub procedure : Playbook → Procedure
procedure p = record { name = p.name; execute = p.execute; rollback = p.rollback }

-- The tables of the store, the audit table, the calls made to connectors, and the events handed
-- to `on_change`.
pub record World : Type 0 where
  pub tenants : List Tenant
  pub findings : List Finding
  pub rows : List Action
  pub log : AuditLog
  pub calls : List Call
  pub changes : List (String × Status)

-- What the methods share: the engine's configuration, the time that `utcnow()` reads during the
-- call, and the identifiers that `new_id` gives, in order.
pub record Env : Type 0 where
  pub py : Platform
  pub settings : Settings
  pub playbooks : List (String × Playbook)
  pub answer : Connectors
  pub now : ℕ
  pub fresh : ℕ → String

pub data ActionError : Type 0 where
  not_found conflict playbook_error autonomy_refused protected : ActionError

pub data Result {ℓ} (A : Type ℓ) : Type ℓ where
  ok : A → Result A
  err : ActionError → Result A

abbrev pub M : Type 0 → Type 0
M A = World → Result A × World

abbrev pub pure : {A : Type 0} → A → M A
pure a w = (ok a, w)

abbrev pub raise : {A : Type 0} → ActionError → M A
raise e w = (err e, w)

abbrev pub continue : {A B : Type 0} → Result A → (A → M B) → World → Result B × World
continue (ok a) f w = f a w
continue (err e) f w = (err e, w)

infixl 5 ◌>>=◌ ◌>>◌
abbrev pub ◌>>=◌ : {A B : Type 0} → M A → (A → M B) → M B
◌>>=◌ m f w = let (r, w') = m w in continue r f w'

abbrev pub ◌>>◌ : {B : Type 0} → M (Unit {0}) → M B → M B
m >> k = m >>= λ _. k

-- raise unless the test holds
abbrev pub guard : Bool → ActionError → M (Unit {0})
guard true e = pure tt
guard false e = raise e

-- the value, or raise
abbrev pub expect : {A : Type 0} → Option A → ActionError → M A
expect none e = raise e
expect (some a) e = pure a

abbrev pub status_name : Status → String
status_name planned = "planned"
status_name pending_approval = "pending_approval"
status_name approved = "approved"
status_name rejected = "rejected"
status_name executing = "executing"
status_name succeeded = "succeeded"
status_name failed = "failed"
status_name expired = "expired"
status_name rolled_back = "rolled_back"

abbrev pub mode_text : ActionMode → String
mode_text by_policy = "auto"
mode_text by_hand = "manual"

-- `Action.to_audit_dict`
unfoldable pub to_audit_dict : Action → Dict
to_audit_dict a =
    ("action_id", str a.action_id)
    ∷ ("playbook", str a.playbook)
    ∷ ("status", str (status_name a.status))
    ∷ ("dry_run", boolean a.dry_run)
    ∷ ("mode", str (mode_text a.mode))
    ∷ ("target", str (str_append a.target_type (str_append ":" a.target_value)))
    ∷ []

abbrev pub status_before : Action → Dict
status_before a = ("status", str (status_name a.status)) ∷ []

-- Who acts, and the name of the audited action.
pub record Author : Type 0 where
  pub actor : String
  pub role : String

module _ (env : Env) where
  -- `update_action`, raising NotFoundError.
  unfoldable pub save : Action → M (Unit {0})
  save a w = elim (update_action a w.rows) [
    | none ↦ (err not_found, w)
    | some rows ↦ (ok tt, record w { rows = rows })
  ]

  -- `AuditChain.record`, for an action; the sequence number of the record. Of the free context
  -- only the playbook is kept.
  unfoldable pub audit : Author → String → Dict → Action → M ℕ
  audit who name before a w =
      let (r, log) =
        append_audit env.py
          (record {
            ts = env.now;
            tenant_id = a.tenant_id;
            actor = who.actor;
            actor_role = who.role;
            action = name;
            target = ("type", str "action") ∷ ("id", str a.action_id) ∷ [];
            before = before;
            after = to_audit_dict a;
            context = ("playbook", str a.playbook) ∷ [];
          })
          w.log in
      (ok r.seq, record w { log = log })

  -- `_notify`
  unfoldable pub notify : Action → Status → M (Unit {0})
  notify a event w = (ok tt, record w { changes = w.changes ++ (a.action_id, event) ∷ [] })

  -- `_set_status`, on an action that already carries the `extra` fields of the call.
  unfoldable pub set_status : Action → Status → Author → String → Dict → M Action
  set_status a status who name before = do
    let changed = record a { status = status }
    save changed
    seq ← audit who name before changed
    let final = record changed { audit_seq = some seq }
    save final
    notify final status
    pure final
