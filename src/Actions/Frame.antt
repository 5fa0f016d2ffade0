-- ===== src/Actions/Frame.antt =====
-- What every method of the action engine keeps, once the writes of `_set_status` and the calls of
-- the executor keep it.
use thot_secure.Prelude.{String, Option, none, some}
use thot_secure.Value.{Dict}
use thot_secure.Model.{Tenant, Action, Status, Decision, Token}
use thot_secure.Storage.Actions.{status_in}
use thot_secure.Actions.Executor.{ExecutionOutcome}
use thot_secure.Actions.World.{
  Playbook, World, Env, conflict, Author, save, audit, notify, set_status,
}
use thot_secure.Actions.Keeps.{
  Keeps, Order, Keeps-pure, Keeps-raise, Keeps-expect, Keeps-bind, Keeps-if, Keeps-guarded,
}
use thot_secure.Actions.Licence.{authorize_execution_lem}
use thot_secure.Actions.Engine.{
  Placed, inserted, reused, finish_plan, require, approve, reject, refuse_expired,
  authorize_execution, run_playbook, mark_failed, mark_succeeded, conclude, execute, run_rollback,
  conclude_rollback, rollback, submit, rollback_statuses,
}

-- The writes of `_set_status` keep the relation.
pub record Written (env : Env) (R : World → World → Type 0) : Type 0 where
  pub order : Order R
  pub saving : (a : Action) → Keeps R (save env a)
  pub auditing :
      (who : Author) (name : String) (before : Dict) (a : Action)
      → Keeps R (audit env who name before a)
  pub notifying : (a : Action) (s : Status) → Keeps R (notify env a s)

module _ (env : Env) {R : World → World → Type 0} (f : Written env R) where
  pub set_status-Keeps :
      (a : Action) (s : Status) (who : Author) (name : String) (before : Dict)
      → Keeps R (set_status env a s who name before)
  unfolding set_status
  set_status-Keeps a s who name before = Keeps-bind f.order _ _ (f.saving _) λ x.
      Keeps-bind f.order _ _ (f.auditing who name before _) λ seq.
        Keeps-bind f.order _ _ (f.saving _)
          λ y. Keeps-bind f.order _ _ (f.notifying _ s) λ z. Keeps-pure f.order _

  require-Keeps : (t id : String) → Keeps R (require env t id)
  unfolding require
  require-Keeps t id = record { at = λ w. (Keeps-expect f.order _ _).at w }

  pub approve-Keeps : (t : Tenant) (id : String) (who : Author) → Keeps R (approve env t id who)
  unfolding approve
  approve-Keeps t id who =
      Keeps-bind f.order _ _ (require-Keeps _ _)
        λ a. Keeps-guarded f.order _ _ _ (set_status-Keeps _ _ _ _ _)

  pub reject-Keeps : (t : Tenant) (id : String) (who : Author) → Keeps R (reject env t id who)
  unfolding reject
  reject-Keeps t id who =
      Keeps-bind f.order _ _ (require-Keeps _ _)
        λ a. Keeps-guarded f.order _ _ _ (set_status-Keeps _ _ _ _ _)

  refuse_expired-Keeps : (a : Action) → Keeps R (refuse_expired env a)
  unfolding refuse_expired
  refuse_expired-Keeps a =
      Keeps-if f.order _ _ _
        (Keeps-bind f.order _ _ (set_status-Keeps _ _ _ _ _) λ b. Keeps-raise f.order _)
        (Keeps-pure f.order _)

  authorize_execution-Keeps :
      (a : Action) (p : Playbook) (t : Tenant) → Keeps R (authorize_execution env a p t)
  authorize_execution-Keeps a p t = record {
    at = λ w. rw (authorize_execution_lem env a p t w) (f.order.stay w);
  }

  conclude-Keeps :
      (a : Action) (p : Playbook) (who : Author) (o : Option ExecutionOutcome)
      → Keeps R (conclude env a p who o)
  unfolding conclude mark_failed mark_succeeded
  conclude-Keeps a p who none = set_status-Keeps _ _ _ _ _
  conclude-Keeps a p who (some o) =
      Keeps-if f.order _ _ _ (set_status-Keeps _ _ _ _ _) (set_status-Keeps _ _ _ _ _)

  conclude_rollback-Keeps :
      (a : Action) (who : Author) (o : Option ExecutionOutcome)
      → Keeps R (conclude_rollback env a who o)
  unfolding conclude_rollback
  conclude_rollback-Keeps a who none = set_status-Keeps _ _ _ _ _
  conclude_rollback-Keeps a who (some o) = set_status-Keeps _ _ _ _ _

  pub finish_plan-Keeps : (who : Author) (p : Placed) → Keeps R (finish_plan env who p)
  unfolding finish_plan
  finish_plan-Keeps who (reused a) = Keeps-pure f.order _
  finish_plan-Keeps who (inserted a) =
      Keeps-bind f.order _ _ (f.auditing who "action.plan" _ a) λ seq.
        Keeps-bind f.order _ _ (f.saving _)
          λ x. Keeps-bind f.order _ _ (f.notifying _ _) λ y. Keeps-pure f.order _

  pub submit-Keeps : (d : Decision) (who : Author) (a : Action) → Keeps R (submit env d who a)
  unfolding submit
  submit-Keeps d who a = Keeps-if f.order _ _ _ (set_status-Keeps _ _ _ _ _) (Keeps-pure f.order _)

  module _
      (running : (t : Tenant) (a : Action) (p : Playbook) → Keeps R (run_playbook env t a p)) where
    pub execute-Keeps : (t : Tenant) (id : String) (who : Author) → Keeps R (execute env t id who)
    unfolding execute
    execute-Keeps t id who = Keeps-bind f.order _ _ (require-Keeps _ _) λ a.
        Keeps-bind f.order _ _ (Keeps-expect f.order _ _) λ p.
          Keeps-bind f.order _ _ (authorize_execution-Keeps a p t) λ x.
            Keeps-bind f.order _ _ (set_status-Keeps _ _ _ _ _)
              λ b. Keeps-bind f.order _ _ (running t b p) λ o. conclude-Keeps b p who o

  module _
      (undoing : (t : Tenant) (a : Action) (token : Token)
        → Keeps R (run_rollback env t a token)) where
    pub rollback-Keeps : (t : Tenant) (id : String) (who : Author) → Keeps R (rollback env t id who)
    unfolding rollback
    rollback-Keeps t id who = Keeps-bind f.order _ _ (require-Keeps _ _) λ a.
        Keeps-guarded f.order (status_in a.status rollback_statuses) conflict _ (
          Keeps-guarded f.order a.rollback.available conflict _ (
            Keeps-bind f.order _ _ (Keeps-expect f.order a.rollback.token conflict) λ token.
              Keeps-bind f.order _ _ (undoing t a token) λ o. conclude_rollback-Keeps a who o))
