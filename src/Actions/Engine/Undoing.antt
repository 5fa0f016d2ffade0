-- ===== src/Actions/Engine/Undoing.antt =====
-- `rollback` and `from_decision` of actions/engine.py.
use thot_secure.Prelude.{
  String, Bool, true, false, Option, none, some, List, [], ◌∷◌, ◌&&◌, if◌then◌else◌,
}
use thot_secure.Value.{Dict, str, boolean, obj, of_dict, get, or_empty}
use thot_secure.Model.{
  Tenant, Finding, Decision, DecisionKind, require_approval, triggers_action, Action, ActionResult,
  Report, raised, Token, Status, pending_approval, approved, succeeded, failed, rolled_back,
}
use thot_secure.Storage.Actions.{status_in}
use thot_secure.Decision.Engine.{is_auto}
use thot_secure.Actions.Executor.{ExecutionOutcome, Call}
use thot_secure.Actions.Executor
use thot_secure.Actions.World.{
  Playbook, procedure, Env, conflict, ok, M, pure, ◌>>=◌, ◌>>◌, guard, expect, Author, status_name,
  status_before, set_status,
}
use thot_secure.Actions.Engine.Planning.{PlanRequest, plan}
use thot_secure.Actions.Engine.Execution.{
  require, report_of, execution_context, execute, is_planned,
}

abbrev pub rollback_statuses : List Status
rollback_statuses = succeeded ∷ failed ∷ []

abbrev pub is_required : DecisionKind → Bool
is_required require_approval = true
is_required _ = false

module _ (env : Env) where
  open env use {py, settings, playbooks, answer, now, fresh}

  abbrev pub optional_procedure : Option Playbook → Option Executor.Procedure
  optional_procedure none = none
  optional_procedure (some p) = some (procedure p)

  -- `executor.rollback`, the calls kept in the world.
  unfoldable pub run_rollback : Tenant → Action → Token → M (Option ExecutionOutcome)
  run_rollback t a token w =
      let (o, calls) =
        Executor.rollback py answer now a.dry_run (optional_procedure (get a.playbook playbooks))
          token (execution_context env t a w) w.calls in
      (ok o, record w { calls = calls })

  abbrev pub with_undo : Option ActionResult → Report → ActionResult
  with_undo none r = record { run = none; undo = some r }
  with_undo (some x) r = record x { undo = some r }

  abbrev pub rollback_before : Action → Dict
  rollback_before a =
      ("status", str (status_name a.status))
      ∷ ("rollback", obj (of_dict (("available", boolean a.rollback.available) ∷ [])))
      ∷ []

  -- The action after an attempt to undo it.
  abbrev pub undone : Action → Report → Bool → Action
  undone a r available = record a {
    result = some (with_undo a.result r);
    rollback = record a.rollback {
      available = available;
      performed_at = some now;
      result = some r;
    };
  }

  -- The end of `rollback`: `_mark_rollback_failed` keeps the token usable after a PlaybookError.
  unfoldable pub conclude_rollback : Action → Author → Option ExecutionOutcome → M Action
  conclude_rollback a who none =
      set_status env (undone a raised true) failed who "action.rollback" (rollback_before a)
  conclude_rollback a who (some o) =
      set_status env (undone a (report_of env o) false) (if o.ok then rolled_back else failed) who
        "action.rollback" (rollback_before a)

  unfoldable pub rollback : Tenant → String → Author → M Action
  rollback t action_id who = do
    a ← require env t.tenant_id action_id
    guard (status_in a.status rollback_statuses) conflict
    guard a.rollback.available conflict
    token ← expect a.rollback.token conflict
    o ← run_rollback t a token
    conclude_rollback a who o

  -- The last two steps of `from_decision`.
  unfoldable pub submit : Decision → Author → Action → M Action
  submit d who a =
      if is_required d.decision && is_planned a
      then set_status env a pending_approval who "action.plan" (status_before a)
      else pure a

  unfoldable pub launch : Tenant → Decision → Author → Action → M Action
  launch t d who a =
      if is_auto d.decision && status_in a.status (approved ∷ [])
      then execute env t a.action_id who
      else pure a

  abbrev pub request_of : Finding → Decision → Author → PlanRequest
  request_of f d who = record {
    playbook_name = or_empty d.playbook;
    who = who;
    finding = some f;
    params = d.params;
    automatic = is_auto d.decision;
    policy_id = d.policy_id;
    dry_run = some d.dry_run;
    expires_in = none;
  }

  unfoldable pub from_decision : Tenant → Finding → Decision → Author → M (Option Action)
  from_decision t f d who =
      if triggers_action d
      then (do
        a ← plan env t (request_of f d who)
        b ← submit d who a
        final ← launch t d who b
        pure (some final))
      else pure none
