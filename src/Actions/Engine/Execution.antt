-- ===== src/Actions/Engine/Execution.antt =====
-- Approval, rejection and execution: `approve`, `reject` and `execute` of actions/engine.py.
use thot_secure.Prelude.{
  ℕ, String, Bool, true, false, Option, none, some, List, [], ◌∷◌, str_eq, ltb, not, find, ◌&&◌,
  if◌then◌else◌,
}
use thot_secure.Value.{Dict, str, boolean, float, obj, of_dict, get, or_empty, non_empty}
use thot_secure.Model.{
  Tenant, Finding, Action, ActionMode, by_policy, by_hand, ActionResult, Report, finished, raised,
  Status, planned, pending_approval, approved, rejected, executing, succeeded, failed, expired,
  is_terminal, tenant_protects,
}
use thot_secure.Storage.Actions.{get_action, status_in}
use thot_secure.Decision.Conditions.{mode_name}
use thot_secure.Actions.Evidence.{extract_targets}
use thot_secure.Actions.Executor.{ExecutionOutcome, Call}
use thot_secure.Actions.Executor
use thot_secure.Actions.World.{
  Playbook, procedure, World, Env, not_found, conflict, autonomy_refused, protected, ok, M, pure,
  raise, ◌>>=◌, ◌>>◌, guard, expect, Author, status_before, set_status,
}

abbrev pub system : Author
system = record { actor = "system"; role = "system" }

abbrev pub executable_statuses : List Status
executable_statuses = planned ∷ approved ∷ []

abbrev pub is_planned : Action → Bool
is_planned a = status_in a.status (planned ∷ [])

abbrev pub is_pending : Action → Bool
is_pending a = status_in a.status (pending_approval ∷ [])

abbrev pub is_by_policy : ActionMode → Bool
is_by_policy by_policy = true
is_by_policy by_hand = false

abbrev pub past : Option ℕ → ℕ → Bool
past none now = false
past (some t) now = ltb t now

module _ (env : Env) where
  open env use {py, settings, playbooks, answer, now, fresh}

  -- `require`
  unfoldable pub require : String → String → M Action
  require tenant_id action_id w = expect (get_action tenant_id action_id w.rows) not_found w

  unfoldable pub approve : Tenant → String → Author → M Action
  approve t action_id who = do
    a ← require t.tenant_id action_id
    guard (status_in a.status (planned ∷ pending_approval ∷ [])) conflict
    set_status env (record a { approved_by = some who.actor; approved_at = some now }) approved who
        "action.approve" (status_before a)

  unfoldable pub reject : Tenant → String → Author → M Action
  reject t action_id who = do
    a ← require t.tenant_id action_id
    guard (not (is_terminal a)) conflict
    set_status env (record a { rejected_by = some who.actor; rejected_at = some now }) rejected who
        "action.reject" (status_before a)

  -- The last test of `_authorize_execution`.
  unfoldable pub refuse_expired : Action → M (Unit {0})
  refuse_expired a =
      if past a.expires_at now && is_pending a
      then (set_status env a expired system "action.fail" (status_before a) >>= λ b. raise conflict)
      else pure tt

  unfoldable pub authorize_execution : Action → Playbook → Tenant → M (Unit {0})
  authorize_execution a p t = do
    guard (status_in a.status executable_statuses) conflict
    guard (not (is_planned a && not a.dry_run)) autonomy_refused
    guard (not (not p.reversible && is_by_policy a.mode)) autonomy_refused
    guard (not (tenant_protects py t (some a.target_value))) protected
    refuse_expired a

  unfoldable pub get_finding : String → Option String → World → Option Finding
  get_finding tenant_id none w = none
  get_finding tenant_id (some id) w =
      if non_empty id
      then find (λ f. str_eq f.finding_id id && str_eq f.tenant_id tenant_id) w.findings
      else none

  abbrev pub finding_dict : Option Finding → Option String → Dict
  finding_dict none id =
      ("id", str (or_empty id))
      ∷ ("rule_id", str "")
      ∷ ("severity", str "")
      ∷ ("risk_score", float 0)
      ∷ ("title", str "")
      ∷ ("host", str "")
      ∷ ("remediation", str "")
      ∷ []
  finding_dict (some f) id =
      ("id", str (or_empty id))
      ∷ ("rule_id", str f.rule_id)
      ∷ ("severity", str f.severity)
      ∷ ("risk_score", float f.risk_score)
      ∷ ("title", str f.title)
      ∷ ("host", str (or_empty (extract_targets py f).0))
      ∷ ("remediation", str f.remediation)
      ∷ []

  -- `_execution_context`
  unfoldable pub execution_context : Tenant → Action → World → Dict
  execution_context t a w =
      ("params", obj (of_dict a.params))
      ∷ (
        "finding",
        obj (of_dict (finding_dict (get_finding t.tenant_id a.finding_id w) a.finding_id)),
      )
      ∷ (
        "action",
        obj (
            of_dict (
              ("id", str a.action_id)
              ∷ ("playbook", str a.playbook)
              ∷ ("dry_run", boolean a.dry_run)
              ∷ ("target", str a.target_value)
              ∷ [])),
      )
      ∷ ("tenant", obj (of_dict (("id", str t.tenant_id) ∷ ("mode", str (mode_name t.mode)) ∷ [])))
      ∷ []

  -- `executor.execute`, the calls kept in the world.
  unfoldable pub run_playbook : Tenant → Action → Playbook → M (Option ExecutionOutcome)
  run_playbook t a p w =
      let (o, calls) =
        Executor.execute py answer now a.dry_run (procedure p) a.params (execution_context t a w)
          w.calls in
      (ok o, record w { calls = calls })

  abbrev pub run_result : Report → ActionResult
  run_result r = record { run = some r; undo = none }

  abbrev pub report_of : ExecutionOutcome → Report
  report_of o = finished o.ok o.simulated o.rollback_available

  -- `_mark_failed`
  unfoldable pub mark_failed : Action → Author → Report → M Action
  mark_failed a who r =
      set_status env (record a { result = some (run_result r) }) failed who "action.fail"
        (status_before a)

  unfoldable pub mark_succeeded : Action → Playbook → Author → ExecutionOutcome → M Action
  mark_succeeded a p who o =
      set_status env
        (record a {
          result = some (run_result (report_of o));
          rollback = record {
            available = o.rollback_available && p.reversible;
            token = o.rollback_token;
            performed_at = none;
            result = none;
            expires_at = a.expires_at;
          };
          executed_at = some now;
        })
        succeeded who "action.execute" (status_before a)

  unfoldable pub conclude : Action → Playbook → Author → Option ExecutionOutcome → M Action
  conclude a p who none = mark_failed a who raised
  conclude a p who (some o) =
      if o.ok then mark_succeeded a p who o else mark_failed a who (report_of o)

  unfoldable pub execute : Tenant → String → Author → M Action
  execute t action_id who = do
    a ← require t.tenant_id action_id
    p ← expect (get a.playbook playbooks) not_found
    authorize_execution a p t
    started ← set_status env a executing who "action.execute" (status_before a)
    o ← run_playbook t started p
    conclude started p who o
