-- ===== src/Actions/Engine/Planning.antt =====
-- Planning: `plan` of actions/engine.py, with the action that it builds and stores.
use thot_secure.Prelude.{
  ℕ, zero, suc, ◌+◌, ◌*◌, ◌/◌, String, str_append, Bool, Option, none, some, [], str_eq, leb, max,
  ◌&&◌, ◌||◌, if◌then◌else◌,
}
use thot_secure.Value.{Dict, get, has_text, or_empty}
use thot_secure.Model.{Tenant, Finding, Action, by_policy, by_hand, planned, approved, is_terminal}
use thot_secure.Storage.Actions.{
  get_action, insert_action, stored, refused, StoreError, key_conflict, id_conflict,
  action_not_found,
}
use thot_secure.Decision.Engine.{or_ℕ}
use thot_secure.Actions.Evidence.{resolve_param_paths, resolve_target_value}
use thot_secure.Actions.Params.{validate_params}
use thot_secure.Actions.World.{
  Playbook, World, Env, not_found, conflict, playbook_error, ok, err, M, pure, ◌>>=◌, ◌>>◌, expect,
  Author, save, audit, notify,
}

-- TARGET_TYPE_BY_PLAYBOOK.get(name, "other")
unfoldable pub target_type : String → String
target_type name =
    if str_eq name "block-source-ip"
      || str_eq name "unblock-source-ip"
      || str_eq name "rate-limit-source"
      || str_eq name "remove-rate-limit"
    then "ip"
    else if str_eq name "isolate-host"
        || str_eq name "unisolate-host"
        || str_eq name "harden-endpoint"
    then "host"
    else if str_eq name "quarantine-artifact" || str_eq name "restore-artifact"
    then "file"
    else if str_eq name "patch-dependency"
    then "package"
    else if str_eq name "rotate-secret"
    then "secret"
    else if str_eq name "revoke-session"
    then "session"
    else "other"

-- The arguments of `plan`; `automatic` is mode == "auto".
pub record PlanRequest : Type 0 where
  pub playbook_name : String
  pub who : Author
  pub finding : Option Finding
  pub params : Dict
  pub automatic : Bool
  pub policy_id : Option String
  pub dry_run : Option Bool
  pub expires_in : Option ℕ

-- How the insertion loop of `plan` ends: a new row, or an active action that is reused.
pub data Placed : Type 0 where
  inserted reused : Action → Placed

module _ (env : Env) where
  open env use {py, settings, playbooks, answer, now, fresh}

  -- `_idempotency_key`
  unfoldable pub idempotency_key : String → String → Option String → ℕ → String
  idempotency_key tenant_id playbook target seconds =
      let window = max (if leb 1 seconds then seconds else 60) 60 in
      str_append tenant_id (
        str_append ":" (
          str_append playbook (
            str_append ":" (
              str_append (if has_text target then or_empty target else "n/a")
                (str_append ":" (py.str_int (now / 1000 / window)))))))

  -- The dry run of a new action: the global one cannot be lifted.
  unfoldable pub planned_dry_run : Tenant → Option Bool → Bool
  planned_dry_run t none = settings.dry_run || t.dry_run
  planned_dry_run t (some b) = settings.dry_run || b

  unfoldable pub cooldown_of : Tenant → ℕ
  cooldown_of t =
      if leb 1 t.cooldown_seconds then t.cooldown_seconds else settings.default_cooldown_seconds

  abbrev pub finding_id_of : Option Finding → Option String
  finding_id_of none = none
  finding_id_of (some f) = some f.finding_id

  -- The action that `plan` builds, before it is stored.
  unfoldable pub draft : Tenant → Playbook → PlanRequest → Dict → Option String → Action
  draft t p q params target =
      let automatic = q.automatic && p.reversible in
      record {
        action_id = fresh 0;
        tenant_id = t.tenant_id;
        finding_id = finding_id_of q.finding;
        policy_id = q.policy_id;
        playbook = p.name;
        status = if automatic then approved else planned;
        mode = if automatic then by_policy else by_hand;
        dry_run = planned_dry_run t q.dry_run;
        params = params;
        target_type = target_type p.name;
        target_value = or_empty target;
        requested_by = q.who.actor;
        requested_at = now;
        approved_by = none;
        approved_at = none;
        rejected_by = none;
        rejected_at = none;
        executed_at = none;
        expires_at = some (now + or_ℕ q.expires_in settings.approve_ttl_seconds * 1000);
        result = none;
        rollback = record {
          available = p.reversible;
          token = none;
          performed_at = none;
          result = none;
          expires_at = none;
        };
        idempotency_key = idempotency_key t.tenant_id p.name target (cooldown_of t);
        audit_seq = none;
      }

  -- The active action that holds the key of a conflict, or nothing.
  unfoldable pub active_holder : String → StoreError → World → Option Action
  active_holder tenant_id (key_conflict id) w = elim (get_action tenant_id id w.rows) [
    | none ↦ none
    | some a ↦ if is_terminal a then none else some a
  ]
  active_holder tenant_id id_conflict w = none
  active_holder tenant_id action_not_found w = none

  -- The loop over `attempt`, with the attempts that are left.
  unfoldable pub place : ℕ → ℕ → Action → String → M Placed
  place zero attempt a base w = (err conflict, w)
  place (suc left) attempt a base w = elim (insert_action a w.rows) [
    | stored rows ↦ (ok (inserted a), record w { rows = rows })
    | refused e ↦ elim (active_holder a.tenant_id e w) [
      | some existing ↦ (ok (reused existing), w)
      | none ↦
          place left (attempt + 1)
            (record a {
              action_id = fresh (attempt + 1);
              idempotency_key = str_append base (str_append "#" (py.str_int (attempt + 1)));
            })
            base w
    ]
  ]

  -- What follows the insertion.
  unfoldable pub finish_plan : Author → Placed → M Action
  finish_plan who (reused a) = pure a
  finish_plan who (inserted a) = do
    seq ← audit env who "action.plan" [] a
    let final = record a { audit_seq = some seq }
    save env final
    notify env final planned
    pure final

  unfoldable pub plan : Tenant → PlanRequest → M Action
  plan t q = do
    p ← expect (get q.playbook_name playbooks) not_found
    params ←
        expect (validate_params py p.params (resolve_param_paths py q.finding q.params))
          playbook_error
    let a = draft t p q params (resolve_target_value py params q.finding)
    placed ← place 5 0 a a.idempotency_key
    finish_plan q.who placed
