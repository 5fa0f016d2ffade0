-- ===== src/Pipeline/React.antt =====
-- `Pipeline._decide`, `_react_to` and `process_event`. An exception ends the treatment of the event;
-- what was written before it stays written.
use thot_secure.Prelude.{
  ℕ, suc, ◌+◌, String, Bool, true, false, Option, none, some, List, [], ◌∷◌, ◌++◌, if◌then◌else◌,
}
use thot_secure.Value.{str, boolean}
use thot_secure.Model.{
  Tenant, Finding, Action, Decision, DecisionKind, auto, require_approval, notify_only, ignore,
}
use thot_secure.Storage.Events.{mark_processed}
use thot_secure.Detection.Engine.{Event, MatchResult, evaluate}
use thot_secure.Detection.Evidence.{text_or_null}
use thot_secure.Decision.Conditions.{DecisionContext}
use thot_secure.Decision.Engine.{decide}
use thot_secure.Audit.Defs.{Entry}
use thot_secure.Actions.World.{World, Result, ok, err, Author}
use thot_secure.Actions.Evidence.{extract_targets}
use thot_secure.Actions.Engine.{from_decision}
use thot_secure.Pipeline.{Pipeline, Moment, Setup, env_of, get_tenant, record_audit}
use thot_secure.Pipeline.Upsert.{entry, upsert_finding}

-- `error` tells whether the treatment failed.
pub record ProcessResult : Type 0 where
  pub event_id : String
  pub findings : List Finding
  pub decisions : List Decision
  pub actions : List Action
  pub error : Bool

-- Whether no exception was raised, the result so far, and the state.
abbrev pub Reaction : Type 0
Reaction = Bool × ProcessResult × Pipeline

abbrev pub policy_engine : Author
policy_engine = record { actor = "system:policy-engine"; role = "system" }

abbrev pub decision_name : DecisionKind → String
decision_name auto = "auto"
decision_name require_approval = "require_approval"
decision_name notify_only = "notify_only"
decision_name ignore = "ignore"

module _ (s : Setup) (at : Moment) where
  unfoldable pub context_of : Finding → Tenant → DecisionContext
  context_of f t =
      let (asset_host, target_value) = extract_targets s.env.py f in
      record {
        finding = f;
        tenant = t;
        environment = s.env.settings.env;
        settings = some s.env.settings;
        asset_host = asset_host;
        target_value = target_value;
        extra = [];
        now = at.now;
      }

  -- The reason and the guards of the context are left out.
  abbrev pub decision_entry : Finding → Tenant → Decision → Entry
  decision_entry f t d =
      entry at.now t.tenant_id "system:policy-engine" "decision.evaluate" "finding" f.finding_id []
        (("decision", str (decision_name d.decision))
          ∷ ("policy_id", text_or_null d.policy_id)
          ∷ ("playbook", text_or_null d.playbook)
          ∷ ("dry_run", boolean d.dry_run)
          ∷ [])
        []

  -- `_decide`
  unfoldable pub decide_finding : Finding → Tenant → Pipeline → Decision × Pipeline
  decide_finding f t p =
      let (d, e) = decide s.env.py (record p.decisions { rows = p.world.rows }) (context_of f t) in
      (d, record_audit s (decision_entry f t d) (record p { decisions = e }))

  -- What follows `from_decision`.
  unfoldable pub record_action :
      Result (Option Action) × World → ProcessResult → Pipeline → Reaction
  record_action (ok none, w) r p = (true, r, record p { world = w })
  record_action (ok (some a), w) r p = (
    true,
    record r { actions = r.actions ++ a ∷ [] },
    record p { world = w; triggered_actions = suc p.triggered_actions },
  )
  record_action (err e, w) r p = (false, r, record p { world = w })

  -- The rest of the body of the loop, with the finding or the exception of `_upsert_finding`.
  unfoldable pub act_on : ℕ → Tenant → ProcessResult → Option Finding × Pipeline → Reaction
  act_on i t r (none, p) = (false, r, p)
  act_on i t r (some f, p) =
      let (d, p') = decide_finding f t p in
      record_action (from_decision (env_of s at i) t f d policy_engine p'.world)
        (record r { findings = r.findings ++ f ∷ []; decisions = r.decisions ++ d ∷ [] }) p'

  unfoldable pub react_one : ℕ → MatchResult → Tenant → ProcessResult → Pipeline → Reaction
  react_one i m t r p = act_on i t r (upsert_finding s at i m t p)

  -- `_react_to`
  unfoldable pub react : ℕ → List MatchResult → Tenant → ProcessResult → Pipeline → Reaction
  react i [] t r p = (true, r, p)
  react i (m ∷ ms) t r p =
      let (fine, r', p') = react_one i m t r p in
      let rest = react (i + 1) ms t r' p' in if fine then rest else (false, r', p')

  abbrev pub no_result : Event → ProcessResult
  no_result event = record {
    event_id = event.event_id;
    findings = [];
    decisions = [];
    actions = [];
    error = false;
  }

  -- The end of `process_event`.
  unfoldable pub finish_event : Event → Reaction → ProcessResult × Pipeline
  finish_event event (true, r, p) = (
    r,
    record p {
      processed_events = suc p.processed_events;
      events = mark_processed (event.event_id ∷ []) p.events;
    },
  )
  finish_event event (false, r, p) = (record r { error = true }, record p { errors = suc p.errors })

  unfoldable pub process_known : Option Tenant → Event → Pipeline → ProcessResult × Pipeline
  process_known none event p = (record (no_result event) { error = true }, p)
  process_known (some t) event p =
      let (matches, engine) = evaluate s.env.py event at.now p.engine in
      finish_event event (react 0 matches t (no_result event) (record p { engine = engine }))

  unfoldable pub process_event : Event → Pipeline → ProcessResult × Pipeline
  process_event event p = process_known (get_tenant event.tenant_id p.world.tenants) event p
