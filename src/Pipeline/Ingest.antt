-- ===== src/Pipeline/Ingest.antt =====
-- `Pipeline.ingest` and `replay_pending`. Each event of a batch has its own moment. The list
-- `result.findings` repeats the findings and decisions of the outcome and is left out.
use thot_secure.Prelude.{
  ℕ, ◌+◌, ◌-◌, String, str_append, Bool, Option, none, some, List, [], ◌∷◌, ◌++◌, ltb, length, map,
  take, if◌then◌else◌,
}
use thot_secure.Value.{str, int, get, put}
use thot_secure.Model.{Tenant, Finding, Decision, Action}
use thot_secure.Storage.Events.{insert_events, pending_events}
use thot_secure.Detection.Engine.{Event}
use thot_secure.Audit.Defs.{Entry}
use thot_secure.Actions.World.{Author}
use thot_secure.Pipeline.{Pipeline, Moment, Setup, get_tenant, record_audit}
use thot_secure.Pipeline.React.{process_event}

abbrev pub max_batch : ℕ
max_batch = 500

pub data IngestError : Type 0 where
  batch_too_large : IngestError
  unknown_tenant : String → IngestError

-- The last finding and decision of each finding's identifier, in the order of first appearance.
abbrev pub States : Type 0
States = List (String × (Finding × Option Decision))

pub record IngestOutcome : Type 0 where
  pub accepted : ℕ
  pub rejected : ℕ
  pub errors : List IngestError
  pub event_ids : List String
  pub states : States
  pub actions : List Action

abbrev pub no_outcome : IngestOutcome
no_outcome = record {
  accepted = 0;
  rejected = 0;
  errors = [];
  event_ids = [];
  states = [];
  actions = [];
}

-- The events of known tenants, and the identifiers of the others.
unfoldable pub accept : List Tenant → List Event → List Event × List String
accept tenants [] = ([], [])
accept tenants (event ∷ events) =
    let (accepted, unknown) = accept tenants events in
    elim (get_tenant event.tenant_id tenants) [
      | none ↦ (accepted, event.event_id ∷ unknown)
      | some t ↦ (event ∷ accepted, unknown)
    ]

abbrev pub or_zero : Option ℕ → ℕ
or_zero none = 0
or_zero (some n) = n

-- The number of accepted events of each tenant.
unfoldable pub by_tenant : List (String × ℕ) → List Event → List (String × ℕ)
by_tenant counts [] = counts
by_tenant counts (event ∷ events) =
    by_tenant (put event.tenant_id (or_zero (get event.tenant_id counts) + 1) counts) events

unfoldable pub add_states : List Finding → List Decision → States → States
add_states [] ds states = states
add_states (f ∷ fs) [] states = add_states fs [] (put f.finding_id (f, none) states)
add_states (f ∷ fs) (d ∷ ds) states = add_states fs ds (put f.finding_id (f, some d) states)

module _ (s : Setup) where
  abbrev pub ingest_entry : ℕ → Author → String → ℕ → Entry
  ingest_entry now who tenant_id n = record {
    ts = now;
    tenant_id = tenant_id;
    actor = who.actor;
    actor_role = who.role;
    action = "event.ingest";
    target =
        ("type", str "event_batch")
        ∷ ("id", str (str_append "batch:" (s.env.py.isoformat now)))
        ∷ [];
    before = [];
    after = ("accepted", int n) ∷ [];
    context = [];
  }

  unfoldable pub audit_batch : ℕ → Author → List (String × ℕ) → Pipeline → Pipeline
  audit_batch now who [] p = p
  audit_batch now who ((tenant_id, n) ∷ counts) p =
      audit_batch now who counts (record_audit s (ingest_entry now who tenant_id n) p)

  -- The loop over the accepted events.
  unfoldable pub process_all :
      List (Moment × Event) → States → List Action → Pipeline → States × List Action × Pipeline
  process_all [] states actions p = (states, actions, p)
  process_all ((at, event) ∷ rest) states actions p =
      let (r, p') = process_event s at event p in
      process_all rest (add_states r.findings r.decisions states) (actions ++ r.actions) p'

  -- The moment of each event, by its place in the batch.
  unfoldable pub with_moments : (ℕ → Moment) → ℕ → List Event → List (Moment × Event)
  with_moments at i [] = []
  with_moments at i (event ∷ events) = (at i, event) ∷ with_moments at (i + 1) events

  -- From `insert_events` on, for accepted events.
  unfoldable pub ingest_accepted :
      ℕ
      → (ℕ → Moment)
      → Author
      → Bool
      → List Event
      → IngestOutcome
      → Pipeline
      → IngestOutcome × Pipeline
  ingest_accepted now at who process [] o p = (o, p)
  ingest_accepted now at who process (event ∷ events) o p =
      let batch = event ∷ events in
      let (inserted, rows) = insert_events batch p.events in
      let stored = record p { events = rows } in
      let audited =
        if ltb 0 inserted then audit_batch now who (by_tenant [] batch) stored else stored in
      let o' = record o {
        accepted = inserted;
        rejected = o.rejected + (length batch - inserted);
        event_ids = map (λ (e : Event). e.event_id) batch;
      } in
      if process
      then (let (states, actions, p') = process_all (with_moments at 0 batch) [] [] audited in
          (record o' { states = states; actions = actions }, p'))
      else (o', audited)

  abbrev pub oversize : List Event → List IngestError
  oversize events = if ltb max_batch (length events) then batch_too_large ∷ [] else []

  unfoldable pub ingest :
      ℕ → (ℕ → Moment) → Author → Bool → List Event → Pipeline → IngestOutcome × Pipeline
  ingest now at who process events p =
      let (accepted, unknown) = accept p.world.tenants (take max_batch events) in
      ingest_accepted now at who process accepted
        (record no_outcome {
          rejected = length unknown;
          errors = oversize events ++ map unknown_tenant unknown;
        })
        p

  unfoldable pub replay_pending : (ℕ → Moment) → Pipeline → ℕ × Pipeline
  replay_pending at p =
      let pending = pending_events max_batch p.events in
      let (states, actions, p') = process_all (with_moments at 0 pending) [] [] p in
      (length pending, p')
