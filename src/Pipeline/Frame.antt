-- ===== src/Pipeline/Frame.antt =====
-- What any sequence of tasks keeps of the world and the policies, once each part of the pipeline
-- keeps it.
use thot_secure.Prelude.{
  ℕ, ◌+◌, String, Bool, true, false, Option, none, some, List, [], ◌∷◌, ◌++◌, ltb, Bool-cases, inl,
  inr, ◌≡◌, refl, if◌then◌else◌,
}
use thot_secure.Model.{Tenant, Finding, Action}
use thot_secure.Storage.Events.{insert_events}
use thot_secure.Detection.Engine.{Event, MatchResult, evaluate}
use thot_secure.Decision.Engine.{decide}
use thot_secure.Actions.World.{World, Result, ok, err, Author}
use thot_secure.Actions.Engine.{from_decision}
use thot_secure.Pipeline.{Pipeline, Moment, Setup, View, view, env_of, get_tenant, record_audit}
use thot_secure.Pipeline.Upsert.{upsert_finding}
use thot_secure.Pipeline.React.{
  ProcessResult, Reaction, policy_engine, context_of, decision_entry, decide_finding, record_action,
  act_on, react_one, react, no_result, finish_event, process_known, process_event,
}
use thot_secure.Pipeline.Ingest.{
  States, IngestOutcome, add_states, ingest_entry, audit_batch, process_all, with_moments,
  by_tenant, ingest_accepted, ingest, replay_pending,
}
use thot_secure.Pipeline.Terms.{Terms, Tame, Parts}
use thot_secure.Pipeline.Session.{
  Task, ingesting, replaying, reviewing, requesting, perform, perform_all,
}

module _ (s : Setup) {c : Terms} (k : Parts s c) where
  open k use {order}
  open c use {Kept, Ready, Fits, Allowed}

  module _ (at : Moment) where
    record_action-R :
        (v : View) (a : Result (Option Action) × World) (r : ProcessResult) (p : Pipeline)
        → Kept v (a.1, p.decisions.policies)
        → Kept v (view (record_action s at a r p).2)
    unfolding record_action
    record_action-R v (ok none, w') r p h = h
    record_action-R v (ok (some a), w') r p h = h
    record_action-R v (err e, w') r p h = h

    act_on-R :
        (v : View) (i : ℕ) (t : Tenant) (r : ProcessResult) (u : Option Finding × Pipeline)
        → Fits t v
        → Kept v (view u.1)
        → Kept v (view (act_on s at i t r u).2)
    unfolding act_on decide_finding decide record_audit
    act_on-R v i t r (none, p) fit h = h
    act_on-R v i t r (some f, p) fit h =
        let e = record p.decisions { rows = p.world.rows } in
        let (d, e') = decide s.env.py e (context_of s at f t) in
        let entry = decision_entry s at f t d in
        let p' = record_audit s entry (record p { decisions = e' }) in
        let before =
          order.go v (view p) (view p') h (k.auditing entry (record p { decisions = e' })) in
        record_action-R v (from_decision (env_of s at i) t f d policy_engine p'.world) _ p' (
          order.go v (view p') _ before
            (k.acting at i t f e (view p') refl (k.fits t v (view p') before fit)))

    react-R :
        (i : ℕ) (ms : List MatchResult) (t : Tenant) (r : ProcessResult) (p : Pipeline)
        → Fits t (view p)
        → Kept (view p) (view (react s at i ms t r p).2)
    unfolding react react_one
    react-R i [] t r p fit = order.stay (view p)
    react-R i (m ∷ ms) t r p fit =
        let u = upsert_finding s at i m t p in
        let first = act_on-R (view p) i t r u fit (k.upserting at i m t p) in
        let (fine, r', p') = act_on s at i t r u in
        elim (Bool-cases fine) [
          | inl e ↦ rw e (
              order.go (view p) (view p') _ first
                (react-R (i + 1) ms t r' p' (k.fits t (view p) (view p') first fit)))
          | inr e ↦ rw e first
        ]

    finish_event-R :
        (v : View) (event : Event) (x : Reaction)
        → Kept v (view x.2)
        → Kept v (view (finish_event s at event x).1)
    unfolding finish_event
    finish_event-R v event (true, r, p) h = h
    finish_event-R v event (false, r, p) h = h

    process_known-R :
        (o : Option Tenant) (event : Event) (p : Pipeline)
        → get_tenant event.tenant_id p.world.tenants ≡ o
        → Ready (view p)
        → Kept (view p) (view (process_known s at o event p).1)
    unfolding process_known
    process_known-R none event p e h = order.stay (view p)
    process_known-R (some t) event p e h =
        let (matches, engine) = evaluate s.env.py event at.now p.engine in
        finish_event-R (view p) event _ (
          react-R 0 matches t (no_result s at event) (record p { engine = engine })
            (k.entering event.tenant_id t (view p) h e))

    process_event-R :
        (event : Event) (p : Pipeline)
        → Ready (view p)
        → Kept (view p) (view (process_event s at event p).1)
    unfolding process_event
    process_event-R event p h = process_known-R _ event p refl h

  audit_batch-R :
      (now : ℕ) (who : Author) (counts : List (String × ℕ)) (p : Pipeline)
      → Kept (view p) (view (audit_batch s now who counts p))
  unfolding audit_batch
  audit_batch-R now who [] p = order.stay (view p)
  audit_batch-R now who ((id, n) ∷ counts) p =
      let p' = record_audit s (ingest_entry s now who id n) p in
      order.go (view p) (view p') _ (k.auditing (ingest_entry s now who id n) p)
        (audit_batch-R now who counts p')

  process_all-R :
      (batch : List (Moment × Event)) (states : States) (actions : List Action) (p : Pipeline)
      → Ready (view p)
      → Kept (view p) (view (process_all s batch states actions p).2)
  unfolding process_all
  process_all-R [] states actions p h = order.stay (view p)
  process_all-R ((at, event) ∷ rest) states actions p h =
      let (r, p') = process_event s at event p in
      let first = process_event-R at event p h in
      order.go (view p) (view p') _ first (
        process_all-R rest (add_states r.findings r.decisions states) (actions ++ r.actions) p'
          (k.ready (view p) (view p') first h))

  ingest_accepted-R :
      (now : ℕ) (at : ℕ → Moment) (who : Author) (process : Bool) (events : List Event)
      (o : IngestOutcome) (p : Pipeline)
      → Ready (view p)
      → Kept (view p) (view (ingest_accepted s now at who process events o p).1)
  unfolding ingest_accepted
  ingest_accepted-R now at who process [] o p h = order.stay (view p)
  ingest_accepted-R now at who process (event ∷ events) o p h =
      let (inserted, rows) = insert_events (event ∷ events) p.events in
      let stored = record p { events = rows } in
      let counts = by_tenant [] (event ∷ events) in
      let audited = if ltb 0 inserted then audit_batch s now who counts stored else stored in
      let first : Kept (view p) (view audited) = elim (Bool-cases (ltb 0 inserted)) [
        | inl e ↦ rw e (audit_batch-R now who counts stored)
        | inr e ↦ rw e (order.stay (view p))
      ] in
      elim (Bool-cases process) [
        | inl e ↦ rw e (
            order.go (view p) (view audited) _ first (
              process_all-R (with_moments s at 0 (event ∷ events)) [] [] audited
                (k.ready (view p) (view audited) first h)))
        | inr e ↦ rw e first
      ]

  perform-R :
      (task : Task) (p : Pipeline)
      → Tame Allowed (task ∷ [])
      → Ready (view p)
      → Kept (view p) (view (perform s task p))
  unfolding ingest replay_pending
  perform-R (ingesting now at who process events) p q h =
      ingest_accepted-R now at who process _ _ p h
  perform-R (replaying at) p q h = process_all-R _ [] [] p h
  perform-R (reviewing now tenant_id who x id) p q h = k.transiting now tenant_id who x id p
  perform-R (requesting turn) p q h = k.serving turn (view p) q.0

  Tame-first :
      (task : Task) (tasks : List Task)
      → Tame Allowed (task ∷ tasks)
      → Tame Allowed (task ∷ []) × Tame Allowed tasks
  Tame-first (ingesting now at who process events) tasks q = (tt, q)
  Tame-first (replaying at) tasks q = (tt, q)
  Tame-first (reviewing now tenant_id who x id) tasks q = (tt, q)
  Tame-first (requesting turn) tasks q = ((q.0, tt), q.1)

  -- Whatever the tasks and in whatever order.
  pub perform_all-R :
      (tasks : List Task) (p : Pipeline)
      → Tame Allowed tasks
      → Ready (view p)
      → Kept (view p) (view (perform_all s tasks p))
  perform_all-R [] p q h = order.stay (view p)
  perform_all-R (task ∷ tasks) p q h =
      let (one, rest) = Tame-first task tasks q in
      let first = perform-R task p one h in
      order.go (view p) (view (perform s task p)) _ first (
        perform_all-R tasks (perform s task p) rest
          (k.ready (view p) (view (perform s task p)) first h))
