-- ===== src/Pipeline/OneOpen.antt =====
-- The open findings of a rule and a key over any sequence of tasks.
use thot_secure.Prelude.{
  ℕ, ◌≤◌, String, true, Option, none, some, List, [], ◌∷◌, ◌≡◌, refl, arith, Bool-cases, inl, inr,
  eq_iff,
}
use thot_secure.Value.{is_in}
use thot_secure.Model.{Tenant, Finding}
use thot_secure.Storage.Findings.{update_finding, is_finding, get_finding}
use thot_secure.Storage.Open.{open_count, Neat}
use thot_secure.Storage.Closing.{update_rows-Neat, Closes, Closes-closed, Closes-found}
use thot_secure.Storage.Latest.{update_finding-rows}
use thot_secure.Tenancy.{has_capability}
use thot_secure.Actions.World.{Author}
use thot_secure.Actions.Session.{env_at}
use thot_secure.Actions.Serving.{from_decision-Keeps, serve-Keeps}
use thot_secure.Actions.Untouched.{Untouched-Served}
use thot_secure.Pipeline.{Pipeline, Setup, env_of, get_tenant}
use thot_secure.Pipeline.Review.{
  Transition, ack, close, suppress, allowed_from, transition_update, add_suppression, moved,
  transition_of, transition, review_found, review,
}
use thot_secure.Pipeline.React.{policy_engine}
use thot_secure.Pipeline.Worlds.{Parts, perform_all-R}
use thot_secure.Pipeline.Session.{Task, perform_all}
use thot_secure.Pipeline.Dedup.{Orderly, Orderly-Order, findings-record_audit, upsert_finding-Neat}

module _ (s : Setup) where
  module _ (now : ℕ) (tenant_id : String) (who : Author) where
    found_id :
        (id : String) (f : Finding) (rows : List Finding)
        → get_finding tenant_id id rows ≡ some f
        → f.finding_id ≡ id
    unfolding get_finding is_finding
    found_id id f [] h = cc
    found_id id f (g ∷ rows) h = ground (arith, eq_iff g.finding_id id, found_id id f rows)

    -- No transition opens a finding.
    transition_update-Closes :
        (x : Transition) (id : String) (f : Finding) (rows : List Finding)
        → Neat rows
        → get_finding tenant_id id rows ≡ some f
        → is_in f.status (allowed_from x) ≡ true
        → Closes tenant_id f.finding_id (transition_update s now tenant_id who x) rows
    unfolding is_in
    transition_update-Closes ack id f rows h found allowed = rw (found_id id f rows found) (
        Closes-found tenant_id id (transition_update s now tenant_id who ack) now f rows h.0 found
          (ground arith))
    transition_update-Closes (close resolution) id f rows h found allowed =
        Closes-closed tenant_id f.finding_id
          (transition_update s now tenant_id who (close resolution)) now "closed" refl refl rows
    transition_update-Closes (suppress seconds key) id f rows h found allowed =
        Closes-closed tenant_id f.finding_id
          (transition_update s now tenant_id who (suppress seconds key)) now "suppressed" refl refl
          rows

    moved-Neat :
        (x : Transition) (f : Finding) (o : Option (List Finding)) (p : Pipeline)
        → update_finding tenant_id f.finding_id
            (transition_update s now tenant_id who x)
            now
            p.world.findings
          ≡ o
        → Closes tenant_id f.finding_id (transition_update s now tenant_id who x) p.world.findings
        → Neat p.world.findings
        → Neat (moved s now tenant_id who x f o p).1.world.findings
    unfolding moved
    moved-Neat x f none p e c h = h
    moved-Neat x f (some rows) p e c h =
        let u = transition_update s now tenant_id who x in
        rw findings-record_audit (
          rw (update_finding-rows tenant_id f.finding_id u now p.world.findings rows e)
            (update_rows-Neat tenant_id f.finding_id u now p.world.findings c h))

    transition_of-Neat :
        (x : Transition) (o : Option Tenant) (f : Finding) (p : Pipeline)
        → Closes tenant_id f.finding_id (transition_update s now tenant_id who x) p.world.findings
        → Neat p.world.findings
        → Neat (transition_of s now tenant_id who o x f p).1.world.findings
    unfolding transition_of
    transition_of-Neat x none f p c h = h
    transition_of-Neat x (some t) f p c h = moved-Neat x f _ p refl c h

    review_found-Neat :
        (x : Transition) (id : String) (o : Option Finding) (p : Pipeline)
        → get_finding tenant_id id p.world.findings ≡ o
        → Neat p.world.findings
        → Neat (review_found s now tenant_id who x o p).1.world.findings
    unfolding review_found transition
    review_found-Neat x id none p found h = h
    review_found-Neat x id (some f) p found h =
        elim (Bool-cases (is_in f.status (allowed_from x))) [
          | inl e ↦ rw e (
              transition_of-Neat x (get_tenant tenant_id p.world.tenants) f
                (record p { suppressions = add_suppression x tenant_id now f p.suppressions })
                (transition_update-Closes x id f p.world.findings h found e) h)
          | inr e ↦ rw e h
        ]

    review-Neat :
        (x : Transition) (id : String) (p : Pipeline)
        → Neat p.world.findings
        → Neat (review s now tenant_id who x id p).1.world.findings
    unfolding review
    review-Neat x id p h = elim (Bool-cases (has_capability s.env.py who.role "write:findings")) [
      | inl e ↦ rw e (review_found-Neat x id _ p refl h)
      | inr e ↦ rw e h
    ]

  Orderly-Parts : Parts s Orderly
  Orderly-Parts = record {
    order = Orderly-Order;
    auditing = λ e p h. rw (findings-record_audit s e p) h;
    upserting = λ at i m t p. upsert_finding-Neat s at i m t p;
    acting = λ at i t f d w h.
        rw
          ((from_decision-Keeps (env_of s at i) (Untouched-Served (env_of s at i)) t f d
              policy_engine).at
            w)
          h;
    transiting = λ now tenant_id who x id p. review-Neat now tenant_id who x id p;
    serving = λ turn w h.
        rw (serve-Keeps (env_at s.env turn) (Untouched-Served (env_at s.env turn)) turn.request w)
          h;
  }

  -- If no identifier of a finding stands twice, and no rule has two findings that are open or
  -- acknowledged for one deduplication key of a tenant, then so it is after any sequence of
  -- ingested batches, replays, transitions of findings and requests to the action engine: however
  -- often a rule strikes, a tenant never has two open findings of one rule and key.
  pub perform_all-open_count :
      (tasks : List Task) (p : Pipeline) (tenant_id rule_id dedup_key : String)
      → Neat p.world.findings
      → open_count tenant_id rule_id dedup_key (perform_all s tasks p).world.findings ≤ 1
  perform_all-open_count tasks p tenant_id rule_id dedup_key h =
      (perform_all-R s Orderly-Parts tasks p h).1 tenant_id rule_id dedup_key
