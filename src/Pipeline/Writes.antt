-- ===== src/Pipeline/Writes.antt =====
-- What the upsert of a finding and the transitions keep of the world, if it does not depend on the
-- findings.
use thot_secure.Prelude.{
  ℕ, suc, ◌+◌, ◌*◌, String, Option, none, some, List, ltb, Bool-cases, inl, inr,
}
use thot_secure.Value.{is_in}
use thot_secure.Model.{Tenant, Finding}
use thot_secure.Storage.Findings.{given, insert_finding, update_finding, find_open_finding}
use thot_secure.Storage.Findings
use thot_secure.Detection.Engine.{MatchResult}
use thot_secure.Tenancy.{has_capability}
use thot_secure.Audit.Defs.{Entry}
use thot_secure.Actions.World.{Author}
use thot_secure.Actions.Keeps.{Order}
use thot_secure.Pipeline.{
  Pipeline, Moment, Setup, View, view, get_tenant, record_audit, with_findings,
}
use thot_secure.Pipeline.Upsert.{
  closing, refreshing, created_entry, updated_entry, new_finding, created, create_finding,
  refreshed_finding, refreshed, refresh_finding, replaced, replace_finding, upsert_found,
  upsert_finding,
}
use thot_secure.Pipeline.Review.{
  Transition, allowed_from, transition_entry, transition_update, add_suppression, moved,
  transition_of, transition, review_found, review,
}

-- The relation holds between views that differ in their findings, or by a new audit record.
pub record Writes (s : Setup) (R : View → View → Type 0) : Type 0 where
  pub order : Order R
  pub storing : (rows : List Finding) (v : View) → R v (record v.0 { findings = rows }, v.1)
  pub auditing : (e : Entry) (p : Pipeline) → R (view p) (view (record_audit s e p))

module _ (s : Setup) {R : View → View → Type 0} (k : Writes s R) where
  open k use {order}

  stored_and_audited :
      (rows : List Finding) (e : Entry) (p : Pipeline)
      → R (view p) (view (record_audit s e (with_findings rows p)))
  stored_and_audited rows e p =
      order.go (view p) (view (with_findings rows p)) _ (k.storing rows (view p))
        (k.auditing e (with_findings rows p))

  module _ (at : Moment) (i : ℕ) (m : MatchResult) (t : Tenant) where
    created-R :
        (o : Option (List Finding)) (p : Pipeline) → R (view p) (view (created s at i m t o p).1)
    unfolding created
    created-R none p = order.stay (view p)
    created-R (some rows) p =
        stored_and_audited rows (created_entry s at i m t (new_finding s at i m t))
          (record p { created_findings = suc p.created_findings })

    create_finding-R : (p : Pipeline) → R (view p) (view (create_finding s at i m t p).1)
    unfolding create_finding
    create_finding-R p = created-R (insert_finding (new_finding s at i m t) p.world.findings) p

    refreshed-R :
        (existing f : Finding) (o : Option (List Finding)) (p : Pipeline)
        → R (view p) (view (refreshed s at i m t existing f o p).1)
    unfolding refreshed
    refreshed-R existing f none p = order.stay (view p)
    refreshed-R existing f (some rows) p =
        let p' = record p { updated_findings = suc p.updated_findings } in
        let stored = given (Findings.get_finding t.tenant_id f.finding_id rows) f in
        elim (Bool-cases (ltb existing.risk_score stored.risk_score)) [
          | inl e ↦ rw e (stored_and_audited rows (updated_entry s at i m t existing stored) p')
          | inr e ↦ rw e (k.storing rows (view p))
        ]

    replaced-R :
        (o : Option (List Finding)) (p : Pipeline) → R (view p) (view (replaced s at i m t o p).1)
    unfolding replaced
    replaced-R none p = order.stay (view p)
    replaced-R (some rows) p =
        order.go (view p) (view (with_findings rows p)) _ (k.storing rows (view p))
          (create_finding-R (with_findings rows p))

    upsert_found-R :
        (o : Option Finding) (p : Pipeline) → R (view p) (view (upsert_found s at i m t o p).1)
    unfolding upsert_found replace_finding refresh_finding
    upsert_found-R none p = create_finding-R p
    upsert_found-R (some existing) p =
        let f = refreshed_finding s at i m t existing in
        elim (Bool-cases (ltb (existing.last_seen + m.rule.dedup_ttl_seconds * 1000) at.now)) [
          | inl e ↦ rw e (
              replaced-R
                (update_finding t.tenant_id existing.finding_id closing at.now p.world.findings) p)
          | inr e ↦ rw e (
              refreshed-R existing f
                (update_finding t.tenant_id f.finding_id (refreshing f) at.now p.world.findings) p)
        ]

    pub upsert_finding-R : (p : Pipeline) → R (view p) (view (upsert_finding s at i m t p).1)
    unfolding upsert_finding
    upsert_finding-R p =
        upsert_found-R (find_open_finding t.tenant_id m.rule.id m.dedup_key p.world.findings) p

  module _ (now : ℕ) (tenant_id : String) (who : Author) (x : Transition) where
    moved-R :
        (f : Finding) (o : Option (List Finding)) (p : Pipeline)
        → R (view p) (view (moved s now tenant_id who x f o p).1)
    unfolding moved
    moved-R f none p = order.stay (view p)
    moved-R f (some rows) p =
        let after = given (Findings.get_finding tenant_id f.finding_id rows) f in
        stored_and_audited rows (transition_entry s now tenant_id who x f after) p

    transition_of-R :
        (o : Option Tenant) (f : Finding) (p : Pipeline)
        → R (view p) (view (transition_of s now tenant_id who o x f p).1)
    unfolding transition_of
    transition_of-R none f p = order.stay (view p)
    transition_of-R (some t) f p =
        moved-R f
          (update_finding tenant_id f.finding_id (transition_update s now tenant_id who x) now
            p.world.findings)
          p

    review_found-R :
        (o : Option Finding) (p : Pipeline)
        → R (view p) (view (review_found s now tenant_id who x o p).1)
    unfolding review_found transition
    review_found-R none p = order.stay (view p)
    review_found-R (some f) p = elim (Bool-cases (is_in f.status (allowed_from x))) [
      | inl e ↦ rw e (
          transition_of-R (get_tenant tenant_id p.world.tenants) f
            (record p { suppressions = add_suppression x tenant_id now f p.suppressions }))
      | inr e ↦ rw e (order.stay (view p))
    ]

    pub review-R :
        (id : String) (p : Pipeline) → R (view p) (view (review s now tenant_id who x id p).1)
    unfolding review
    review-R id p = elim (Bool-cases (has_capability s.env.py who.role "write:findings")) [
      | inl e ↦ rw e (review_found-R (Findings.get_finding tenant_id id p.world.findings) p)
      | inr e ↦ rw e (order.stay (view p))
    ]
