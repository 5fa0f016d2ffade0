-- ===== src/Pipeline/Dedup.antt =====
-- The deduplication of findings: what the upsert does to the open findings of a key.
use thot_secure.Prelude.{
  ℕ, ◌+◌, ◌*◌, Option, none, some, List, ◌≡◌, refl, ltb, Bool-cases, inl, inr,
}
use thot_secure.Model.{Tenant, Finding}
use thot_secure.Storage.Findings.{
  Update, given, insert_finding, update_finding, update_rows, find_open_finding, is_open_status,
}
use thot_secure.Storage.Findings
use thot_secure.Storage.Open.{open_count, Neat, insert_finding-Neat}
use thot_secure.Storage.Closing.{update_rows-Neat, Closes-same, Closes-closed}
use thot_secure.Storage.Latest.{find_open_finding-none, open_count-close, update_finding-rows}
use thot_secure.Detection.Engine.{MatchResult}
use thot_secure.Detection.Findings.{build_finding, assemble}
use thot_secure.Audit.Defs.{Entry}
use thot_secure.Actions.World.{World}
use thot_secure.Actions.Keeps.{Order}
use thot_secure.Pipeline.{Pipeline, Moment, Setup, record_audit, with_findings}
use thot_secure.Pipeline.Upsert.{
  closing, refreshing, new_finding, created, create_finding, refreshed_finding, refreshed,
  refresh_finding, replaced, replace_finding, upsert_found, upsert_finding,
}

-- The findings stay in order.
abbrev pub Orderly : World → World → Type 0
Orderly w w' = Neat w.findings → Neat w'.findings

pub Orderly-Order : Order Orderly
Orderly-Order = record { stay = λ w h. h; go = λ u v w f g h. g (f h) }

module _ (s : Setup) where
  pub findings-record_audit :
      (e : Entry) (p : Pipeline) → (record_audit s e p).world.findings ≡ p.world.findings
  unfolding record_audit
  findings-record_audit e p = refl

  module _ (at : Moment) (i : ℕ) (m : MatchResult) (t : Tenant) where
    pub new_finding_key :
        ((new_finding s at i m t).tenant_id ≡ t.tenant_id)
        × ((new_finding s at i m t).rule_id ≡ m.rule.id)
        × ((new_finding s at i m t).dedup_key ≡ m.dedup_key)
    unfolding build_finding assemble
    new_finding_key = (refl, refl, refl)

    created-Neat :
        (o : Option (List Finding)) (p : Pipeline)
        → insert_finding (new_finding s at i m t) p.world.findings ≡ o
        → Neat p.world.findings
        → open_count t.tenant_id m.rule.id m.dedup_key p.world.findings ≡ 0
        → Neat (created s at i m t o p).1.world.findings
    unfolding created
    created-Neat none p e h free = h
    created-Neat (some rows) p e h free = rw findings-record_audit (
        let (a, b, c) = new_finding_key in
        insert_finding-Neat (new_finding s at i m t) p.world.findings rows h (rw (a, b, c) free) e)

    create_finding-Neat :
        (p : Pipeline)
        → Neat p.world.findings
        → open_count t.tenant_id m.rule.id m.dedup_key p.world.findings ≡ 0
        → Neat (create_finding s at i m t p).1.world.findings
    unfolding create_finding
    create_finding-Neat p h free = created-Neat _ p refl h free

    refreshed-Neat :
        (existing f : Finding) (o : Option (List Finding)) (p : Pipeline)
        → update_finding t.tenant_id f.finding_id (refreshing f) at.now p.world.findings ≡ o
        → Neat p.world.findings
        → Neat (refreshed s at i m t existing f o p).1.world.findings
    unfolding refreshed
    refreshed-Neat existing f none p e h = h
    refreshed-Neat existing f (some rows) p e h =
        let same =
          update_finding-rows t.tenant_id f.finding_id (refreshing f) at.now p.world.findings rows
            e in
        let stored = given (Findings.get_finding t.tenant_id f.finding_id rows) f in
        let neat : Neat rows = rw same (
          update_rows-Neat t.tenant_id f.finding_id (refreshing f) at.now p.world.findings
            (Closes-same t.tenant_id f.finding_id (refreshing f) at.now refl p.world.findings) h) in
        elim (Bool-cases (ltb existing.risk_score stored.risk_score)) [
          | inl g ↦ rw g (rw findings-record_audit neat)
          | inr g ↦ rw g neat
        ]

    replaced-Neat :
        (existing : Finding) (o : Option (List Finding)) (p : Pipeline)
        → update_finding t.tenant_id existing.finding_id closing at.now p.world.findings ≡ o
        → find_open_finding t.tenant_id m.rule.id m.dedup_key p.world.findings ≡ some existing
        → Neat p.world.findings
        → Neat (replaced s at i m t o p).1.world.findings
    unfolding replaced
    replaced-Neat existing none p e found h = h
    replaced-Neat existing (some rows) p e found h =
        let same =
          update_finding-rows t.tenant_id existing.finding_id closing at.now p.world.findings rows
            e in
        create_finding-Neat (with_findings rows p)
          (rw same (
            update_rows-Neat t.tenant_id existing.finding_id closing at.now p.world.findings
              (Closes-closed t.tenant_id existing.finding_id closing at.now "closed" refl refl
                p.world.findings)
              h))
          (rw same (
            open_count-close t.tenant_id m.rule.id m.dedup_key "closed" closing at.now existing
              p.world.findings h found refl refl))

    upsert_found-Neat :
        (o : Option Finding) (p : Pipeline)
        → find_open_finding t.tenant_id m.rule.id m.dedup_key p.world.findings ≡ o
        → Neat p.world.findings
        → Neat (upsert_found s at i m t o p).1.world.findings
    unfolding upsert_found replace_finding refresh_finding
    upsert_found-Neat none p found h =
        create_finding-Neat p h
          (find_open_finding-none t.tenant_id m.rule.id m.dedup_key p.world.findings found)
    upsert_found-Neat (some existing) p found h =
        elim (Bool-cases (ltb (existing.last_seen + m.rule.dedup_ttl_seconds * 1000) at.now)) [
          | inl e ↦ rw e (replaced-Neat existing _ p refl found h)
          | inr e ↦
              rw e (refreshed-Neat existing (refreshed_finding s at i m t existing) _ p refl h)
        ]

    pub upsert_finding-Neat :
        (p : Pipeline) → Neat p.world.findings → Neat (upsert_finding s at i m t p).1.world.findings
    unfolding upsert_finding
    upsert_finding-Neat p h = upsert_found-Neat _ p refl h
