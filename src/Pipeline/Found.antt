-- ===== src/Pipeline/Found.antt =====
-- Which finding the next match of a rule and a key finds after an upsert.
use thot_secure.Prelude.{
  ℕ, ◌+◌, ◌*◌, true, Option, none, some, List, ◌≡◌, refl, ◌∙◌, ltb, eq_refl, Bool-cases, inl, inr,
}
use thot_secure.Model.{Tenant, Finding}
use thot_secure.Storage.Findings.{
  given, insert_finding, update_finding, update_rows, updated, find_open_finding, is_open_for,
}
use thot_secure.Storage.Findings
use thot_secure.Storage.Open.{open_count, Neat, insert_finding-stored}
use thot_secure.Storage.Latest.{
  find_open_finding-parts, find_open_finding-none, open_count-close, update_finding-rows,
}
use thot_secure.Storage.Lookup.{
  find_open_finding-append, find_open_finding-update_rows, get_finding-update_rows,
}
use thot_secure.Detection.Engine.{MatchResult}
use thot_secure.Detection.Findings.{build_finding, assemble}
use thot_secure.Pipeline.{Pipeline, Moment, Setup, with_findings}
use thot_secure.Pipeline.Upsert.{
  closing, refreshing, new_finding, created, create_finding, refreshed_finding, refreshed,
  refresh_finding, replaced, replace_finding, upsert_found, upsert_finding,
}
use thot_secure.Pipeline.Dedup.{findings-record_audit}

module _ (s : Setup) (at : Moment) (i : ℕ) (m : MatchResult) (t : Tenant) where
  -- The finding that was returned is found.
  abbrev Found : Option Finding × Pipeline → Type 0
  Found (none, p) = Unit {0}
  Found (some f, p) = find_open_finding t.tenant_id m.rule.id m.dedup_key p.world.findings ≡ some f

  abbrev Opens : Finding → Type 0
  Opens f = is_open_for t.tenant_id m.rule.id m.dedup_key f ≡ true

  new_finding-Opens : Opens (new_finding s at i m t)
  unfolding build_finding assemble is_open_for
  new_finding-Opens =
      rw (eq_refl t.tenant_id) (rw (eq_refl m.rule.id) (rw (eq_refl m.dedup_key) refl))

  created-Found :
      (o : Option (List Finding)) (p : Pipeline)
      → insert_finding (new_finding s at i m t) p.world.findings ≡ o
      → open_count t.tenant_id m.rule.id m.dedup_key p.world.findings ≡ 0
      → Found (created s at i m t o p)
  unfolding created
  created-Found none p e free = tt
  created-Found (some rows) p e free =
      let f = new_finding s at i m t in
      rw findings-record_audit (
        rw ((insert_finding-stored f p.world.findings rows e).1) (
          find_open_finding-append t.tenant_id m.rule.id m.dedup_key p.world.findings f free
            new_finding-Opens))

  create_finding-Found :
      (p : Pipeline)
      → open_count t.tenant_id m.rule.id m.dedup_key p.world.findings ≡ 0
      → Found (create_finding s at i m t p)
  unfolding create_finding
  create_finding-Found p free = created-Found _ p refl free

  replaced-Found :
      (existing : Finding) (o : Option (List Finding)) (p : Pipeline)
      → update_finding t.tenant_id existing.finding_id closing at.now p.world.findings ≡ o
      → find_open_finding t.tenant_id m.rule.id m.dedup_key p.world.findings ≡ some existing
      → Neat p.world.findings
      → Found (replaced s at i m t o p)
  unfolding replaced
  replaced-Found existing none p e found h = tt
  replaced-Found existing (some rows) p e found h = create_finding-Found (with_findings rows p) (
      rw
        (update_finding-rows t.tenant_id existing.finding_id closing at.now p.world.findings rows e)
        (open_count-close t.tenant_id m.rule.id m.dedup_key "closed" closing at.now existing
          p.world.findings h found refl refl))

  pub refreshed-id :
      (existing : Finding)
      → (refreshed_finding s at i m t existing).finding_id ≡ existing.finding_id
  unfolding refreshed_finding build_finding assemble
  refreshed-id existing = refl

  -- What an update of the existing finding leaves behind.
  refreshed_rows :
      (existing f : Finding) (rows : List Finding)
      → f.finding_id ≡ existing.finding_id
      → find_open_finding t.tenant_id m.rule.id m.dedup_key rows ≡ some existing
      → Neat rows
      → let rows' = update_rows t.tenant_id f.finding_id (refreshing f) at.now rows in
        find_open_finding t.tenant_id m.rule.id m.dedup_key rows'
        ≡ some (given (Findings.get_finding t.tenant_id f.finding_id rows') f)
  refreshed_rows existing f rows named found h =
      let (i, o, own) =
        find_open_finding-parts t.tenant_id m.rule.id m.dedup_key existing rows found in
      rw named (
        rw
          (find_open_finding-update_rows t.tenant_id m.rule.id m.dedup_key existing.finding_id
            (refreshing f) at.now refl rows existing h found refl)
          (rw (get_finding-update_rows t.tenant_id (refreshing f) at.now existing rows h.0 i own)
            refl))

  refreshed-Found :
      (existing f : Finding) (o : Option (List Finding)) (p : Pipeline)
      → update_finding t.tenant_id f.finding_id (refreshing f) at.now p.world.findings ≡ o
      → f.finding_id ≡ existing.finding_id
      → find_open_finding t.tenant_id m.rule.id m.dedup_key p.world.findings ≡ some existing
      → Neat p.world.findings
      → Found (refreshed s at i m t existing f o p)
  unfolding refreshed
  refreshed-Found existing f none p e named found h = tt
  refreshed-Found existing f (some rows) p e named found h =
      let same =
        update_finding-rows t.tenant_id f.finding_id (refreshing f) at.now p.world.findings rows
          e in
      let stored = given (Findings.get_finding t.tenant_id f.finding_id rows) f in
      let kept : find_open_finding t.tenant_id m.rule.id m.dedup_key rows ≡ some stored =
        rw same (refreshed_rows existing f p.world.findings named found h) in
      elim (Bool-cases (ltb existing.risk_score stored.risk_score)) [
        | inl g ↦ rw g (rw findings-record_audit kept)
        | inr g ↦ rw g kept
      ]

  upsert_found-Found :
      (o : Option Finding) (p : Pipeline)
      → find_open_finding t.tenant_id m.rule.id m.dedup_key p.world.findings ≡ o
      → Neat p.world.findings
      → Found (upsert_found s at i m t o p)
  unfolding upsert_found replace_finding refresh_finding
  upsert_found-Found none p found h =
      create_finding-Found p
        (find_open_finding-none t.tenant_id m.rule.id m.dedup_key p.world.findings found)
  upsert_found-Found (some existing) p found h =
      elim (Bool-cases (ltb (existing.last_seen + m.rule.dedup_ttl_seconds * 1000) at.now)) [
        | inl e ↦ rw e (replaced-Found existing _ p refl found h)
        | inr e ↦ rw e (
            refreshed-Found existing (refreshed_finding s at i m t existing) _ p refl
              (refreshed-id existing) found h)
      ]

  returned_one :
      (u : Option Finding × Pipeline) (f : Finding)
      → Found u
      → u.0 ≡ some f
      → find_open_finding t.tenant_id m.rule.id m.dedup_key u.1.world.findings ≡ some f
  returned_one (none, p) f h e = cc
  returned_one (some g, p) f h e = h ∙ e

  -- If no identifier of a finding stands twice and no rule has two open findings for one key, then
  -- a finding that the upsert of a match returns, be it new, refreshed, or created in the place of
  -- one that was closed because its window of deduplication had passed, is stored as returned, and
  -- it is the open finding that the next match of the same rule, tenant and key will find.
  pub upsert_finding-find_open :
      (p : Pipeline) (f : Finding)
      → Neat p.world.findings
      → (upsert_finding s at i m t p).0 ≡ some f
      → find_open_finding t.tenant_id m.rule.id m.dedup_key
          (upsert_finding s at i m t p).1.world.findings
        ≡ some f
  unfolding upsert_finding
  upsert_finding-find_open p f h e = returned_one _ f (upsert_found-Found _ p refl h) e
