-- ===== src/Pipeline/Outcome.antt =====
-- What the upsert of a finding returns, on each of its branches.
use thot_secure.Prelude.{
  ℕ, ◌+◌, ◌*◌, Bool, true, false, Option, none, some, ◌≡◌, ◌⊎◌, refl, ltb, Bool-cases, inl, inr,
}
use thot_secure.Model.{Tenant, Finding}
use thot_secure.Storage.Findings.{update_finding, update_rows, updated, find_open_finding}
use thot_secure.Storage.Open.{Neat, has_id}
use thot_secure.Storage.Closing.{has_id-update_rows}
use thot_secure.Storage.Latest.{find_open_finding-parts}
use thot_secure.Storage.Lookup.{get_finding-update_rows, update_finding-In, insert_finding-new}
use thot_secure.Detection.Engine.{MatchResult}
use thot_secure.Detection.Findings.{build_finding, assemble}
use thot_secure.Pipeline.{Pipeline, Moment, Setup, with_findings}
use thot_secure.Pipeline.Upsert.{
  closing, refreshing, new_finding, created, create_finding, refreshed_finding, refreshed,
  refresh_finding, replaced, replace_finding, upsert_found, upsert_finding,
}
use thot_secure.Pipeline.Found.{refreshed-id}

-- The finding goes on as another state of the one before.
pub record Continues (before after : Finding) : Type 0 where
  pub same_id : after.finding_id ≡ before.finding_id
  pub same_status : after.status ≡ before.status
  pub same_start : after.first_seen ≡ before.first_seen
  pub counted : after.count ≡ before.count + 1

module _ (s : Setup) (at : Moment) (i : ℕ) (m : MatchResult) (t : Tenant) where
  -- The window of deduplication has passed.
  abbrev pub has_lapsed : Finding → Bool
  has_lapsed f = ltb (f.last_seen + m.rule.dedup_ttl_seconds * 1000) at.now

  -- What is returned, by the open finding of the rule and the key.
  abbrev pub Outcome : Option Finding → Finding → Type 0
  Outcome none f = f ≡ new_finding s at i m t
  Outcome (some existing) f =
      ((has_lapsed existing ≡ true) × (f ≡ new_finding s at i m t))
      ⊎ ((has_lapsed existing ≡ false) × Continues existing f)

  new_finding-id : (new_finding s at i m t).finding_id ≡ at.finding_ids i
  unfolding build_finding assemble
  new_finding-id = refl

  create_finding-new :
      (p : Pipeline)
      → has_id (at.finding_ids i) p.world.findings ≡ false
      → (create_finding s at i m t p).0 ≡ some (new_finding s at i m t)
  unfolding create_finding created
  create_finding-new p h =
      rw (insert_finding-new (new_finding s at i m t) p.world.findings (rw new_finding-id h)) refl

  refreshed_finding-Continues :
      (existing : Finding)
      → Continues existing
          (updated (refreshing (refreshed_finding s at i m t existing)) at.now existing)
  unfolding updated refreshed_finding
  refreshed_finding-Continues existing = record {
    same_id = refl;
    same_status = refl;
    same_start = refl;
    counted = refl;
  }

  module _ (p : Pipeline) (h : Neat p.world.findings) where
    replaced-new :
        (existing : Finding)
        → find_open_finding t.tenant_id m.rule.id m.dedup_key p.world.findings ≡ some existing
        → has_id (at.finding_ids i) p.world.findings ≡ false
        → (replace_finding s at i m t existing p).0 ≡ some (new_finding s at i m t)
    unfolding replace_finding replaced
    replaced-new existing found fresh =
        let (j, o, own) =
          find_open_finding-parts t.tenant_id m.rule.id m.dedup_key existing p.world.findings
            found in
        let rows' = update_rows t.tenant_id existing.finding_id closing at.now p.world.findings in
        rw (update_finding-In t.tenant_id closing at.now existing p.world.findings j own) (
          create_finding-new (with_findings rows' p) (
            rw
              (has_id-update_rows t.tenant_id existing.finding_id closing at.now (at.finding_ids i)
                p.world.findings)
              fresh))

    refreshed_given :
        (existing f : Finding)
        → find_open_finding t.tenant_id m.rule.id m.dedup_key p.world.findings ≡ some existing
        → f.finding_id ≡ existing.finding_id
        → (refreshed s at i m t existing f
            (update_finding t.tenant_id f.finding_id (refreshing f) at.now p.world.findings)
            p).0
          ≡ some (updated (refreshing f) at.now existing)
    unfolding refreshed
    refreshed_given existing f found named =
        let (j, o, own) =
          find_open_finding-parts t.tenant_id m.rule.id m.dedup_key existing p.world.findings
            found in
        rw named (
          rw (update_finding-In t.tenant_id (refreshing f) at.now existing p.world.findings j own) (
            rw
              (get_finding-update_rows t.tenant_id (refreshing f) at.now existing p.world.findings
                h.0 j own)
              refl))

    upsert_found-Outcome :
        (o : Option Finding)
        → find_open_finding t.tenant_id m.rule.id m.dedup_key p.world.findings ≡ o
        → has_id (at.finding_ids i) p.world.findings ≡ false
        → (f : Finding) × ((upsert_found s at i m t o p).0 ≡ some f) × Outcome o f
    unfolding upsert_found refresh_finding
    upsert_found-Outcome none found fresh =
        (new_finding s at i m t, create_finding-new p fresh, refl)
    upsert_found-Outcome (some existing) found fresh =
        let f = refreshed_finding s at i m t existing in
        elim (Bool-cases (has_lapsed existing)) [
          | inl e ↦
              (new_finding s at i m t, rw e (replaced-new existing found fresh), inl (e, refl))
          | inr e ↦ (
            updated (refreshing f) at.now existing,
            rw e (refreshed_given existing f found (refreshed-id s at i m t existing)),
            inr (e, refreshed_finding-Continues existing),
          )
        ]

    -- In a table where no identifier stands twice and no rule has two open findings for one key,
    -- the upsert of a match with a new identifier always returns a finding: a new one if the rule
    -- has no open finding for the tenant and the key, or if its window of deduplication has passed
    -- when the match is treated; otherwise the open one, with its identifier, its status and its
    -- first time, and a count that is one higher.
    pub upsert_finding-Outcome :
        has_id (at.finding_ids i) p.world.findings ≡ false
        → (f : Finding) × ((upsert_finding s at i m t p).0 ≡ some f)
          × Outcome (find_open_finding t.tenant_id m.rule.id m.dedup_key p.world.findings) f
    unfolding upsert_finding
    upsert_finding-Outcome fresh = upsert_found-Outcome _ refl fresh
