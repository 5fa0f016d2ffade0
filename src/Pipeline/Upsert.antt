-- ===== src/Pipeline/Upsert.antt =====
-- `Pipeline._upsert_finding`: a finding is created, refreshed, or closed and created anew. `none`
-- stands for an exception of the store.
use thot_secure.Prelude.{
  ℕ, ◌+◌, ◌*◌, suc, String, Option, none, some, List, [], ◌∷◌, ltb, if◌then◌else◌,
}
use thot_secure.Value.{Dict, str, int, float}
use thot_secure.Model.{Finding, Tenant}
use thot_secure.Storage.Findings.{
  Update, no_update, given, insert_finding, update_finding, find_open_finding,
}
use thot_secure.Storage.Findings
use thot_secure.Detection.Engine.{MatchResult}
use thot_secure.Detection.Findings.{build_finding}
use thot_secure.Audit.Defs.{Entry}
use thot_secure.Pipeline.{Pipeline, Moment, Setup, with_findings, record_audit}

-- An audit record that the pipeline writes.
abbrev pub entry : ℕ → String → String → String → String → String → Dict → Dict → Dict → Entry
entry now tenant_id actor action kind id before after context = record {
  ts = now;
  tenant_id = tenant_id;
  actor = actor;
  actor_role = "system";
  action = action;
  target = ("type", str kind) ∷ ("id", str id) ∷ [];
  before = before;
  after = after;
  context = context;
}

abbrev pub closing : Update
closing = record no_update {
  status = some "closed";
  resolution = some "auto_closed_expired_dedup_window";
}

-- What a refreshed finding writes: everything but its status and its first times.
abbrev pub refreshing : Finding → Update
refreshing f = record {
  severity = some f.severity;
  risk_score = some f.risk_score;
  confidence = some f.confidence;
  status = none;
  title = some f.title;
  remediation = some f.remediation;
  tags = some f.tags;
  mitre = some f.mitre;
  evidence = some f.evidence;
  last_seen = some f.last_seen;
  count = some f.count;
  event_ids = some f.event_ids;
  resolution = none;
}

module _ (s : Setup) (at : Moment) (i : ℕ) (m : MatchResult) (t : Tenant) where
  abbrev pub created_entry : Finding → Entry
  created_entry f =
      entry at.now t.tenant_id "system:pipeline" "finding.create" "finding" f.finding_id []
        (("rule_id", str f.rule_id)
          ∷ ("severity", str f.severity)
          ∷ ("risk_score", float f.risk_score)
          ∷ ("title", str f.title)
          ∷ [])
        (("event_id", str m.event.event_id) ∷ ("dedup_key", str m.dedup_key) ∷ [])

  abbrev pub score_and_count : Finding → Dict
  score_and_count f = ("risk_score", float f.risk_score) ∷ ("count", int f.count) ∷ []

  abbrev pub updated_entry : Finding → Finding → Entry
  updated_entry existing f =
      entry at.now t.tenant_id "system:pipeline" "finding.update" "finding" f.finding_id
        (score_and_count existing) (score_and_count f)
        (("rule_id", str m.rule.id) ∷ ("reason", str "aggravation du score de risque") ∷ [])

  abbrev pub new_finding : Finding
  new_finding = build_finding s.env.py s.math at.now m t none 0 (at.finding_ids i)

  -- With the rows after the insertion, if it succeeded.
  unfoldable pub created : Option (List Finding) → Pipeline → Option Finding × Pipeline
  created none p = (none, p)
  created (some rows) p = (
    some new_finding,
    record_audit s (created_entry new_finding)
        (with_findings rows (record p { created_findings = suc p.created_findings })),
  )

  unfoldable pub create_finding : Pipeline → Option Finding × Pipeline
  create_finding p = created (insert_finding new_finding p.world.findings) p

  -- The finding that is written over an existing one.
  unfoldable pub refreshed_finding : Finding → Finding
  refreshed_finding existing =
      record (build_finding s.env.py s.math at.now m t (some existing) existing.count
        (at.finding_ids i)) { count = existing.count + 1 }

  -- With the rows after the update, if there was a row.
  unfoldable pub refreshed :
      Finding → Finding → Option (List Finding) → Pipeline → Option Finding × Pipeline
  refreshed existing f none p = (none, p)
  refreshed existing f (some rows) p =
      let p' = with_findings rows (record p { updated_findings = suc p.updated_findings }) in
      let stored = given (Findings.get_finding t.tenant_id f.finding_id rows) f in
      (
        some stored,
        if ltb existing.risk_score stored.risk_score
            then record_audit s (updated_entry existing stored) p'
            else p',
      )

  unfoldable pub refresh_finding : Finding → Pipeline → Option Finding × Pipeline
  refresh_finding existing p =
      let f = refreshed_finding existing in
      refreshed existing f
        (update_finding t.tenant_id f.finding_id (refreshing f) at.now p.world.findings) p

  unfoldable pub replaced : Option (List Finding) → Pipeline → Option Finding × Pipeline
  replaced none p = (none, p)
  replaced (some rows) p = create_finding (with_findings rows p)

  -- The old finding is closed and a new one created.
  unfoldable pub replace_finding : Finding → Pipeline → Option Finding × Pipeline
  replace_finding existing p =
      replaced (update_finding t.tenant_id existing.finding_id closing at.now p.world.findings) p

  unfoldable pub upsert_found : Option Finding → Pipeline → Option Finding × Pipeline
  upsert_found none p = create_finding p
  upsert_found (some existing) p =
      if ltb (existing.last_seen + m.rule.dedup_ttl_seconds * 1000) at.now
      then replace_finding existing p
      else refresh_finding existing p

  unfoldable pub upsert_finding : Pipeline → Option Finding × Pipeline
  upsert_finding p =
      upsert_found (find_open_finding t.tenant_id m.rule.id m.dedup_key p.world.findings) p
