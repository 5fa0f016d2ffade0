-- ===== src/Detection/Findings.antt =====
-- `build_finding` of detection/engine.py. Of the breakdown of the score only the final score is
-- kept; the name of the rule and its description are left out. `utcnow()` is read once.
use Prim.Native.Char.{code}
use text.Mathlib.Text.{starts_with}
use thot_secure.Prelude.{
  ℕ, zero, suc, ◌+◌, ◌-◌, String, Option, none, some, List, [], ◌∷◌, ◌++◌, ◌==◌, ltb, any, str_eq,
  max, length, if◌then◌else◌,
}
use thot_secure.Value.{Value, Items, Dict, int, float, str, arr, obj, nil, item, of_dict}
use thot_secure.Platform.{Platform}
use thot_secure.Model.{Finding, Tenant}
use thot_secure.Scoring.{Arithmetic, ScoredRule, compute_risk}
use thot_secure.Decision.Conditions.{strings}
use thot_secure.Detection.Rules.{Rule, Threshold}
use thot_secure.Detection.Engine.{MatchResult}
use thot_secure.Detection.Evidence.{text_or_null, extract_evidence, render_title}
use thot_secure.Actions.Evidence.{samples}

abbrev pub max_evidence_events : ℕ
max_evidence_events = 25

module _ {ℓ} {A : Type ℓ} where
  unfoldable pub drop : ℕ → List A → List A
  drop zero xs = xs
  drop (suc n) [] = []
  drop (suc n) (x ∷ xs) = drop n xs

  -- xs[-n:], for n ≥ 1
  unfoldable pub last_items : ℕ → List A → List A
  last_items n xs = drop (length xs - n) xs

abbrev pub items : List Value → Items
items [] = nil
items (v ∷ vs) = item v (items vs)

-- `_append_unique`
unfoldable pub append_unique : List String → String → ℕ → List String
append_unique values value limit =
    if any (λ v. str_eq v value) values
    then values
    else if ltb limit (length (values ++ value ∷ []))
    then drop (length (values ++ value ∷ []) - limit) (values ++ value ∷ [])
    else values ++ value ∷ []

-- s.split(":", 1)[1], for a text with a colon
unfoldable pub after_colon : String → String
after_colon String.[] = ""
after_colon (String.◌∷◌ c s) = if code c == b':' then s else after_colon s

-- [tag.split(":", 1)[1] for tag in tags if tag.startswith("mitre:")]
unfoldable pub mitre_of : List String → List String
mitre_of [] = []
mitre_of (t ∷ ts) = if starts_with t "mitre:" then after_colon t ∷ mitre_of ts else mitre_of ts

abbrev pub scored : Rule → ScoredRule
scored r = record {
  severity = r.severity;
  confidence = r.confidence;
  risk_base = r.risk_base;
  asset_criticality = r.asset_criticality;
}

abbrev pub threshold_entry : Option Threshold → ℕ → Value
threshold_entry none observed =
    obj (of_dict (("count", int 1) ∷ ("window_seconds", int 0) ∷ ("observed", int observed) ∷ []))
threshold_entry (some t) observed = obj (
    of_dict (
      ("count", int t.count)
      ∷ ("window_seconds", int t.window_seconds)
      ∷ ("observed", int observed)
      ∷ []))

abbrev pub evidence_of : MatchResult → ℕ → List Value → Dict
evidence_of m score kept =
    ("samples", arr (items kept))
    ∷ ("risk", obj (of_dict (("final", float score) ∷ [])))
    ∷ ("group_key", str m.group_key)
    ∷ ("threshold", threshold_entry m.rule.match_spec.threshold m.threshold_count)
    ∷ (
      "rule",
      obj (
          of_dict (
            ("id", str m.rule.id)
            ∷ ("title", str m.rule.title)
            ∷ ("path", text_or_null m.rule.path)
            ∷ [])),
    )
    ∷ ("false_positives", arr (strings m.rule.false_positives))
    ∷ []

module _ (py : Platform) (math : Arithmetic) (now : ℕ) where
  -- The finding of a match with these samples and identifiers; `existing_count` is 0 without a
  -- history.
  unfoldable pub assemble :
      MatchResult → Tenant → ℕ → List Value → List String → ℕ → ℕ → String → String → Finding
  assemble m t existing_count kept event_ids first_seen created_at status finding_id =
      let effective_count = max 1 (max (existing_count + 1) m.threshold_count) in
      let score =
        compute_risk math (scored m.rule) (some t.asset_criticality) effective_count none in
      record {
        finding_id = finding_id;
        tenant_id = t.tenant_id;
        rule_id = m.rule.id;
        severity = m.rule.severity;
        risk_score = score;
        confidence = m.rule.confidence;
        status = status;
        title = render_title py m.rule m.event;
        remediation = m.rule.remediation;
        tags = m.rule.tags;
        mitre = mitre_of m.rule.tags;
        count = effective_count;
        evidence = evidence_of m score kept;
        first_seen = first_seen;
        last_seen = max m.event.ts first_seen;
        event_ids = event_ids;
        created_at = created_at;
        updated_at = now;
        dedup_key = m.dedup_key;
        resolution = none;
      }

  -- `fresh` is the identifier that `new_id` gives.
  unfoldable pub build_finding : MatchResult → Tenant → Option Finding → ℕ → String → Finding
  build_finding m t none existing_count fresh =
      assemble m t existing_count
        (last_items max_evidence_events (extract_evidence py m.rule m.event ∷ []))
        (m.event.event_id ∷ []) m.event.ts now "open" fresh
  build_finding m t (some history) existing_count fresh =
      assemble m t existing_count
        (last_items max_evidence_events
          (samples history ++ extract_evidence py m.rule m.event ∷ []))
        (append_unique history.event_ids m.event.event_id 200) history.first_seen history.created_at
        history.status history.finding_id
