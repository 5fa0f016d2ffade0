-- ===== src/Tests/PipelineCases.antt =====
-- One rule, one policy that blocks, and an analyst who suppresses what was found.
use thot_secure.Prelude.{
  ℕ, ◌≤◌, ◌/◌, true, false, none, some, String, List, [], ◌∷◌, ◌≡◌, refl, inl, inr, Bool-cases,
  arith, str_append,
}
use thot_secure.Value.{str, obj, of_dict}
use thot_secure.Model.{Finding, auto, require_approval, planned}
use thot_secure.Audit.Defs.{verify}
use thot_secure.Audit.Chain.{Numbered}
use thot_secure.Storage.Open.{open_count, Neat}
use thot_secure.Storage.Findings.{find_open_finding, insert_finding, latest_seen, is_open_for}
use thot_secure.Detection.Findings.{build_finding, assemble}
use thot_secure.Detection.Matchers.{Condition}
use thot_secure.Detection.Rules.{Rule}
use thot_secure.Detection.Loading.{CompiledRule}
use thot_secure.Detection.Engine.{Event, MatchResult}
use thot_secure.Decision.Engine.{Policy}
use thot_secure.Actions.Quiet.{DryWorld}
use thot_secure.Actions.Session
use thot_secure.Pipeline.{Pipeline, Moment, Setup}
use thot_secure.Pipeline.Review.{suppress}
use thot_secure.Pipeline.Session.{Task, ingesting, replaying, reviewing, requesting, perform_all}
use thot_secure.Pipeline.Journal.{perform_all-verify}
use thot_secure.Pipeline.OneOpen.{perform_all-open_count}
use thot_secure.Pipeline.Unattended.{perform_all-unattended}
use thot_secure.Pipeline.Found.{upsert_finding-find_open}
use thot_secure.Pipeline.Outcome.{Outcome, upsert_finding-Outcome}
use thot_secure.Pipeline.Upsert.{upsert_finding, upsert_found, create_finding, created, new_finding}
use thot_secure.Pipeline.DryRun.{perform_all-DryWorld}
use thot_secure.Tests.Toy.{toy}
use thot_secure.Tests.Stage.{env, acme, alice, world}

abbrev failed_login : Condition
failed_login = record {
  field_path = "labels.outcome";
  op = "eq";
  value = str "failure";
  case_sensitive = true;
  negate = false;
}

abbrev rule : Rule
rule = record {
  id = "AUTH-1";
  title = "Failed login";
  severity = "high";
  enabled = true;
  tags = "mitre:T1110" ∷ [];
  source_types = [];
  kinds = [];
  match_spec = record { all_of = failed_login ∷ []; any_of = []; none_of = []; threshold = none };
  dedup_key = [];
  dedup_ttl_seconds = 900;
  confidence = 80;
  risk_base = none;
  asset_criticality = 100;
  remediation = "block";
  false_positives = [];
  path = none;
}

abbrev entry : CompiledRule
entry = record {
  rule = rule;
  source_types = [];
  kinds = [];
  dedup_fields = [];
  group_fields = [];
  threshold_count = 1;
  window_seconds = 60;
}

abbrev login : String → ℕ → Event
login id ts = record {
  event_id = id;
  tenant_id = "acme";
  ts = ts;
  kind = "auth";
  source_type = "syslog";
  source_name = none;
  source_host = none;
  labels = ("outcome", str "failure") ∷ ("src_ip", str "10.0.0.9") ∷ [];
  payload = [];
  dump =
      ("labels", obj (of_dict (("outcome", str "failure") ∷ ("src_ip", str "10.0.0.9") ∷ []))) ∷ [];
}

abbrev block : Policy
block = record {
  id = "P-1";
  priority = 1;
  enabled = true;
  when = [];
  result = record {
    decision = auto;
    playbook = some "block-source-ip";
    params = [];
    dry_run = none;
    cooldown_seconds = none;
    max_actions_per_hour = none;
  };
  auto_after_seconds = none;
}

abbrev setup : Setup
setup = record { env = env; math = record { log10 = λ n. 0; round_score = λ x. x / 8000000000000 } }

abbrev start : Pipeline
start = record {
  engine = record {
    compiled = entry ∷ [];
    by_id = [];
    windows = [];
    evaluated = 0;
    matched = 0;
    threshold_suppressed = 0;
  };
  decisions = record {
    rows = [];
    policies = block ∷ [];
    settings = none;
    registry = record { scopes = [] };
    evaluations = 0;
  };
  world = record (world planned) { rows = [] };
  events = [];
  suppressions = [];
  processed_events = 0;
  created_findings = 0;
  updated_findings = 0;
  triggered_actions = 0;
  errors = 0;
}

abbrev moment : String → ℕ → ℕ → Moment
moment name now i = record {
  now = now;
  finding_ids = λ n. str_append "fi_" name;
  action_ids = λ n k. str_append "act_" name;
}

abbrev tasks : List Task
tasks =
    ingesting 1000 (moment "a" 1000) alice true (login "ev_1" 1000 ∷ [])
    ∷ ingesting 2000 (moment "b" 2000) alice true (login "ev_2" 2000 ∷ [])
    ∷ reviewing 3000 "acme" alice (suppress 3600 "") "fi_a"
    ∷ ingesting 4000 (moment "c" 4000) alice true (login "ev_3" 4000 ∷ [])
    ∷ replaying (moment "d" 5000)
    ∷ requesting (record {
      now = 6000;
      fresh = λ n. "new";
      request = Session.Request.execute acme "act_a" alice;
    })
    ∷ []

abbrev final : Pipeline
final = perform_all setup tasks start

perform_all-DryWorld_example : DryWorld final.world
perform_all-DryWorld_example = perform_all-DryWorld setup tasks start refl (tt, tt)

pipeline_verify_example :
    ((verify toy (some "acme") final.world.log).valid ≡ true)
    × Numbered toy 1 final.world.log.rows final.world.log.next_seq
pipeline_verify_example = perform_all-verify setup tasks (some "acme") start refl

perform_all-open_count_example : open_count "acme" "AUTH-1" "tenant" final.world.findings ≤ 1
perform_all-open_count_example =
    perform_all-open_count setup tasks start "acme" "AUTH-1" "tenant" (tt, λ t r k. omega arith)

-- The policy asks for an approval, which alice gives.
abbrev supervised_start : Pipeline
supervised_start = record start {
  decisions = record start.decisions {
    policies = record block { result = record block.result { decision = require_approval } } ∷ [];
  };
}

abbrev unattended_tasks : List Task
unattended_tasks =
    ingesting 1000 (moment "a" 1000) alice true (login "ev_1" 1000 ∷ [])
    ∷ requesting (record {
      now = 2000;
      fresh = λ n. "new";
      request = Session.Request.approve acme "act_a" alice;
    })
    ∷ replaying (moment "d" 5000)
    ∷ []

perform_all-unattended_example :
    (perform_all setup unattended_tasks supervised_start).world.calls ≡ []
perform_all-unattended_example =
    perform_all-unattended setup unattended_tasks supervised_start (inr (refl, tt)) (tt, tt)

abbrev hit : MatchResult
hit = record {
  rule = rule;
  event = login "ev_1" 1000;
  group_key = "tenant";
  dedup_key = "tenant";
  threshold_count = 1;
  matched_at = 1000;
}

abbrev found_a : Finding
found_a = new_finding setup (moment "a" 1000 0) 0 hit acme

-- With that finding stored.
abbrev after_a : Pipeline
after_a = record start { world = record start.world { findings = found_a ∷ [] } }

one-Neat : (f : Finding) → Neat (f ∷ [])
one-Neat f = (
  (refl, tt),
  λ t r k. elim (Bool-cases (is_open_for t r k f)) [
    | inl e ↦ rw e (omega arith)
    | inr e ↦ rw e (omega arith)
  ],
)

upsert_finding-find_open_example :
    find_open_finding "acme" "AUTH-1" "tenant"
      (upsert_finding setup (moment "a" 1000 0) 0 hit acme start).1.world.findings
    ≡ some found_a
unfolding upsert_finding upsert_found create_finding created insert_finding find_open_finding
    latest_seen
upsert_finding-find_open_example =
    upsert_finding-find_open setup (moment "a" 1000 0) 0 hit acme start found_a
      (tt, λ t r k. omega arith) refl

upsert_finding-Outcome_example :
    (f : Finding) × ((upsert_finding setup (moment "b" 2000 0) 0 hit acme after_a).0 ≡ some f)
    × Outcome setup
        (moment "b" 2000 0)
        0
        hit
        acme
        (find_open_finding "acme" "AUTH-1" "tenant" (found_a ∷ []))
        f
unfolding build_finding assemble
upsert_finding-Outcome_example =
    upsert_finding-Outcome setup (moment "b" 2000 0) 0 hit acme after_a (one-Neat found_a) refl

abbrev created_count : ℕ
created_count = final.created_findings

abbrev updated_count : ℕ
updated_count = final.updated_findings

abbrev action_count : ℕ
action_count = final.triggered_actions

abbrev error_count : ℕ
error_count = final.errors
