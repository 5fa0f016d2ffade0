-- ===== src/Tests/DecisionCases.antt =====
-- The perimeter and the decision engine on a small tenant.
use thot_secure.Prelude.{true, false, none, some, [], ◌∷◌, ◌≡◌, ◌≢◌, ◌↔◌, ◌⊎◌, ◌≤◌, max, refl}
use thot_secure.Value.{str, get, is_in, non_empty, or_empty, has_text}
use thot_secure.Net.{normalize_host, is_valid_ip, ip_in_cidrs}
use thot_secure.Model.{
  Tenant, Settings, Finding, auto, supervised, triggers_action, tenant_protects,
  allows_automation_for,
}
use thot_secure.Scope.{
  TenantScope, TargetRegistry, inbound_mitigation_playbooks, infrastructure_playbooks, has_asset,
  owns, for_tenant, check_action, is_protected, protects_text, asset_for_host, normalized_host,
}
use thot_secure.Scope.Verdicts.{
  is_free, is_forbidden, touches_protected, check_action_free, check_action_forbidden,
}
use thot_secure.Storage.Actions.{count_actions_since, last_action_for, latest}
use thot_secure.Decision.Conditions.{DecisionContext, resolve, norm, evaluate_key, evaluate_when}
use thot_secure.Decision.Engine.{
  Policy, DecisionEngine, protects_target, guard_protected, guard_scope, verdict, guard_autonomy,
  recent, guard_hourly_cap, cooldown_active, guard_cooldown, is_cooling, effective_dry_run,
  guard_dry_run, apply_guards, select, asked, decide_from, decide,
}
use thot_secure.Decision.Guards.{
  AutomaticBy, level, decide-auto, decide-dry_run, apply_guards-lowers,
}
use thot_secure.Tests.Toy.{toy}

abbrev perimeter : TenantScope
perimeter = record {
  tenant_id = "acme";
  assets = record { host = "shop.acme.fr"; urls = []; criticality = 100 } ∷ [];
  owned_cidrs = [];
  protected_targets = [];
  allow_probe = false;
}

abbrev registry : TargetRegistry
registry = record { scopes = ("acme", perimeter) ∷ [] }

check_action_free_example :
    (is_free
        (check_action toy registry "acme" "block-source-ip" (some "10.0.0.9") (some "shop.acme.fr"))
      ≡ true)
    ↔ ((touches_protected toy registry "acme" "block-source-ip"
            (some "10.0.0.9")
            (some "shop.acme.fr")
          ≡ false)
        × (((is_in "block-source-ip" inbound_mitigation_playbooks ≡ true)
              × (has_text (some "shop.acme.fr") ≡ true)
              × (has_asset toy (for_tenant toy registry "acme") (some "shop.acme.fr") ≡ true))
            ⊎ ((is_in "block-source-ip" inbound_mitigation_playbooks ≡ false)
                × (is_in "block-source-ip" infrastructure_playbooks ≡ true)
                × (owns toy (for_tenant toy registry "acme") (some "10.0.0.9") ≡ true))))
check_action_free_example =
    check_action_free toy registry "acme" "block-source-ip" (some "10.0.0.9") (some "shop.acme.fr")

check_action_forbidden_example :
    (is_forbidden (check_action toy registry "acme" "rotate-secret" (some "k") none) ≡ true)
    ↔ (touches_protected toy registry "acme" "rotate-secret" (some "k") none ≡ true)
check_action_forbidden_example =
    check_action_forbidden toy registry "acme" "rotate-secret" (some "k") none

abbrev acme : Tenant
acme = record {
  tenant_id = "acme";
  mode = supervised;
  dry_run = false;
  autonomy_allowlist = [];
  protected_targets = [];
  max_actions_per_hour = 20;
  cooldown_seconds = 300;
  asset_criticality = 100;
}

abbrev settings : Settings
settings = record {
  env = "dev";
  dry_run = true;
  require_target_declaration = true;
  default_cooldown_seconds = 300;
  approve_ttl_seconds = 3600;
  critical_score_threshold = 8500;
}

abbrev finding : Finding
finding = record {
  finding_id = "fi_1";
  tenant_id = "acme";
  rule_id = "AO-WEB-001";
  severity = "high";
  risk_score = 6200;
  confidence = 80;
  status = "open";
  title = "SQL";
  remediation = "";
  tags = "web" ∷ [];
  mitre = [];
  count = 1;
  evidence = [];
  first_seen = 0;
  last_seen = 0;
  event_ids = [];
  created_at = 0;
  updated_at = 0;
  dedup_key = "tenant";
  resolution = none;
}

abbrev context : DecisionContext
context = record {
  finding = finding;
  tenant = acme;
  environment = "dev";
  settings = none;
  asset_host = some "shop.acme.fr";
  target_value = some "10.0.0.9";
  extra = [];
  now = 10000000;
}

abbrev block : Policy
block = record {
  id = "block-web";
  priority = 10;
  enabled = true;
  when = ("finding.rule_id", str "AO-WEB-001") ∷ [];
  result = record {
    decision = auto;
    playbook = some "block-source-ip";
    params = [];
    dry_run = some false;
    cooldown_seconds = none;
    max_actions_per_hour = none;
  };
  auto_after_seconds = none;
}

abbrev engine : DecisionEngine
engine = record {
  rows = [];
  policies = block ∷ [];
  settings = some settings;
  registry = registry;
  evaluations = 0;
}

decided_auto : (decide toy engine context).0.decision ≡ auto
unfolding decide select evaluate_when evaluate_key norm resolve decide_from apply_guards
    guard_protected protects_target tenant_protects is_protected for_tenant get protects_text
    guard_scope verdict check_action asset_for_host has_asset is_in normalized_host normalize_host
    is_valid_ip ip_in_cidrs guard_autonomy allows_automation_for guard_hourly_cap recent
    count_actions_since guard_cooldown cooldown_active last_action_for latest guard_dry_run
    effective_dry_run has_text or_empty non_empty asked is_cooling
decided_auto = refl

decide-auto_example :
    ((decide toy engine context).0.decision ≡ auto)
    ↔ AutomaticBy toy engine context
        (select toy engine context engine.policies).0
        (select toy engine context engine.policies).1
decide-auto_example = decide-auto toy engine context

decide-dry_run_example : (decide toy engine context).0.dry_run ≡ true
unfolding decide select evaluate_when evaluate_key norm resolve decide_from apply_guards
    guard_protected protects_target tenant_protects is_protected for_tenant get protects_text
    guard_scope verdict check_action asset_for_host has_asset is_in normalized_host normalize_host
    is_valid_ip ip_in_cidrs guard_autonomy allows_automation_for guard_hourly_cap recent
    count_actions_since guard_cooldown cooldown_active last_action_for latest guard_dry_run
    effective_dry_run has_text or_empty non_empty asked is_cooling triggers_action
decide-dry_run_example = decide-dry_run toy engine context refl refl

apply_guards-lowers_example :
    let d = asked toy engine context block [] in
    (level toy engine context (apply_guards toy engine context block d).decision
      ≤ max (level toy engine context d.decision) 1)
    × (((apply_guards toy engine context block d).decision ≡ d.decision)
        ⊎ ((apply_guards toy engine context block d).guards ≢ []))
    × ((apply_guards toy engine context block d).policy_id ≡ d.policy_id)
    × ((apply_guards toy engine context block d).playbook ≡ d.playbook)
    × ((apply_guards toy engine context block d).params ≡ d.params)
unfolding asked
apply_guards-lowers_example =
    apply_guards-lowers toy engine context block (asked toy engine context block []) refl
