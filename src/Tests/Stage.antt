-- ===== src/Tests/Stage.antt =====
-- One tenant, one playbook of two steps, connectors that succeed, and one action.
use thot_secure.Prelude.{true, false, none, some, [], ◌∷◌}
use thot_secure.Model.{Tenant, Action, Status, by_hand, supervised}
use thot_secure.Audit.Defs.{empty_log}
use thot_secure.Actions.Executor.{Step, Connectors}
use thot_secure.Actions.World.{Playbook, World, Env, Author}
use thot_secure.Tests.Toy.{toy}

abbrev pub block : Step
block = record { connector = "firewall"; call = "block_ip"; with_ = []; optional = false }

abbrev pub tell : Step
tell = record { connector = "chat"; call = "notify"; with_ = []; optional = true }

abbrev pub block_source : Playbook
block_source = record {
  name = "block-source-ip";
  reversible = true;
  params = [];
  execute = block ∷ tell ∷ [];
  rollback = [];
}

-- The connectors succeed.
abbrev pub obeying : Connectors
obeying before call = record { ok = true; simulated = call.dry_run; rollback_token = some "t1" }

abbrev pub env : Env
env = record {
  py = toy;
  settings = record {
    env = "dev";
    dry_run = true;
    require_target_declaration = true;
    default_cooldown_seconds = 300;
    approve_ttl_seconds = 86400;
    critical_score_threshold = 9000;
  };
  playbooks = ("block-source-ip", block_source) ∷ [];
  answer = obeying;
  now = 1000000;
  fresh = λ n. "act";
}

abbrev pub acme : Tenant
acme = record {
  tenant_id = "acme";
  mode = supervised;
  dry_run = true;
  autonomy_allowlist = [];
  protected_targets = [];
  max_actions_per_hour = 20;
  cooldown_seconds = 300;
  asset_criticality = 100;
}

abbrev pub alice : Author
alice = record { actor = "alice"; role = "admin" }

abbrev pub action : Status → Action
action status = record {
  action_id = "a1";
  tenant_id = "acme";
  finding_id = none;
  policy_id = none;
  playbook = "block-source-ip";
  status = status;
  mode = by_hand;
  dry_run = false;
  params = [];
  target_type = "ip";
  target_value = "10.0.0.9";
  requested_by = "alice";
  requested_at = 0;
  approved_by = some "alice";
  approved_at = some 10;
  rejected_by = none;
  rejected_at = none;
  executed_at = none;
  expires_at = some 500000;
  result = none;
  rollback = record {
    available = true;
    token = none;
    performed_at = none;
    result = none;
    expires_at = none;
  };
  idempotency_key = "acme:block-source-ip:10.0.0.9:0";
  audit_seq = none;
}

abbrev pub world : Status → World
world status = record {
  tenants = acme ∷ [];
  findings = [];
  rows = action status ∷ [];
  log = empty_log;
  calls = [];
  changes = [];
}
