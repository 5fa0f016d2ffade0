-- ===== src/Model.antt =====
-- core/models.py: the data that the components exchange. Texts for a human reader
-- (descriptions, the `reason` of a decision or an action) are left out. Scores count hundredths,
-- times milliseconds.
use thot_secure.Prelude.{
  ℕ, String, Bool, true, false, Option, none, some, List, [], ◌∷◌, ◌&&◌, if◌then◌else◌,
}
use thot_secure.Value.{Dict, non_empty, has_text, is_in}
use thot_secure.Platform.{Platform}
use thot_secure.Net.{ip_in_cidrs}

pub data DecisionKind : Type 0 where
  auto require_approval notify_only ignore : DecisionKind

pub data Status : Type 0 where
  planned pending_approval approved rejected executing succeeded failed expired rolled_back : Status

pub data TenantMode : Type 0 where
  manual supervised automatic : TenantMode

-- The `mode` of an action.
pub data ActionMode : Type 0 where
  by_policy by_hand : ActionMode

-- A number for each status, to compare them.
abbrev pub status_code : Status → ℕ
status_code planned = 0
status_code pending_approval = 1
status_code approved = 2
status_code rejected = 3
status_code executing = 4
status_code succeeded = 5
status_code failed = 6
status_code expired = 7
status_code rolled_back = 8

pub record Tenant : Type 0 where
  pub tenant_id : String
  pub mode : TenantMode
  pub dry_run : Bool
  pub autonomy_allowlist : List String
  pub protected_targets : List String
  pub max_actions_per_hour : ℕ
  pub cooldown_seconds : ℕ
  pub asset_criticality : ℕ

pub record Settings : Type 0 where
  pub env : String
  pub dry_run : Bool
  pub require_target_declaration : Bool
  pub default_cooldown_seconds : ℕ
  pub approve_ttl_seconds : ℕ
  pub critical_score_threshold : ℕ

pub record Finding : Type 0 where
  pub finding_id : String
  pub tenant_id : String
  pub rule_id : String
  pub severity : String
  pub risk_score : ℕ
  pub confidence : ℕ
  pub status : String
  pub title : String
  pub remediation : String
  pub tags : List String
  pub mitre : List String
  pub count : ℕ
  pub evidence : Dict
  pub first_seen : ℕ
  pub last_seen : ℕ
  pub event_ids : List String
  pub created_at : ℕ
  pub updated_at : ℕ
  pub dedup_key : String
  pub resolution : Option String

-- The guard that `DecisionEngine` writes into `Decision.guards`.
pub data Guard : Type 0 where
  default_notify_only explicit_ignore protected_target out_of_scope : Guard
  scope_requires_approval tenant_manual critical_score autonomy_allowlist : Guard
  hourly_cap cooldown dry_run : Guard

pub record Decision : Type 0 where
  pub decision : DecisionKind
  pub policy_id : Option String
  pub playbook : Option String
  pub params : Dict
  pub risk_score : ℕ
  pub expires_at : Option ℕ
  pub cooldown_seconds : Option ℕ
  pub dry_run : Bool
  pub evaluated_policies : List String
  pub guards : List Guard

-- decision in {"auto", "require_approval"}
abbrev pub acts : DecisionKind → Bool
acts auto = true
acts require_approval = true
acts _ = false

unfoldable pub triggers_action : Decision → Bool
triggers_action d = acts d.decision && has_text d.playbook

-- A step that was applied, as the rollback stack records it.
pub record Applied : Type 0 where
  pub index : ℕ
  pub connector : String
  pub call : String
  pub params : Dict
  pub rollback_token : Option String

-- A rollback token: the JSON text of a stack, taken as the stack, or another text.
pub data Token : Type 0 where
  packed : String → List Applied → Token
  unreadable : String → Token

-- The outcome of an execution or of a rollback, as `ExecutionOutcome.to_dict` keeps it, or the
-- text of the `PlaybookError` that stopped it.
pub data Report : Type 0 where
  finished : Bool → Bool → Bool → Report
  raised : Report

pub record ActionResult : Type 0 where
  pub run : Option Report
  pub undo : Option Report

pub record ActionRollback : Type 0 where
  pub available : Bool
  pub token : Option Token
  pub performed_at : Option ℕ
  pub result : Option Report
  pub expires_at : Option ℕ

pub record Action : Type 0 where
  pub action_id : String
  pub tenant_id : String
  pub finding_id : Option String
  pub policy_id : Option String
  pub playbook : String
  pub status : Status
  pub mode : ActionMode
  pub dry_run : Bool
  pub params : Dict
  pub target_type : String
  pub target_value : String
  pub requested_by : String
  pub requested_at : ℕ
  pub approved_by : Option String
  pub approved_at : Option ℕ
  pub rejected_by : Option String
  pub rejected_at : Option ℕ
  pub executed_at : Option ℕ
  pub expires_at : Option ℕ
  pub result : Option ActionResult
  pub rollback : ActionRollback
  pub idempotency_key : String
  pub audit_seq : Option ℕ

abbrev pub is_terminal_status : Status → Bool
is_terminal_status succeeded = true
is_terminal_status failed = true
is_terminal_status rejected = true
is_terminal_status expired = true
is_terminal_status rolled_back = true
is_terminal_status _ = false

unfoldable pub is_terminal : Action → Bool
is_terminal a = is_terminal_status a.status

-- SEVERITY_ORDER and `severity_rank`
unfoldable pub severity_rank : Platform → String → ℕ
unfolding is_in
severity_rank py s =
    let t = py.lower s in
    if is_in t ("low" ∷ [])
    then 1
    else if is_in t ("medium" ∷ [])
    then 2
    else if is_in t ("high" ∷ [])
    then 3
    else if is_in t ("critical" ∷ [])
    then 4
    else 0

module _ (py : Platform) where
  -- An empty allowlist allows every target.
  unfoldable pub allowlist_allows : List String → Option String → Bool
  allowlist_allows [] ip = true
  allowlist_allows (c ∷ cs) none = false
  allowlist_allows (c ∷ cs) (some a) = non_empty a && ip_in_cidrs py a (c ∷ cs)

  unfoldable pub allows_automation_for : Tenant → Option String → Bool
  unfolding allowlist_allows
  allows_automation_for t ip = allowlist_allows t.autonomy_allowlist ip

  unfoldable pub tenant_protects : Tenant → Option String → Bool
  tenant_protects t none = false
  tenant_protects t (some ip) = non_empty ip && ip_in_cidrs py ip t.protected_targets
