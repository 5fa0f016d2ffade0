-- ===== src/Scope.antt =====
-- scope.py: the declared perimeter of each tenant. Loading the YAML file is not modelled; a registry
-- is the dictionary that it produces, its keys in lower case.
pub mod Verdicts
use thot_secure.Prelude.{
  ℕ, String, Bool, true, false, Option, none, some, List, [], ◌∷◌, str_eq, any, find, map, not,
  ◌&&◌, ◌||◌, if◌then◌else◌,
}
use thot_secure.Value.{get, is_in, non_empty, or_empty, has_text}
use thot_secure.Platform.{Platform}
use thot_secure.Net.{is_valid_ip, is_valid_cidr, ip_in_cidrs, has_char, normalize_host}

pub record Asset : Type 0 where
  pub host : String
  pub urls : List String
  pub criticality : ℕ

pub record TenantScope : Type 0 where
  pub tenant_id : String
  pub assets : List Asset
  pub owned_cidrs : List String
  pub protected_targets : List String
  pub allow_probe : Bool

pub record TargetRegistry : Type 0 where
  pub scopes : List (String × TenantScope)

-- Which sentence of `check_probe` and `check_action` the reason is.
pub data ScopeReason : Type 0 where
  no_asset_to_probe probe_not_enabled assets_declared : ScopeReason
  protected_by_tenant asset_declared empty_perimeter source_not_declared : ScopeReason
  target_owned target_not_declared playbook_not_classified : ScopeReason

pub record ScopeDecision : Type 0 where
  pub allowed : Bool
  pub reason : ScopeReason
  pub requires_approval : Bool

abbrev pub inbound_mitigation_playbooks : List String
inbound_mitigation_playbooks =
    "block-source-ip" ∷ "rate-limit-source" ∷ "unblock-source-ip" ∷ "remove-rate-limit" ∷ []

abbrev pub infrastructure_playbooks : List String
infrastructure_playbooks =
    "isolate-host" ∷ "unisolate-host" ∷ "quarantine-artifact" ∷ "restore-artifact"
    ∷ "patch-dependency" ∷ "rotate-secret" ∷ "revoke-session" ∷ "harden-endpoint" ∷ []

unfoldable pub is_empty : List Asset → Bool
is_empty [] = true
is_empty (a ∷ r) = false

module _ (py : Platform) where
  unfoldable pub normalized_host : Asset → String
  normalized_host a = normalize_host py a.host

  unfoldable pub asset_for_host : TenantScope → Option String → Option Asset
  asset_for_host s none = none
  asset_for_host s (some host) =
      if non_empty host
      then find (λ a. str_eq (normalized_host a) (normalize_host py host)) s.assets
      else none

  unfoldable pub has_asset : TenantScope → Option String → Bool
  has_asset s host = elim (asset_for_host s host) [ none ↦ false | some a ↦ true ]

  unfoldable pub owns_text : TenantScope → String → Bool
  owns_text s text =
      if is_valid_cidr py text && has_char b'/' text
      then is_in text s.owned_cidrs
      else if is_valid_ip py text
      then ip_in_cidrs py text s.owned_cidrs
      else any (λ a. str_eq (normalize_host py text) (normalized_host a)) s.assets

  unfoldable pub owns : TenantScope → Option String → Bool
  unfolding owns_text
  owns s none = false
  owns s (some value) = non_empty value && owns_text s (py.strip value)

  unfoldable pub protects_text : TenantScope → String → Bool
  protects_text s text =
      if is_valid_ip py text || (has_char b'/' text && is_valid_cidr py text)
      then ip_in_cidrs py text s.protected_targets
      else any (λ t. str_eq (normalize_host py text) (normalize_host py t)) s.protected_targets

  unfoldable pub is_protected : TenantScope → Option String → Bool
  unfolding protects_text
  is_protected s none = false
  is_protected s (some value) = non_empty value && protects_text s (py.strip value)

  unfoldable pub for_tenant : TargetRegistry → String → TenantScope
  for_tenant r tenant_id = elim (get (py.lower tenant_id) r.scopes) [
    | none ↦ record {
      tenant_id = py.lower tenant_id;
      assets = [];
      owned_cidrs = [];
      protected_targets = [];
      allow_probe = false;
    }
    | some s ↦ s
  ]

  unfoldable pub check_probe : TargetRegistry → String → ScopeDecision
  check_probe r tenant_id =
      let s = for_tenant r tenant_id in
      if is_empty s.assets
      then record { allowed = false; reason = no_asset_to_probe; requires_approval = false }
      else if not s.allow_probe
      then record { allowed = false; reason = probe_not_enabled; requires_approval = false }
      else record { allowed = true; reason = assets_declared; requires_approval = false }

  -- `check_action`, for the scope of the tenant.
  unfoldable pub check_scope : TenantScope → String → Option String → Option String → ScopeDecision
  check_scope s playbook target asset_host =
      if is_protected s (some (or_empty target)) || is_protected s (some (or_empty asset_host))
      then record { allowed = false; reason = protected_by_tenant; requires_approval = false }
      else if is_in playbook inbound_mitigation_playbooks
      then (if has_text asset_host && has_asset s asset_host
          then record { allowed = true; reason = asset_declared; requires_approval = false }
          else if is_empty s.assets
          then record { allowed = false; reason = empty_perimeter; requires_approval = true }
          else record { allowed = true; reason = source_not_declared; requires_approval = true })
      else if is_in playbook infrastructure_playbooks
      then (if owns s target
          then record { allowed = true; reason = target_owned; requires_approval = false }
          else record { allowed = false; reason = target_not_declared; requires_approval = true })
      else record { allowed = true; reason = playbook_not_classified; requires_approval = true }

  unfoldable pub check_action :
      TargetRegistry → String → String → Option String → Option String → ScopeDecision
  unfolding check_scope
  check_action r tenant_id playbook target asset_host =
      check_scope (for_tenant r tenant_id) playbook target asset_host
