-- ===== src/Scope/Verdicts.antt =====
-- What the verdicts of `check_action` mean.
use thot_secure.Prelude.{
  String, Bool, true, false, Option, some, ◌≡◌, ◌↔◌, ◌⊎◌, arith, ◌&&◌, ◌||◌, not,
}
use thot_secure.Value.{is_in, has_text, or_empty}
use thot_secure.Platform.{Platform}
use thot_secure.Scope.{
  TargetRegistry, ScopeDecision, inbound_mitigation_playbooks, infrastructure_playbooks, has_asset,
  owns, is_protected, for_tenant, check_action,
}

-- The verdict lets a decision stay automatic.
abbrev pub is_free : ScopeDecision → Bool
is_free v = v.allowed && not v.requires_approval

-- The verdict forbids the action even with an approval.
abbrev pub is_forbidden : ScopeDecision → Bool
is_forbidden v = not v.allowed && not v.requires_approval

module _ (py : Platform) (r : TargetRegistry) (tenant_id playbook : String)
    (target host : Option String) where
  abbrev pub touches_protected : Bool
  touches_protected =
      is_protected py (for_tenant py r tenant_id) (some (or_empty target))
      || is_protected py (for_tenant py r tenant_id) (some (or_empty host))

  -- `check_action` forbids an action outright exactly when its target or the attacked asset is a
  -- protected target of the tenant's perimeter, whatever the playbook.
  pub check_action_forbidden :
      (is_forbidden (check_action py r tenant_id playbook target host) ≡ true)
      ↔ (touches_protected ≡ true)
  unfolding check_action
  check_action_forbidden = ground arith

  -- `check_action` lets an action go without approval exactly when nothing protected is touched
  -- and either the playbook mitigates an inbound attack on a declared asset, or it changes the
  -- infrastructure of the tenant on a target that the tenant owns.
  pub check_action_free : (is_free (check_action py r tenant_id playbook target host) ≡ true) ↔ (
      (touches_protected ≡ false)
      × (((is_in playbook inbound_mitigation_playbooks ≡ true)
            × (has_text host ≡ true)
            × (has_asset py (for_tenant py r tenant_id) host ≡ true))
          ⊎ ((is_in playbook inbound_mitigation_playbooks ≡ false)
              × (is_in playbook infrastructure_playbooks ≡ true)
              × (owns py (for_tenant py r tenant_id) target ≡ true))))
  unfolding check_action
  check_action_free = ground arith
