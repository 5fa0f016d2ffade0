-- ===== src/Decision/Guards.antt =====
-- What the guards of the decision engine guarantee.
use thot_secure.Prelude.{
  ◌⊎◌, ℕ, ◌<◌, ◌≤◌, String, true, false, Option, none, some, List, [], ◌≡◌, ◌≢◌, ◌↔◌, refl, max,
  ◌&&◌, arith,
}
use thot_secure.Value.{has_text}
use thot_secure.Platform.{Platform}
use thot_secure.Model.{
  TenantMode, manual, supervised, automatic, DecisionKind, acts, triggers_action, auto,
  require_approval, notify_only, ignore, Decision, allows_automation_for,
}
use thot_secure.Scope.Verdicts.{is_free}
use thot_secure.Decision.Conditions.{DecisionContext}
use thot_secure.Decision.Engine.{
  Policy, DecisionEngine, or_ℕ, settings_of, dry_run_global, requires_declaration,
  critical_threshold, protects_target, guard_protected, verdict, guard_scope, guard_autonomy,
  recent, guard_hourly_cap, cooldown_active, guard_cooldown, effective_dry_run, guard_dry_run,
  apply_guards, select, asked, finish, decide_from, decide,
}

module _ (py : Platform) (e : DecisionEngine) (c : DecisionContext) where
  -- The tenant's mode of autonomy lets a decision stay automatic.
  abbrev pub Autonomous : TenantMode → Type 0
  Autonomous manual = ⊥
  Autonomous supervised =
      (c.finding.risk_score < critical_threshold (settings_of e c))
      × (allows_automation_for py c.tenant c.target_value ≡ true)
  Autonomous automatic = Unit {0}

  -- All that an automatic decision needs, in the words of the guards' documentation.
  pub record MayAutomate (p : Policy) (d : Decision) : Type 0 where
    pub not_protected : protects_target py e c ≡ false
    pub declared :
        (requires_declaration (settings_of e c) && has_text d.playbook ≡ true)
        → is_free (verdict py e c d) ≡ true
    pub autonomous : Autonomous c.tenant.mode
    pub below_cap : recent py e c < or_ℕ p.result.max_actions_per_hour c.tenant.max_actions_per_hour
    pub cooled : cooldown_active py e c d ≡ false

  pub apply_guards-MayAutomate :
      (p : Policy) (d : Decision)
      → (apply_guards py e c p d).decision ≡ auto
      → (d.decision ≡ auto) × MayAutomate p d
  unfolding apply_guards guard_protected guard_scope guard_autonomy guard_hourly_cap guard_cooldown
      guard_dry_run verdict cooldown_active
  apply_guards-MayAutomate p d h = ground arith

  MayAutomate-apply_guards :
      (p : Policy) (d : Decision)
      → d.decision ≡ auto
      → MayAutomate p d
      → (apply_guards py e c p d).decision ≡ auto
  unfolding apply_guards guard_protected guard_scope guard_autonomy guard_hourly_cap guard_cooldown
      guard_dry_run verdict cooldown_active
  MayAutomate-apply_guards p d k h = ground arith

  finish-MayAutomate :
      (p : Policy) (d : Decision) (k : DecisionKind)
      → d.decision ≡ k
      → (finish py e c p d k).decision ≡ auto
      → (k ≡ auto) × MayAutomate p d
  unfolding finish
  finish-MayAutomate p d ignore q h = cc
  finish-MayAutomate p d notify_only q h = cc
  finish-MayAutomate p d auto q h = (refl, (apply_guards-MayAutomate p d h).1)
  finish-MayAutomate p d require_approval q h = cc ((apply_guards-MayAutomate p d h).0)

  MayAutomate-finish :
      (p : Policy) (d : Decision) (k : DecisionKind)
      → d.decision ≡ k
      → k ≡ auto
      → MayAutomate p d
      → (finish py e c p d k).decision ≡ auto
  unfolding finish
  MayAutomate-finish p d auto q r m = MayAutomate-apply_guards p d q m
  MayAutomate-finish p d _ q r m = cc

  -- What an automatic decision says of the engine's policy for the context.
  abbrev pub AutomaticBy : Option Policy → List String → Type 0
  AutomaticBy none ids = ⊥
  AutomaticBy (some p) ids = (p.result.decision ≡ auto) × MayAutomate p (asked py e c p ids)

  decide_from-auto :
      (o : Option Policy) (ids : List String)
      → ((decide_from py e c o ids).decision ≡ auto) ↔ AutomaticBy o ids
  unfolding decide_from asked
  decide_from-auto none ids = (λ h. cc, λ h. absurd h)
  decide_from-auto (some p) ids = (
    λ h. finish-MayAutomate p (asked py e c p ids) p.result.decision refl h,
    λ h. MayAutomate-finish p (asked py e c p ids) p.result.decision refl h.0 h.1,
  )

  -- A decision is automatic exactly when the first enabled policy that matches asks for it, no
  -- target is among the tenant's protected targets, the declared perimeter lets it go without
  -- approval where a declaration is required, the tenant's mode allows it (in `supervised`, a score
  -- below the critical threshold, and a target inside the autonomy allowlist or an empty
  -- allowlist), fewer actions than the hourly cap are recent, where a cap of the policy that is not
  -- zero takes the place of the tenant's, and no cooldown runs.
  pub decide-auto :
      ((decide py e c).0.decision ≡ auto)
      ↔ AutomaticBy (select py e c e.policies).0 (select py e c e.policies).1
  unfolding decide
  decide-auto = decide_from-auto (select py e c e.policies).0 (select py e c e.policies).1

  -- The level of a decision: how far it goes without a human.
  abbrev pub level : DecisionKind → ℕ
  level ignore = 0
  level notify_only = 1
  level require_approval = 2
  level auto = 3

  -- The guards never raise a decision that acts, and whenever they lower it they leave a guard in
  -- its trace; they change neither the policy nor the playbook nor the parameters.
  pub apply_guards-lowers :
      (p : Policy) (d : Decision)
      → d.guards ≡ []
      → (level (apply_guards py e c p d).decision ≤ max (level d.decision) 1)
        × (((apply_guards py e c p d).decision ≡ d.decision)
            ⊎ ((apply_guards py e c p d).guards ≢ []))
        × ((apply_guards py e c p d).policy_id ≡ d.policy_id)
        × ((apply_guards py e c p d).playbook ≡ d.playbook)
        × ((apply_guards py e c p d).params ≡ d.params)
  unfolding apply_guards guard_protected guard_scope guard_autonomy guard_hourly_cap guard_cooldown
      guard_dry_run verdict cooldown_active
  apply_guards-lowers p d h = ground arith

  apply_guards-dry_run :
      (p : Policy) (d : Decision)
      → dry_run_global (settings_of e c) ≡ true
      → acts (apply_guards py e c p d).decision ≡ true
      → (apply_guards py e c p d).dry_run ≡ true
  unfolding apply_guards guard_protected guard_scope guard_autonomy guard_hourly_cap guard_cooldown
      guard_dry_run verdict cooldown_active effective_dry_run
  apply_guards-dry_run p d g h = ground arith

  finish-dry_run :
      (p : Policy) (d : Decision) (k : DecisionKind)
      → d.decision ≡ k
      → dry_run_global (settings_of e c) ≡ true
      → acts (finish py e c p d k).decision ≡ true
      → (finish py e c p d k).dry_run ≡ true
  unfolding finish
  finish-dry_run p d ignore q g h = cc
  finish-dry_run p d notify_only q g h = cc
  finish-dry_run p d auto q g h = apply_guards-dry_run p d g h
  finish-dry_run p d require_approval q g h = apply_guards-dry_run p d g h

  decide_from-dry_run :
      (o : Option Policy) (ids : List String)
      → dry_run_global (settings_of e c) ≡ true
      → acts (decide_from py e c o ids).decision ≡ true
      → (decide_from py e c o ids).dry_run ≡ true
  unfolding decide_from asked
  decide_from-dry_run none ids g h = refl
  decide_from-dry_run (some p) ids g h =
      finish-dry_run p (asked py e c p ids) p.result.decision refl g h

  -- While the global dry run is on, or no settings are given, every decision that leads to an
  -- action is a dry run, whatever its policy says.
  pub decide-dry_run :
      dry_run_global (settings_of e c) ≡ true
      → triggers_action (decide py e c).0 ≡ true
      → (decide py e c).0.dry_run ≡ true
  unfolding decide triggers_action
  decide-dry_run g h =
      decide_from-dry_run (select py e c e.policies).0 (select py e c e.policies).1 g (ground arith)
