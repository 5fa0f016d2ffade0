-- ===== src/Decision/Engine.antt =====
-- The decision engine of decision/engine.py: the choice of a policy and the guards that no policy
-- can lift. Each guard is a stage that ends the evaluation or hands the decision on. The texts of
-- the reasons are left out; `utcnow()` is read once, `context.now`.
use thot_secure.Prelude.{
  ℕ, ◌+◌, ◌*◌, ◌-◌, String, Bool, true, false, Option, none, some, List, [], ◌∷◌, ◌++◌, ◌==◌, ltb,
  leb, not, ◌&&◌, ◌||◌, if◌then◌else◌,
}
use thot_secure.Value.{Dict, has_text, or_empty}
use thot_secure.Platform.{Platform}
use thot_secure.Model.{
  Settings, TenantMode, manual, supervised, automatic, DecisionKind, auto, require_approval,
  notify_only, ignore, Decision, Guard, default_notify_only, explicit_ignore, protected_target,
  out_of_scope, scope_requires_approval, tenant_manual, critical_score, autonomy_allowlist,
  hourly_cap, cooldown, dry_run, Action, allows_automation_for, tenant_protects,
}
use thot_secure.Scope.{ScopeDecision, TargetRegistry, is_protected, for_tenant, check_action}
use thot_secure.Storage.Actions.{count_actions_since, last_action_for}
use thot_secure.Decision.Conditions.{DecisionContext, evaluate_when}

pub record PolicyThen : Type 0 where
  pub decision : DecisionKind
  pub playbook : Option String
  pub params : Dict
  pub dry_run : Option Bool
  pub cooldown_seconds : Option ℕ
  pub max_actions_per_hour : Option ℕ

pub record Policy : Type 0 where
  pub id : String
  pub priority : ℕ
  pub enabled : Bool
  pub when : Dict
  pub result : PolicyThen
  pub auto_after_seconds : Option ℕ

-- What the engine holds; `rows` is the table of actions that its store reads.
pub record DecisionEngine : Type 0 where
  pub rows : List Action
  pub policies : List Policy
  pub settings : Option Settings
  pub registry : TargetRegistry
  pub evaluations : ℕ

pub data Stage : Type 0 where
  stop : Decision → Stage
  go : Decision → Stage

infixl 5 ◌>>=◌
abbrev pub ◌>>=◌ : Stage → (Decision → Stage) → Stage
stop d >>= f = stop d
go d >>= f = f d

abbrev pub result_of : Stage → Decision
result_of (stop d) = d
result_of (go d) = d

abbrev pub guarded : Decision → Guard → DecisionKind → Decision
guarded d g k = record d { guards = d.guards ++ g ∷ []; decision = k }

-- a or b, for numbers
abbrev pub or_ℕ : Option ℕ → ℕ → ℕ
or_ℕ none b = b
or_ℕ (some a) b = if a == 0 then b else a

abbrev pub is_auto : DecisionKind → Bool
is_auto auto = true
is_auto _ = false

-- context.settings or self.settings
abbrev pub settings_of : DecisionEngine → DecisionContext → Option Settings
settings_of e c = elim c.settings [ none ↦ e.settings | some s ↦ some s ]

abbrev pub dry_run_global : Option Settings → Bool
dry_run_global none = true
dry_run_global (some s) = s.dry_run

abbrev pub requires_declaration : Option Settings → Bool
requires_declaration none = false
requires_declaration (some s) = s.require_target_declaration

-- The threshold in hundredths.
abbrev pub critical_threshold : Option Settings → ℕ
critical_threshold none = 8500
critical_threshold (some s) = s.critical_score_threshold

module _ (py : Platform) (e : DecisionEngine) (c : DecisionContext) where
  unfoldable pub protects_target : Bool
  protects_target =
      tenant_protects py c.tenant c.target_value
      || tenant_protects py c.tenant c.asset_host
      || is_protected py (for_tenant py e.registry c.tenant.tenant_id)
          (some (or_empty c.target_value))
      || is_protected py (for_tenant py e.registry c.tenant.tenant_id)
          (some (or_empty c.asset_host))

  -- 1. A protected target.
  unfoldable pub guard_protected : Decision → Stage
  guard_protected d =
      if protects_target then stop (guarded d protected_target notify_only) else go d

  unfoldable pub verdict : Decision → ScopeDecision
  verdict d =
      check_action py e.registry c.tenant.tenant_id (or_empty d.playbook) c.target_value
        c.asset_host

  -- 2. The declared perimeter.
  unfoldable pub guard_scope : Decision → Stage
  guard_scope d =
      if requires_declaration (settings_of e c) && has_text d.playbook
      then (if not (verdict d).allowed && not (verdict d).requires_approval
          then stop (guarded d out_of_scope notify_only)
          else if (verdict d).requires_approval && is_auto d.decision
          then go (guarded d scope_requires_approval require_approval)
          else go d)
      else go d

  unfoldable pub in_supervised : Decision → Stage
  in_supervised d =
      if leb (critical_threshold (settings_of e c)) c.finding.risk_score
      then go (guarded d critical_score require_approval)
      else if not (allows_automation_for py c.tenant c.target_value)
      then go (guarded d autonomy_allowlist require_approval)
      else go d

  -- The case of an automatic decision.
  unfoldable pub autonomy : TenantMode → Decision → Stage
  autonomy manual d = go (guarded d tenant_manual require_approval)
  autonomy supervised d = in_supervised d
  autonomy automatic d = go d

  -- 3. The tenant's mode of autonomy.
  unfoldable pub guard_autonomy : Decision → Stage
  unfolding autonomy in_supervised
  guard_autonomy d = if is_auto d.decision then autonomy c.tenant.mode d else go d

  -- Actions of the last hour.
  unfoldable pub recent : ℕ
  recent = count_actions_since c.tenant.tenant_id (c.now - 3600000) e.rows

  -- 4. The hourly cap.
  unfoldable pub guard_hourly_cap : Policy → Decision → Stage
  guard_hourly_cap p d =
      if leb (or_ℕ p.result.max_actions_per_hour c.tenant.max_actions_per_hour) recent
      then stop (guarded d hourly_cap notify_only)
      else go d

  -- elapsed < cooldown; the status was selected by the query.
  unfoldable pub is_cooling : ℕ → Option Action → Bool
  is_cooling seconds none = false
  is_cooling seconds (some last) = ltb c.now (last.requested_at + seconds * 1000)

  unfoldable pub cooldown_active : Decision → Bool
  cooldown_active d =
      let seconds = or_ℕ d.cooldown_seconds c.tenant.cooldown_seconds in
      not (seconds == 0)
      && has_text c.target_value
      && has_text d.playbook
      && is_cooling seconds (
          last_action_for py c.tenant.tenant_id (or_empty d.playbook) (or_empty c.target_value)
            e.rows)

  -- 5. The cooldown of the target.
  unfoldable pub guard_cooldown : Decision → Stage
  guard_cooldown d = if cooldown_active d then stop (guarded d cooldown notify_only) else go d

  unfoldable pub effective_dry_run : Policy → Bool
  effective_dry_run p = elim p.result.dry_run [
    | none ↦ dry_run_global (settings_of e c) || c.tenant.dry_run
    | some b ↦
        if b
        then dry_run_global (settings_of e c) || c.tenant.dry_run
        else dry_run_global (settings_of e c)
  ]

  -- 6. The dry run.
  unfoldable pub guard_dry_run : Policy → Decision → Stage
  guard_dry_run p d =
      if effective_dry_run p
      then go (record d { dry_run = true; guards = d.guards ++ dry_run ∷ [] })
      else go (record d { dry_run = false })

  unfoldable pub apply_guards : Policy → Decision → Decision
  apply_guards p d = result_of (do
    a ← guard_protected d
    b ← guard_scope a
    f ← guard_autonomy b
    g ← guard_hourly_cap p f
    h ← guard_cooldown g
    guard_dry_run p h)

  -- The first enabled policy that matches, and the identifiers evaluated up to it.
  unfoldable pub select : List Policy → Option Policy × List String
  select [] = (none, [])
  select (p ∷ ps) =
      let rest = select ps in
      if p.enabled
      then (if evaluate_when py p.when c then (some p, p.id ∷ []) else (rest.0, p.id ∷ rest.1))
      else rest

  abbrev pub expiry : Option ℕ → Option ℕ
  expiry none = none
  expiry (some s) = if s == 0 then none else some (c.now + s * 1000)

  abbrev pub or_tenant_cooldown : Option ℕ → Option ℕ
  or_tenant_cooldown none = some c.tenant.cooldown_seconds
  or_tenant_cooldown (some s) = some s

  abbrev pub or_true : Option Bool → Bool
  or_true none = true
  or_true (some b) = b

  -- The decision that a policy asks for, before the guards.
  unfoldable pub asked : Policy → List String → Decision
  asked p evaluated = record {
    decision = p.result.decision;
    policy_id = some p.id;
    playbook = p.result.playbook;
    params = p.result.params;
    risk_score = c.finding.risk_score;
    expires_at = expiry p.auto_after_seconds;
    cooldown_seconds = or_tenant_cooldown p.result.cooldown_seconds;
    dry_run = or_true p.result.dry_run;
    evaluated_policies = evaluated;
    guards = [];
  }

  unfoldable pub finish : Policy → Decision → DecisionKind → Decision
  finish p d ignore = record d { guards = d.guards ++ explicit_ignore ∷ [] }
  finish p d notify_only = d
  finish p d auto = apply_guards p d
  finish p d require_approval = apply_guards p d

  unfoldable pub decide_from : Option Policy → List String → Decision
  unfolding finish
  decide_from none evaluated = record {
    decision = notify_only;
    policy_id = none;
    playbook = none;
    params = [];
    risk_score = c.finding.risk_score;
    expires_at = none;
    cooldown_seconds = none;
    dry_run = true;
    evaluated_policies = evaluated;
    guards = default_notify_only ∷ [];
  }
  decide_from (some p) evaluated = finish p (asked p evaluated) p.result.decision

  unfoldable pub decide : Decision × DecisionEngine
  decide =
      let (chosen, evaluated) = select e.policies in
      (decide_from chosen evaluated, record e { evaluations = e.evaluations + 1 })
