-- ===== src/Actions/Drafts.antt =====
-- What a planned action may do.
use thot_secure.Prelude.{true, Option, none, some, ◌≡◌, ◌⊎◌, arith, String, ◌↔◌}
use thot_secure.Value.{Dict}
use thot_secure.Model.{Tenant, approved, planned, by_hand}
use thot_secure.Actions.World.{Playbook, Env}
use thot_secure.Actions.Engine.{PlanRequest, draft, planned_dry_run}

module _ (env : Env) where
  -- A new action is a dry run exactly if the global dry run is on, or the caller asks for it, or
  -- the caller says nothing and the tenant's dry run is on. It starts approved exactly if it was
  -- asked for by a policy and its playbook is reversible; otherwise it is planned, by hand.
  pub draft_safe :
      (t : Tenant) (p : Playbook) (q : PlanRequest) (params : Dict) (target : Option String)
      → let a = draft env t p q params target in
        ((a.dry_run ≡ true) ↔ (
          (env.settings.dry_run ≡ true)
          ⊎ ((q.dry_run ≡ some true) ⊎ ((q.dry_run ≡ none) × (t.dry_run ≡ true)))))
        × ((a.status ≡ approved) ↔ ((q.automatic ≡ true) × (p.reversible ≡ true)))
        × ((a.status ≡ approved) ⊎ ((a.status ≡ planned) × (a.mode ≡ by_hand)))
  unfolding draft planned_dry_run
  draft_safe t p q params target = ground arith
