-- ===== src/Actions/Licence.antt =====
-- Which actions may reach a connector.
use thot_secure.Prelude.{
  String, Bool, true, false, Option, none, some, List, [], ◌++◌, ◌≡◌, ◌↔◌, refl, sym, ap, ◌∙◌, ◌⊎◌,
  inl, inr, not, ◌&&◌, arith, Bool-cases, Option-cases,
}
use mathlib.Core.Path.{subst}
use mathlib.Core.List.{append-nil}
use thot_secure.Value.{Dict, get}
use thot_secure.Model.{
  Tenant, Action, by_hand, Status, planned, approved, executing, succeeded, failed, tenant_protects,
}
use thot_secure.Storage.Actions.{get_action, status_in}
use thot_secure.Actions.Executor.{Call, ExecutionOutcome}
use thot_secure.Actions.Executor
use thot_secure.Actions.Traces.{AllDry, Trace-AllDry, execute-Executed}
use thot_secure.Actions.World.{
  Playbook, World, Env, ActionError, procedure, conflict, autonomy_refused, protected, Result, ok,
  err, M, continue, ◌>>=◌, ◌>>◌, guard, Author, status_before, save, audit, notify, set_status,
}
use thot_secure.Actions.Engine.{
  executable_statuses, is_planned, is_by_policy, require, refuse_expired, authorize_execution,
  execution_context, run_playbook, mark_failed, mark_succeeded, conclude, execute,
}

module _ (env : Env) where
  -- What the engine demands before an execution starts.
  pub record Licensed (a : Action) (p : Playbook) (t : Tenant) : Type 0 where
    pub ready : (a.status ≡ approved) ⊎ ((a.status ≡ planned) × (a.dry_run ≡ true))
    pub reversible : (p.reversible ≡ true) ⊎ (a.mode ≡ by_hand)
    pub not_protected : tenant_protects env.py t (some a.target_value) ≡ false

  pub calls-set_status :
      (a : Action) (s : Status) (who : Author) (name : String) (before : Dict) (w : World)
      → (set_status env a s who name before w).1.calls ≡ w.calls
  unfolding set_status save audit notify
  calls-set_status a s who name before w = ground arith

  -- The four tests in a row, and what follows them.
  abbrev first_refusal : Bool → Bool → Bool → Bool → Result (Unit {0})
  first_refusal false b c d = err conflict
  first_refusal true false c d = err autonomy_refused
  first_refusal true true false d = err autonomy_refused
  first_refusal true true true false = err protected
  first_refusal true true true true = ok tt

  gates :
      (a b c d : Bool) (m : M (Unit {0})) (w : World)
      → (a ≡ true → m w ≡ (ok tt, w))
      → (do
        guard a conflict
        guard b autonomy_refused
        guard c autonomy_refused
        guard d protected
        m)
          w
        ≡ (first_refusal a b c d, w)
  gates false b c d m w h = refl
  gates true false c d m w h = refl
  gates true true false d m w h = refl
  gates true true true false m w h = refl
  gates true true true true m w h = h refl

  -- The test of the expiry comes after one that excludes its condition.
  refuse_expired_lem :
      (a : Action) (w : World)
      → status_in a.status executable_statuses ≡ true
      → refuse_expired env a w ≡ (ok tt, w)
  unfolding refuse_expired status_in
  refuse_expired_lem a w h = ground arith

  abbrev pub tests : Action → Playbook → Tenant → Result (Unit {0})
  tests a p t =
      first_refusal (status_in a.status executable_statuses) (not (is_planned a && not a.dry_run))
        (not (not p.reversible && is_by_policy a.mode))
        (not (tenant_protects env.py t (some a.target_value)))

  pub authorize_execution_lem :
      (a : Action) (p : Playbook) (t : Tenant) (w : World)
      → authorize_execution env a p t w ≡ (tests a p t, w)
  unfolding authorize_execution
  authorize_execution_lem a p t w =
      gates (status_in a.status executable_statuses) (not (is_planned a && not a.dry_run))
        (not (not p.reversible && is_by_policy a.mode))
        (not (tenant_protects env.py t (some a.target_value))) (refuse_expired env a) w
        (refuse_expired_lem a w)

  pub tests-Licensed :
      (a : Action) (p : Playbook) (t : Tenant) → (tests a p t ≡ ok tt) ↔ Licensed a p t
  unfolding status_in
  tests-Licensed a p t = (λ h. ground arith, λ h. ground arith)

  -- The test before an execution accepts exactly the licensed actions, and changes nothing. Neither
  -- the expiry of the action, nor the settings, nor the tenant's dry run enter it.
  pub authorize_execution-Licensed :
      (a : Action) (p : Playbook) (t : Tenant) (w : World)
      → (((authorize_execution env a p t w).0 ≡ ok tt) ↔ Licensed a p t)
        × ((authorize_execution env a p t w).1 ≡ w)
  authorize_execution-Licensed a p t w =
      rw (authorize_execution_lem a p t w) (tests-Licensed a p t, refl)

  -- The calls made between two worlds, all in one mode of dry run.
  abbrev pub CallsMade : Bool → World → World → Type 0
  CallsMade dry w w' = (made : List Call) × (w'.calls ≡ w.calls ++ made) × AllDry dry made

  dry_run-set_status :
      (a b : Action) (s : Status) (who : Author) (name : String) (before : Dict) (w : World)
      → (set_status env a s who name before w).0 ≡ ok b
      → b.dry_run ≡ a.dry_run
  unfolding set_status save audit notify
  dry_run-set_status a b s who name before w h = ground arith

  calls-conclude :
      (a : Action) (p : Playbook) (who : Author) (o : Option ExecutionOutcome) (w : World)
      → (conclude env a p who o w).1.calls ≡ w.calls
  unfolding conclude mark_failed mark_succeeded
  calls-conclude a p who none w = calls-set_status _ failed who _ _ w
  calls-conclude a p who (some o) w = elim (Bool-cases o.ok) [
    | inl e ↦ rw e (calls-set_status _ succeeded who _ _ w)
    | inr e ↦ rw e (calls-set_status _ failed who _ _ w)
  ]

  calls-run_playbook :
      (t : Tenant) (a : Action) (p : Playbook) (w : World)
      → CallsMade a.dry_run w (run_playbook env t a p w).1
  unfolding run_playbook
  calls-run_playbook t a p w =
      let x =
        execute-Executed env.py env.answer env.now a.dry_run (procedure p) a.params
          (execution_context env t a w) w.calls in
      (x.made, x.calls, Trace-AllDry env.py env.answer a.dry_run _ x.trace)

  -- What follows the authorisation.
  abbrev started : Action → Playbook → Tenant → Author → M Action
  started a p t who = do
    b ← set_status env a executing who "action.execute" (status_before a)
    o ← run_playbook env t b p
    conclude env b p who o

  outcome : Tenant → Action → Playbook → World → Option ExecutionOutcome
  outcome t b p w =
      (Executor.execute env.py env.answer env.now b.dry_run (procedure p) b.params
        (execution_context env t b w) w.calls).0

  run_playbook_ok :
      (t : Tenant) (b : Action) (p : Playbook) (w : World)
      → (run_playbook env t b p w).0 ≡ ok (outcome t b p w)
  unfolding run_playbook outcome
  run_playbook_ok t b p w = refl

  Result-cases : (r : Result (Unit {0})) → (r ≡ ok tt) ⊎ ((e : ActionError) × (r ≡ err e))
  Result-cases (ok tt) = inl refl
  Result-cases (err e) = inr (e, refl)

  calls-continue :
      (p : Playbook) (t : Tenant) (who : Author) (dry : Bool) (w w' : World) (r : Result Action)
      → w'.calls ≡ w.calls
      → ((b : Action) → r ≡ ok b → b.dry_run ≡ dry)
      → CallsMade dry w
          (continue r (λ b. run_playbook env t b p >>= λ o. conclude env b p who o) w').1
  calls-continue p t who dry w w' (err e) same mode = ([], same ∙ sym (append-nil w.calls), tt)
  calls-continue p t who dry w w' (ok b) same mode =
      let (made, calls, all_dry) = calls-run_playbook t b p w' in
      let last = calls-conclude b p who (outcome t b p w') (run_playbook env t b p w').1 in
      (
        made,
        rw run_playbook_ok (last ∙ calls ∙ ap (λ (l : List Call). l ++ made) same),
        subst (λ d. AllDry d made) (mode b refl) all_dry,
      )

  calls-started :
      (a : Action) (p : Playbook) (t : Tenant) (who : Author) (w : World)
      → CallsMade a.dry_run w (started a p t who w).1
  calls-started a p t who w =
      calls-continue p t who a.dry_run w
        (set_status env a executing who "action.execute" (status_before a) w).1
        (set_status env a executing who "action.execute" (status_before a) w).0
        (calls-set_status a executing who "action.execute" (status_before a) w)
        (λ b h. dry_run-set_status a b executing who "action.execute" (status_before a) w h)

  -- Every call that `execute` makes to a connector is made for a stored action that is licensed,
  -- of a known playbook, in the mode of dry run that the action was planned with: no connector is
  -- reached for an action that is neither approved nor a dry run.
  pub calls-execute :
      (t : Tenant) (id : String) (who : Author) (w : World)
      → ((execute env t id who w).1.calls ≡ w.calls)
        ⊎ ((a : Action) × (p : Playbook) × (get_action t.tenant_id id w.rows ≡ some a)
            × (get a.playbook env.playbooks ≡ some p)
            × Licensed a p t
            × CallsMade a.dry_run w (execute env t id who w).1)
  unfolding execute require
  calls-execute t id who w = elim (Option-cases (get_action t.tenant_id id w.rows)) [
    | inl e ↦ inl (rw e)
    | inr (a, e) ↦ elim (Option-cases (get a.playbook env.playbooks)) [
      | inl f ↦ inl (rw e (rw f))
      | inr (p, f) ↦ elim (Result-cases (tests a p t)) [
        | inl g ↦ inr (
          a,
          p,
          e,
          f,
          (tests-Licensed a p t).0 g,
          rw e (rw f (rw (authorize_execution_lem a p t w) (rw g (calls-started a p t who w)))),
        )
        | inr (x, g) ↦ inl (rw e (rw f (rw (authorize_execution_lem a p t w) (rw g))))
      ]
    ]
  ]
