-- ===== src/Actions/Quiet.antt =====
-- The global dry run against the calls of every request.
use thot_secure.Prelude.{
  String, true, Option, none, some, ◌≡◌, refl, sym, arith, Bool-cases, Option-cases, inl, inr,
}
use mathlib.Core.Path.{subst}
use thot_secure.Value.{Dict}
use thot_secure.Model.{Tenant, Action, Status, failed, Token}
use thot_secure.Storage.Actions.{get_action, status_in}
use thot_secure.Actions.Executor.{ExecutionOutcome}
use thot_secure.Actions.Traces.{AllDry}
use thot_secure.Actions.Simulation.{AllDry-append, rollback-AllDry}
use thot_secure.Actions.World.{
  Playbook, World, Env, Result, ok, err, continue, ◌>>=◌, Author, save, audit, notify,
}
use thot_secure.Actions.Keeps.{Keeps, Order}
use thot_secure.Actions.Engine.{
  PlanRequest, draft, planned_dry_run, place, require, run_rollback, execute, rollback,
  rollback_statuses, conclude_rollback,
}
use thot_secure.Actions.Frame.{Written, execute-Keeps, rollback-Keeps}
use thot_secure.Actions.Serving.{Served}
use thot_secure.Actions.Licence.{calls-execute, calls-set_status}
use thot_secure.Actions.DryRun.{
  DryRows, get_action-dry_run, save-Harmless, Harmless-Written, rows-run_playbook,
  rows-run_rollback, place_dry, calls-place,
}

-- Every stored action is a dry run, and so was every call to a connector.
abbrev pub DryWorld : World → Type 0
DryWorld w = DryRows w.rows × AllDry true w.calls

abbrev pub Quiet : World → World → Type 0
Quiet w w' = DryWorld w → DryWorld w'

pub Quiet-Order : Order Quiet
Quiet-Order = record { stay = λ w h. h; go = λ u v w f g h. g (f h) }

module _ (env : Env) where
  calls-save : (a : Action) (w : World) → (save env a w).1.calls ≡ w.calls
  unfolding save
  calls-save a w = ground arith

  save-Quiet : (a : Action) → Keeps Quiet (save env a)
  save-Quiet a = record { at = λ w h. ((save-Harmless env a).at w h.0, rw (calls-save a w) h.1) }

  audit-Quiet :
      (who : Author) (name : String) (before : Dict) (a : Action)
      → Keeps Quiet (audit env who name before a)
  unfolding audit
  audit-Quiet who name before a = record { at = λ w h. h }

  notify-Quiet : (a : Action) (s : Status) → Keeps Quiet (notify env a s)
  unfolding notify
  notify-Quiet a s = record { at = λ w h. h }

  Quiet-Written : Written env Quiet
  Quiet-Written = record {
    order = Quiet-Order;
    saving = save-Quiet;
    auditing = audit-Quiet;
    notifying = notify-Quiet;
  }

  execute-Quiet : (t : Tenant) (id : String) (who : Author) → Keeps Quiet (execute env t id who)
  execute-Quiet t id who = record {
    at = λ w h. (
      (execute-Keeps env (Harmless-Written env) (rows-run_playbook env) t id who).at w h.0,
      elim (calls-execute env t id who w) [
        | inl same ↦ rw same h.1
        | inr (a, p, e, known, licensed, (made, calls, all_dry)) ↦ rw calls (
            AllDry-append true w.calls made h.1 (
              subst (λ d. AllDry d made) (get_action-dry_run t.tenant_id id a w.rows h.0 e)
                all_dry))
      ],
    );
  }

  calls-conclude_rollback :
      (a : Action) (who : Author) (o : Option ExecutionOutcome) (w : World)
      → (conclude_rollback env a who o w).1.calls ≡ w.calls
  unfolding conclude_rollback
  calls-conclude_rollback a who none w = calls-set_status env _ failed who _ _ w
  calls-conclude_rollback a who (some o) w = calls-set_status env _ _ who _ _ w

  calls-continue :
      (a : Action) (who : Author) (r : Result (Option ExecutionOutcome)) (w : World)
      → (continue r (λ o. conclude_rollback env a who o) w).1.calls ≡ w.calls
  calls-continue a who (ok o) w = calls-conclude_rollback a who o w
  calls-continue a who (err e) w = refl

  run_rollback-AllDry :
      (t : Tenant) (a : Action) (token : Token) (who : Author) (w : World)
      → a.dry_run ≡ true
      → AllDry true w.calls
      → AllDry true (run_rollback env t a token w).1.calls
  unfolding run_rollback
  run_rollback-AllDry t a token who w d h =
      subst (λ b. AllDry b (run_rollback env t a token w).1.calls) d
        (rollback-AllDry env.py env.answer env.now a.dry_run _ token _ w.calls
          (subst (λ b. AllDry b w.calls) (sym d) h))

  undone-AllDry :
      (t : Tenant) (a : Action) (token : Token) (who : Author) (w : World)
      → a.dry_run ≡ true
      → AllDry true w.calls
      → AllDry true ((run_rollback env t a token >>= λ o. conclude_rollback env a who o) w).1.calls
  undone-AllDry t a token who w d h =
      let (o, w') = run_rollback env t a token w in
      rw (calls-continue a who o w') (run_rollback-AllDry t a token who w d h)

  calls-rollback :
      (t : Tenant) (id : String) (who : Author) (w : World)
      → DryWorld w
      → AllDry true (rollback env t id who w).1.calls
  unfolding rollback require
  calls-rollback t id who w h = elim (Option-cases (get_action t.tenant_id id w.rows)) [
    | inl e ↦ rw e h.1
    | inr (a, e) ↦ elim (Bool-cases (status_in a.status rollback_statuses)) [
      | inr f ↦ rw e (rw f h.1)
      | inl f ↦ elim (Bool-cases a.rollback.available) [
        | inr g ↦ rw e (rw f (rw g h.1))
        | inl g ↦ elim (Option-cases a.rollback.token) [
          | inl k ↦ rw e (rw f (rw g (rw k h.1)))
          | inr (token, k) ↦
              let d = get_action-dry_run t.tenant_id id a w.rows h.0 e in
              rw e (rw f (rw g (rw k (undone-AllDry t _ token who w d h.1))))
        ]
      ]
    ]
  ]

  rollback-Quiet : (t : Tenant) (id : String) (who : Author) → Keeps Quiet (rollback env t id who)
  rollback-Quiet t id who = record {
    at = λ w h. (
      (rollback-Keeps env (Harmless-Written env) (rows-run_rollback env) t id who).at w h.0,
      calls-rollback t id who w h,
    );
  }

  module _ (on : env.settings.dry_run ≡ true) where
    draft-dry_run :
        (t : Tenant) (p : Playbook) (q : PlanRequest) (params : Dict) (target : Option String)
        → (draft env t p q params target).dry_run ≡ true
    unfolding draft planned_dry_run
    draft-dry_run t p q params target = ground arith

    place-Quiet :
        (t : Tenant) (p : Playbook) (q : PlanRequest) (params : Dict) (target : Option String)
        → Keeps Quiet (
            place env 5 0
              (draft env t p q params target)
              (draft env t p q params target).idempotency_key)
    place-Quiet t p q params target = record {
      at = λ w h. (
        place_dry env 5 0 (draft env t p q params target) _ w (draft-dry_run t p q params target)
            h.0,
        rw
            (calls-place env 5 0 (draft env t p q params target)
              (draft env t p q params target).idempotency_key w)
            h.1,
      );
    }

    pub Quiet-Served : Served env Quiet
    Quiet-Served = record {
      written = Quiet-Written;
      placing = place-Quiet;
      executing = execute-Quiet;
      undoing = rollback-Quiet;
    }
