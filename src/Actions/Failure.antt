-- ===== src/Actions/Failure.antt =====
-- What is left to undo after an execution that failed.
use thot_secure.Prelude.{
  String, false, none, some, List, [], ◌∷◌, ◌≡◌, refl, ◌∙◌, ap, arith, inl, inr, Option-cases,
  Bool-cases,
}
use mathlib.Core.Path.{subst}
use thot_secure.Value.{Dict}
use thot_secure.Model.{Tenant, Action, Status, failed, ActionRollback, finished}
use thot_secure.Storage.Actions.{is_row, get_action, status_in, written, write_rows, update_action}
use thot_secure.Actions.Executor.{ExecutionOutcome}
use thot_secure.Actions.World.{
  M, continue, ◌>>=◌, not_found, ActionError, Playbook, World, Env, conflict, Result, ok, err,
  Author, save, audit, notify, set_status, status_before,
}
use thot_secure.Actions.Progress.{ok-injective}
use thot_secure.Actions.Engine.{
  require, conclude, mark_failed, run_result, rollback, rollback_statuses,
}

rollback-write_rows :
    (b r : Action) (rows : List Action)
    → get_action b.tenant_id b.action_id (write_rows b rows) ≡ some r
    → r.rollback ≡ b.rollback
unfolding get_action write_rows is_row written
rollback-write_rows b r [] h = cc
rollback-write_rows b r (x ∷ rows) h = ground (arith, rollback-write_rows b r rows)

-- What `m` returns satisfies `Q` with the rows that it leaves.
abbrev Returns : {A : Type 0} → (A → List Action → Type 0) → M A → World → Type 0
Returns {A} Q m w = (x : A) → (m w).0 ≡ ok x → Q x (m w).1.rows

Returns-continue :
    {A B : Type 0} (S : B → List Action → Type 0) (r : Result A) (f : A → M B) (w : World)
    → ((x : A) → r ≡ ok x → Returns S (f x) w)
    → (y : B) → (continue r f w).0 ≡ ok y
    → S y (continue r f w).1.rows
Returns-continue S (ok x) f w h y e = h x refl y e
Returns-continue S (err x) f w h y e = cc

Returns-bind :
    {A B : Type 0} (S : B → List Action → Type 0) (m : M A) (f : A → M B) (w : World)
    → ((x : A) → (m w).0 ≡ ok x → Returns S (f x) (m w).1)
    → Returns S (m >>= f) w
Returns-bind S m f w h = Returns-continue S (m w).0 f (m w).1 h

-- The row of an action has its rollback.
abbrev Undoable : Action → List Action → Type 0
Undoable b rows =
    (r : Action) → get_action b.tenant_id b.action_id rows ≡ some r → r.rollback ≡ b.rollback

module _ (env : Env) where
  save-rollback :
      (b r : Action) (w : World)
      → (save env b w).0 ≡ ok tt
      → get_action b.tenant_id b.action_id (save env b w).1.rows ≡ some r
      → r.rollback ≡ b.rollback
  unfolding save update_action
  save-rollback b r w h found = ground (arith, rollback-write_rows b r w.rows)

  rollback-set_status :
      (a : Action) (s : Status) (who : Author) (name : String) (before : Dict) (w : World)
      → Returns
          (λ c rows. Undoable c rows × (c.rollback ≡ a.rollback) × (c.status ≡ s))
          (set_status env a s who name before)
          w
  unfolding set_status notify
  rollback-set_status a s who name before w =
      let S : Action → List Action → Type 0 =
        λ c rows. Undoable c rows × (c.rollback ≡ a.rollback) × (c.status ≡ s) in
      let b = record a { status = s } in
      let w1 = (save env b w).1 in
      let w2 = (audit env who name before b w1).1 in
      Returns-bind S (save env b) _ w λ x e.
        Returns-bind S (audit env who name before b) _ w1 λ seq e'.
          let c = record b { audit_seq = some seq } in
          Returns-bind S (save env c) _ w2 λ y saved. λ d k.
            subst (λ v. S v (save env c w2).1.rows) (ok-injective c d k)
              (λ r found. save-rollback c r w2 saved found, refl, refl)

  rollback_refused :
      (t : Tenant) (id : String) (user : Author) (w : World)
      → ((r : Action) → get_action t.tenant_id id w.rows ≡ some r → r.rollback.token ≡ none)
      → (e : ActionError) × (rollback env t id user w ≡ (err e, w))
  unfolding rollback require
  rollback_refused t id user w h = elim (Option-cases (get_action t.tenant_id id w.rows)) [
    | inl e ↦ (not_found, rw e refl)
    | inr (r, e) ↦ elim (Bool-cases (status_in r.status rollback_statuses)) [
      | inl f ↦ elim (Bool-cases r.rollback.available) [
        | inl g ↦ (conflict, rw e (rw f (rw g (rw (h r e) refl))))
        | inr g ↦ (conflict, rw e (rw f (rw g refl)))
      ]
      | inr f ↦ (conflict, rw e (rw f refl))
    ]
  ]

  -- An execution that failed at a step keeps no rollback token, whatever its steps have applied:
  -- the action is returned as failed, a status that can be undone, but each attempt to undo it in
  -- the world that the execution leaves is refused, and changes nothing and calls no connector.
  pub conclude-failed :
      (b c : Action) (p : Playbook) (who user : Author) (o : ExecutionOutcome) (w : World)
      (t : Tenant)
      → o.ok ≡ false
      → b.rollback.token ≡ none
      → (conclude env b p who (some o) w).0 ≡ ok c
      → t.tenant_id ≡ c.tenant_id
      → (c.status ≡ failed)
        × ((e : ActionError) × (rollback env t c.action_id user (conclude env b p who (some o) w).1
              ≡ (err e, (conclude env b p who (some o) w).1)))
  unfolding conclude mark_failed
  conclude-failed b c p who user o w t bad no_token h same =
      let report = finished false o.simulated o.rollback_available in
      let a = record b { result = some (run_result env report) } in
      let left = (mark_failed env b who report w).1 in
      let after =
        rollback-set_status a failed who "action.fail" (status_before b) w c (rw bad at h) in
      (
        after.2,
        rw bad (
            rollback_refused t c.action_id user left λ r found.
              ap (λ (x : ActionRollback). x.token)
                (after.0 r
                    (subst (λ (u : String). get_action u c.action_id left.rows ≡ some r) same found)
                  ∙ after.1)
              ∙ no_token),
      )
