-- ===== src/Actions/Course.antt =====
-- The requests to the action engine against the edges of their kinds.
use thot_secure.Prelude.{
  String, Bool, true, false, not, Option, none, some, List, [], ◌∷◌, ◌≡◌, refl, sym, ◌∙◌, ap, inl,
  inr, ◌⊎◌, arith, if◌then◌else◌,
}
use mathlib.Core.Path.{subst}
use thot_secure.Value.{Dict, get}
use thot_secure.Model.{
  Action, Status, Tenant, Token, planned, pending_approval, approved, rejected, executing,
  succeeded, failed, expired, rolled_back, is_terminal_status, is_terminal,
}
use thot_secure.Storage.Actions.{get_action, status_in}
use thot_secure.Storage.Rows.{get_action_key}
use thot_secure.Actions.Executor.{ExecutionOutcome}
use thot_secure.Actions.World.{
  World, Env, not_found, conflict, Playbook, M, Author, Result, ok, err, status_before, set_status,
  ◌>>=◌, ◌>>◌,
}
use thot_secure.Actions.Lifecycle.{
  Kind, approving, rejecting, undoing, runs, Edge, approval, late_approval, rejection, started,
  tried, success, failure, undone, undo_failure, Reaches, here, next,
}
use thot_secure.Actions.Progress.{
  Moves, Any, Moves-bind, Moves-same, Moves-guard, Moves-expect, Moves-if, set_status-Moves,
  Follows-refl,
}
use thot_secure.Actions.Licence.{Licensed, tests, authorize_execution_lem, tests-Licensed}
use thot_secure.Actions.Engine.{
  rollback_statuses, require, approve, reject, authorize_execution, run_playbook, mark_failed,
  mark_succeeded, conclude, execute, run_rollback, conclude_rollback, rollback,
}

abbrev pub some_value : {A : Type 0} → A → Option A → A
some_value a none = a
some_value a (some x) = x

-- A row that was read is the row that a write to its key changes.
pub own :
    {k : Kind} (t id : String) (rows : List Action) (a : Action) (s : Status)
    → get_action t id rows ≡ some a
    → Reaches k a.dry_run a.status s
    → (r : Action) → get_action a.tenant_id a.action_id rows ≡ some r
    → Reaches k r.dry_run r.status s
own {k} t id rows a s found path r h =
    let same = ap (some_value a) (sym (get_action_key t id rows a found) ∙ h) in
    subst (λ x. Reaches k x.dry_run x.status s) same path

approvable :
    (d : Bool) (s : Status)
    → status_in s (planned ∷ pending_approval ∷ []) ≡ true
    → Edge approving d s approved
unfolding status_in
approvable d planned h = approval
approvable d pending_approval h = late_approval
approvable d approved h = cc
approvable d rejected h = cc
approvable d executing h = cc
approvable d succeeded h = cc
approvable d failed h = cc
approvable d expired h = cc
approvable d rolled_back h = cc

pub undoable : (s : Status) → status_in s rollback_statuses ≡ true → (s ≡ succeeded) ⊎ (s ≡ failed)
unfolding status_in
undoable succeeded h = inl refl
undoable failed h = inr refl
undoable planned h = cc
undoable pending_approval h = cc
undoable approved h = cc
undoable rejected h = cc
undoable executing h = cc
undoable expired h = cc
undoable rolled_back h = cc

not-false : (b : Bool) → not b ≡ true → b ≡ false
not-false b h = ground arith

module _ (env : Env) where
  abbrev pub Alive : Kind → {A : Type 0} → M A → Type 0
  Alive k m = (w : World) → Moves k Any m w

  pub Moves-require :
      {k : Kind} {B : Type 0} (t id : String) (f : Action → M B) (w : World)
      → ((a : Action) → get_action t id w.rows ≡ some a → Moves k Any (f a) w)
      → Moves k Any (require env t id >>= f) w
  unfolding require
  Moves-require t id f w h =
      let m = Moves-expect (get_action t id w.rows) not_found f w h in
      record { follows = m.follows; returned = λ x k. tt }

  pub to_any :
      {k : Kind} {A : Type 0} {Q : A → List Action → Type 0} (m : M A) (w : World)
      → Moves k Q m w
      → Moves k Any m w
  to_any m w h = record { follows = h.follows; returned = λ x k. tt }

  pub approve-Moves :
      (t : Tenant) (id : String) (who : Author) → Alive approving (approve env t id who)
  unfolding approve
  approve-Moves t id who w = Moves-require t.tenant_id id _ w λ a found.
      Moves-guard _ conflict _ w λ h. to_any _ w (
        set_status-Moves env _ approved who _ _ w (
          own t.tenant_id id w.rows a approved found (next (approvable a.dry_run a.status h) here)))

  pub reject-Moves :
      (t : Tenant) (id : String) (who : Author) → Alive rejecting (reject env t id who)
  unfolding reject is_terminal
  reject-Moves t id who w = Moves-require t.tenant_id id _ w λ a found.
      Moves-guard _ conflict _ w λ h. to_any _ w (
        set_status-Moves env _ rejected who _ _ w (
          own t.tenant_id id w.rows a rejected found
            (next (rejection (not-false (is_terminal_status a.status) h)) here)))

  startable :
      {k : Kind} (a : Action) (p : Playbook) (t : Tenant)
      → runs k ≡ true
      → Licensed env a p t
      → Reaches k a.dry_run a.status executing
  startable {k} a p t run l = elim l.ready [
    | inl e ↦ subst (λ s. Reaches k a.dry_run s executing) (sym e) (next (started run) here)
    | inr e ↦
        subst (λ s. Reaches k a.dry_run s executing) (sym e.0)
          (subst (λ d. Reaches k d planned executing) (sym e.1) (next (tried run) here))
  ]

  Moves-decided :
      {k : Kind} {B : Type 0} (r : Result (Unit {0})) (m : M (Unit {0})) (n : M B) (w : World)
      → m w ≡ (r, w)
      → (r ≡ ok tt → Moves k Any n w)
      → Moves k Any (m >> n) w
  Moves-decided (ok tt) m n w e h = record { follows = rw e (h refl).follows; returned = λ x c. tt }
  Moves-decided (err x) m n w e h = record {
    follows = rw e (Follows-refl w.rows);
    returned = λ x c. tt;
  }

  -- Writing the end of an execution or of an attempt to undo.
  ending-Moves :
      {k : Kind} (b : Action) (s t : Status) (who : Author) (name : String) (before : Dict)
      (w : World)
      → ((r : Action) → get_action b.tenant_id b.action_id w.rows ≡ some r → r.status ≡ s)
      → ((d : Bool) → Edge k d s t)
      → Moves k Any (set_status env b t who name before) w
  ending-Moves {k} b s t who name before w standing edge = to_any _ w (
      set_status-Moves env b t who name before w λ r found.
        subst (λ x. Reaches k r.dry_run x t) (sym (standing r found)) (next (edge r.dry_run) here))

  conclude-Moves :
      {k : Kind} (b : Action) (p : Playbook) (who : Author) (o : Option ExecutionOutcome)
      (w : World)
      → runs k ≡ true
      → ((r : Action) → get_action b.tenant_id b.action_id w.rows ≡ some r → r.status ≡ executing)
      → Moves k Any (conclude env b p who o) w
  unfolding conclude mark_failed mark_succeeded
  conclude-Moves b p who none w run h =
      ending-Moves _ executing failed who _ _ w h (λ d. failure run)
  conclude-Moves b p who (some o) w run h =
      Moves-if o.ok _ _ w (λ e. ending-Moves _ executing succeeded who _ _ w h (λ d. success run))
        (λ e. ending-Moves _ executing failed who _ _ w h (λ d. failure run))

  run_playbook_rows :
      (t : Tenant) (a : Action) (p : Playbook) (w : World)
      → (run_playbook env t a p w).1.rows ≡ w.rows
  unfolding run_playbook
  run_playbook_rows t a p w = refl

  run_rollback_rows :
      (t : Tenant) (a : Action) (k : Token) (w : World) → (run_rollback env t a k w).1.rows ≡ w.rows
  unfolding run_rollback
  run_rollback_rows t a k w = refl

  pub execute-Moves :
      {k : Kind} (t : Tenant) (id : String) (who : Author)
      → runs k ≡ true
      → Alive k (execute env t id who)
  unfolding execute
  execute-Moves {k} t id who run w = Moves-require t.tenant_id id _ w λ a found.
      Moves-expect (get a.playbook env.playbooks) not_found _ w λ p known.
        Moves-decided (tests env a p t) (authorize_execution env a p t) _ w
          (authorize_execution_lem env a p t w)
          λ licence.
            let begin = set_status env a executing who "action.execute" (status_before a) in
            Moves-bind begin _ w
              (set_status-Moves env a executing who "action.execute" (status_before a) w (
                own t.tenant_id id w.rows a executing found
                  (startable a p t run ((tests-Licensed env a p t).0 licence))))
              λ b e q.
                let w1 = (begin w).1 in
                Moves-bind (run_playbook env t b p) _ w1
                  (Moves-same (run_playbook env t b p) w1 (run_playbook_rows t b p w1))
                  λ o e' q'.
                    conclude-Moves b p who o (run_playbook env t b p w1).1 run
                      λ r at. q.0 r (rw (run_playbook_rows t b p w1) at at) ∙ q.1

  undone-Moves :
      {k : Kind} (a : Action) (b : Action) (t : Status) (who : Author) (name : String)
      (before : Dict) (w : World)
      → ((r : Action)
          → get_action b.tenant_id b.action_id w.rows ≡ some r
          → Reaches k r.dry_run r.status t)
      → Moves k Any (set_status env b t who name before) w
  undone-Moves a b t who name before w h = to_any _ w (set_status-Moves env b t who name before w h)

  conclude_rollback-Moves :
      {k : Kind} (a : Action) (who : Author) (o : Option ExecutionOutcome) (w : World)
      → ((s : Status)
          → ((s ≡ rolled_back) ⊎ (s ≡ failed))
          → (r : Action) → get_action a.tenant_id a.action_id w.rows ≡ some r
          → Reaches k r.dry_run r.status s)
      → Moves k Any (conclude_rollback env a who o) w
  unfolding conclude_rollback
  conclude_rollback-Moves a who none w h = undone-Moves a _ failed who _ _ w (h failed (inr refl))
  conclude_rollback-Moves a who (some o) w h =
      undone-Moves a _ (if o.ok then rolled_back else failed) who _ _ w
        (h (if o.ok then rolled_back else failed) (ground arith))

  undo_path :
      (a : Action) (s : Status)
      → (a.status ≡ succeeded) ⊎ (a.status ≡ failed)
      → (s ≡ rolled_back) ⊎ (s ≡ failed)
      → Reaches undoing a.dry_run a.status s
  undo_path a s from (inl e) =
      subst (λ x. Reaches undoing a.dry_run a.status x) (sym e) (next (undone from) here)
  undo_path a s from (inr e) =
      subst (λ x. Reaches undoing a.dry_run a.status x) (sym e) (next (undo_failure from) here)

  pub rollback-Moves :
      (t : Tenant) (id : String) (who : Author) → Alive undoing (rollback env t id who)
  unfolding rollback
  rollback-Moves t id who w = Moves-require t.tenant_id id _ w λ a found.
      Moves-guard (status_in a.status rollback_statuses) conflict _ w λ h.
        Moves-guard a.rollback.available conflict _ w λ h'.
          Moves-expect a.rollback.token conflict _ w λ token e.
            Moves-bind (run_rollback env t a token) _ w
              (Moves-same (run_rollback env t a token) w (run_rollback_rows t a token w))
              λ o e' q.
                conclude_rollback-Moves a who o (run_rollback env t a token w).1 λ s end r at.
                  own t.tenant_id id w.rows a s found (undo_path a s (undoable a.status h) end) r
                    (rw (run_rollback_rows t a token w) at at)
