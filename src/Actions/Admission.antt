-- ===== src/Actions/Admission.antt =====
-- The actions that are planned and submitted, and the whole of a request, against the edges of an
-- action's life.
use thot_secure.Prelude.{
  String, Bool, true, false, ◌&&◌, none, some, [], ◌≡◌, refl, sym, ◌∙◌, arith,
}
use mathlib.Core.Path.{subst}
use thot_secure.Value.{get}
use thot_secure.Model.{
  Action, Tenant, Finding, Decision, planned, pending_approval, triggers_action,
}
use thot_secure.Storage.Actions.{get_action, status_in}
use thot_secure.Actions.World.{World, Env, not_found, playbook_error, Author, save, audit, notify}
use thot_secure.Actions.Lifecycle.{
  Kind, planning, deciding, approving, rejecting, running, undoing, submitted, Reaches, here, next,
  Evolves,
}
use thot_secure.Actions.Progress.{
  Moves, Any, Standing, Moves-bind, Moves-same, Moves-pure, Moves-expect, Moves-if,
  set_status-Moves, save-Moves, audit_rows, notify_rows,
}
use thot_secure.Actions.Course.{
  Alive, to_any, approve-Moves, reject-Moves, execute-Moves, rollback-Moves,
}
use thot_secure.Actions.Engine.{
  Placed, inserted, reused, place, finish_plan, plan, PlanRequest, submit, launch, from_decision,
  is_planned, is_required, draft, request_of,
}
use thot_secure.Actions.Evidence.{resolve_param_paths, resolve_target_value}
use thot_secure.Actions.Params.{validate_params}
use thot_secure.Actions.Session.{Request, serve}
use thot_secure.Actions.Placement.{place-Moves, placed_action, planned_only}

module _ (env : Env) where
  finish_plan-Moves :
      {k : Kind} (who : Author) (p : Placed) (w : World)
      → Standing (placed_action p) w.rows
      → Moves k Standing (finish_plan env who p) w
  unfolding finish_plan
  finish_plan-Moves who (reused a) w h = Moves-pure a w h
  finish_plan-Moves {k} who (inserted a) w h =
      let w1 = (audit env who "action.plan" [] a w).1 in
      Moves-bind (audit env who "action.plan" [] a) _ w
        (Moves-same (audit env who "action.plan" [] a) w (audit_rows env who "action.plan" [] a w))
        λ seq e q.
          let b = record a { audit_seq = some seq } in
          let w2 = (save env b w1).1 in
          Moves-bind (save env b) _ w1
            (save-Moves env b w1 λ r found.
              subst (λ s. Reaches k r.dry_run s a.status)
                (sym (h r (rw (audit_rows env who "action.plan" [] a w) at found))) here)
            λ x e' standing.
              Moves-bind (notify env b planned) _ w2
                (Moves-same (notify env b planned) w2 (notify_rows env b planned w2))
                λ y e'' q'.
                  Moves-pure b (notify env b planned w2).1
                    (subst (Standing b) (sym (notify_rows env b planned w2)) standing)

  plan-Moves :
      {k : Kind} (t : Tenant) (q : PlanRequest) (w : World) → Moves k Standing (plan env t q) w
  unfolding plan
  plan-Moves t q w = Moves-expect (get q.playbook_name env.playbooks) not_found _ w λ p known.
      Moves-expect (validate_params env.py p.params (resolve_param_paths env.py q.finding q.params))
        playbook_error _ w
        λ params valid.
          let a = draft env t p q params (resolve_target_value env.py params q.finding) in
          Moves-bind (place env 5 0 a a.idempotency_key) _ w
            (place-Moves env 5 0 a a.idempotency_key w)
            λ placed e standing.
              finish_plan-Moves q.who placed (place env 5 0 a a.idempotency_key w).1 standing

  is_planned-planned : (a : Action) → is_planned a ≡ true → a.status ≡ planned
  unfolding status_in
  is_planned-planned a h = planned_only a.status h

  submit-Moves :
      (d : Decision) (who : Author) (a : Action) (w : World)
      → Standing a w.rows
      → Moves deciding Any (submit env d who a) w
  unfolding submit
  submit-Moves d who a w standing =
      Moves-if (is_required d.decision && is_planned a) _ _ w
        (λ h. to_any env _ w (
          set_status-Moves env a pending_approval who _ _ w λ r found.
            subst (λ s. Reaches deciding r.dry_run s pending_approval)
              (sym (standing r found ∙ is_planned-planned a (ground arith))) (next submitted here)))
        (λ h. Moves-pure a w tt)

  launch-Moves :
      (t : Tenant) (d : Decision) (who : Author) (a : Action) (w : World)
      → Moves deciding Any (launch env t d who a) w
  unfolding launch
  launch-Moves t d who a w =
      Moves-if _ _ _ w (λ h. execute-Moves env t a.action_id who refl w) (λ h. Moves-pure a w tt)

  from_decision-Moves :
      (t : Tenant) (f : Finding) (d : Decision) (who : Author)
      → Alive env deciding (from_decision env t f d who)
  unfolding from_decision
  from_decision-Moves t f d who w =
      Moves-if (triggers_action d) _ _ w
        (λ h.
          let q = request_of env f d who in
          let w1 = (plan env t q w).1 in
          Moves-bind (plan env t q) _ w (plan-Moves t q w) λ a e standing.
            let w2 = (submit env d who a w1).1 in
            Moves-bind (submit env d who a) _ w1 (submit-Moves d who a w1 standing) λ b e' x.
              Moves-bind (launch env t d who b) _ w2 (launch-Moves t d who b w2)
                λ c e'' y. Moves-pure (some c) (launch env t d who b w2).1 tt)
        (λ h. Moves-pure none w tt)

  abbrev pub is_reap : Request → Bool
  is_reap (Request.reap id) = true
  is_reap _ = false

  -- What a request is for; the reaper's is no change of these kinds.
  abbrev pub kind_of : Request → Kind
  kind_of (Request.plan t q) = planning
  kind_of (Request.from_decision t f d who) = deciding
  kind_of (Request.approve t id who) = approving
  kind_of (Request.reject t id who) = rejecting
  kind_of (Request.execute t id who) = running
  kind_of (Request.rollback t id who) = undoing
  kind_of (Request.reap id) = planning

  -- Every request but the reaper's keeps every stored action: its identity, playbook, parameters,
  -- target, mode and dry run never change, whether the request returns or raises, and its status
  -- moves only along the edges of that kind of request. A plan moves none; an approval moves a
  -- planned or pending action to approved; a rejection moves an action that has not ended to
  -- rejected; an execution moves an approved action, or a planned dry run, to executing and from
  -- there to succeeded or failed; a policy's decision moves a planned action to pending approval,
  -- or does what an execution does; a rollback moves a succeeded or failed action to rolled back,
  -- or to failed.
  pub serve-Follows :
      (r : Request) (w : World) (t id : String) (a : Action)
      → is_reap r ≡ false
      → get_action t id w.rows ≡ some a
      → (b : Action) × (get_action t id (serve env r w).rows ≡ some b) × Evolves (kind_of r) a b
  serve-Follows (Request.plan u q) w t id a h = (plan-Moves u q w).follows t id a
  serve-Follows (Request.from_decision u f d who) w t id a h =
      (from_decision-Moves u f d who w).follows t id a
  serve-Follows (Request.approve u i who) w t id a h = (approve-Moves env u i who w).follows t id a
  serve-Follows (Request.reject u i who) w t id a h = (reject-Moves env u i who w).follows t id a
  serve-Follows (Request.execute u i who) w t id a h =
      (execute-Moves env u i who refl w).follows t id a
  serve-Follows (Request.rollback u i who) w t id a h =
      (rollback-Moves env u i who w).follows t id a
  serve-Follows (Request.reap i) w t id a h = cc
