-- ===== src/Actions/Serving.antt =====
-- What every request to the action engine keeps, once the writes, the insertion of a new action, the
-- executions and the rollbacks keep it.
use thot_secure.Prelude.{inl, inr, Bool-cases, String, Option, none, some, List, [], ◌∷◌, ◌≡◌, refl}
use thot_secure.Value.{Dict, get, non_empty}
use thot_secure.Model.{Tenant, Action, Decision, Finding, pending_approval, succeeded}
use thot_secure.Actions.Evidence.{resolve_param_paths, resolve_target_value}
use thot_secure.Actions.Params.{validate_params}
use thot_secure.Actions.World.{
  Playbook, World, Env, Result, ok, err, not_found, conflict, playbook_error, autonomy_refused,
  protected, expect, Author,
}
use thot_secure.Actions.Keeps.{Keeps, Keeps-pure, Keeps-expect, Keeps-bind, Keeps-if}
use thot_secure.Actions.Engine.{
  place, plan, PlanRequest, draft, execute, rollback, launch, from_decision,
}
use thot_secure.Actions.Reap.{
  reaper, is_due, list_page, expire_one, expire_all, counted, undo_one, undo_all, reap_tenant,
  reap_known, reap_one, reap_ids, reap,
}
use thot_secure.Actions.Session.{Request, serve}
use thot_secure.Actions.Frame.{
  Written, set_status-Keeps, approve-Keeps, reject-Keeps, finish_plan-Keeps, submit-Keeps,
}

-- The loop that inserts a new action keeps the relation.
abbrev pub Placing : Env → (World → World → Type 0) → Type 0
Placing env R =
    (t : Tenant) (p : Playbook) (q : PlanRequest) (params : Dict) (target : Option String)
    → Keeps R (
        place env 5 0 (draft env t p q params target)
          (draft env t p q params target).idempotency_key)

-- The writes, and the methods that insert rows or reach connectors, keep the relation.
pub record Served (env : Env) (R : World → World → Type 0) : Type 0 where
  pub written : Written env R
  pub placing : Placing env R
  pub executing : (t : Tenant) (id : String) (who : Author) → Keeps R (execute env t id who)
  pub undoing : (t : Tenant) (id : String) (who : Author) → Keeps R (rollback env t id who)

module _ (env : Env) {R : World → World → Type 0} (f : Written env R)
    (placing : Placing env R) where
  pub plan-Keeps : (t : Tenant) (q : PlanRequest) → Keeps R (plan env t q)
  unfolding plan
  plan-Keeps t q =
      Keeps-bind f.order (expect (get q.playbook_name env.playbooks) not_found) _
        (Keeps-expect f.order _ _)
        λ p.
          Keeps-bind f.order
            (expect
              (validate_params env.py p.params (resolve_param_paths env.py q.finding q.params))
              playbook_error)
            _ (Keeps-expect f.order _ _)
            λ params.
              Keeps-bind f.order
                (place env 5 0
                  (draft env t p q params (resolve_target_value env.py params q.finding))
                  (draft env t p q params
                    (resolve_target_value env.py params q.finding)).idempotency_key)
                _ (placing t p q params _) λ placed. finish_plan-Keeps env f q.who placed

  -- The rest of it may execute the action.
  pub from_decision_launched :
      (t : Tenant) (x : Finding) (d : Decision) (who : Author)
      → ((a : Action) → Keeps R (launch env t d who a))
      → Keeps R (from_decision env t x d who)
  unfolding from_decision
  from_decision_launched t x d who launched =
      Keeps-if f.order _ _ _
        (Keeps-bind f.order _ _ (plan-Keeps _ _) λ a.
          Keeps-bind f.order _ _ (submit-Keeps env f d who a)
            λ b. Keeps-bind f.order _ _ (launched b) λ c. Keeps-pure f.order _)
        (Keeps-pure f.order _)

module _ (env : Env) {R : World → World → Type 0} (v : Served env R) where
  open v use {written as f}

  launch-Keeps :
      (t : Tenant) (d : Decision) (who : Author) (a : Action) → Keeps R (launch env t d who a)
  unfolding launch
  launch-Keeps t d who a = Keeps-if f.order _ _ _ (v.executing _ _ _) (Keeps-pure f.order _)

  pub from_decision-Keeps :
      (t : Tenant) (f : Finding) (d : Decision) (who : Author)
      → Keeps R (from_decision env t f d who)
  from_decision-Keeps t x d who =
      from_decision_launched env f v.placing t x d who (launch-Keeps t d who)

  expire_one-Keeps : (a : Action) → Keeps R (expire_one env a)
  unfolding expire_one
  expire_one-Keeps a =
      Keeps-if f.order _ _ _
        (Keeps-bind f.order _ _ (set_status-Keeps env f _ _ _ _ _) λ b. Keeps-pure f.order _)
        (Keeps-pure f.order _)

  expire_all-Keeps : (rows : List Action) → Keeps R (expire_all env rows)
  unfolding expire_all
  expire_all-Keeps [] = Keeps-pure f.order _
  expire_all-Keeps (a ∷ rows) =
      Keeps-bind f.order _ _ (expire_one-Keeps a)
        λ n. Keeps-bind f.order _ _ (expire_all-Keeps rows) λ m. Keeps-pure f.order _

  counted-world : (r : Result Action) (w : World) → (counted env r w).1 ≡ w
  counted-world (ok a) w = refl
  counted-world (err conflict) w = refl
  counted-world (err not_found) w = refl
  counted-world (err playbook_error) w = refl
  counted-world (err autonomy_refused) w = refl
  counted-world (err protected) w = refl

  undo_one-Keeps : (t : Tenant) (a : Action) → Keeps R (undo_one env t a)
  unfolding undo_one
  undo_one-Keeps t a = record {
    at = λ w. elim (Bool-cases (is_due a env.now)) [
      | inl e ↦
          let (r, w') = rollback env t a.action_id reaper w in
          rw e (rw (counted-world r w') ((v.undoing t a.action_id reaper).at w))
      | inr e ↦ rw e (f.order.stay w)
    ];
  }

  undo_all-Keeps : (t : Tenant) (rows : List Action) → Keeps R (undo_all env t rows)
  unfolding undo_all
  undo_all-Keeps t [] = Keeps-pure f.order _
  undo_all-Keeps t (a ∷ rows) =
      Keeps-bind f.order _ _ (undo_one-Keeps t a)
        λ n. Keeps-bind f.order _ _ (undo_all-Keeps t rows) λ m. Keeps-pure f.order _

  reap_tenant-Keeps : (t : Tenant) → Keeps R (reap_tenant env t)
  unfolding reap_tenant
  reap_tenant-Keeps t = record {
    at = λ w.
        (Keeps-bind f.order (expire_all env (list_page env t.tenant_id pending_approval w)) _
            (expire_all-Keeps _)
            λ n. record {
              at = λ w'.
                  (Keeps-bind f.order (undo_all env t (list_page env t.tenant_id succeeded w')) _
                      (undo_all-Keeps t _) λ m. Keeps-pure f.order _).at
                    w';
            }).at
          w;
  }

  reap_known-Keeps : (o : Option Tenant) → Keeps R (reap_known env o)
  reap_known-Keeps none = Keeps-pure f.order _
  reap_known-Keeps (some t) = reap_tenant-Keeps t

  reap_ids-Keeps : (ids : List String) → Keeps R (reap_ids env ids)
  unfolding reap_ids reap_one
  reap_ids-Keeps [] = Keeps-pure f.order _
  reap_ids-Keeps (i ∷ ids) =
      Keeps-bind f.order _ _ (record { at = λ w. (reap_known-Keeps _).at w })
        λ n. Keeps-bind f.order _ _ (reap_ids-Keeps ids) λ m. Keeps-pure f.order _

  reap-R : (id : Option String) (w : World) → R w (reap env id w).1
  unfolding reap
  reap-R none w = (reap_ids-Keeps _).at w
  reap-R (some id) w = elim (Bool-cases (non_empty id)) [
    | inl e ↦ rw e ((reap_ids-Keeps _).at w)
    | inr e ↦ rw e ((reap_ids-Keeps _).at w)
  ]

  -- Every request keeps the relation.
  pub serve-Keeps : (r : Request) (w : World) → R w (serve env r w)
  serve-Keeps (Request.plan t q) w = (plan-Keeps env f v.placing t q).at w
  serve-Keeps (Request.from_decision t d x who) w = (from_decision-Keeps t d x who).at w
  serve-Keeps (Request.approve t id who) w = (approve-Keeps env f t id who).at w
  serve-Keeps (Request.reject t id who) w = (reject-Keeps env f t id who).at w
  serve-Keeps (Request.execute t id who) w = (v.executing t id who).at w
  serve-Keeps (Request.rollback t id who) w = (v.undoing t id who).at w
  serve-Keeps (Request.reap id) w = reap-R id w
