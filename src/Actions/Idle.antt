-- ===== src/Actions/Idle.antt =====
-- Planning, approving and rejecting, and decisions that are not automatic, against the calls to
-- connectors.
use thot_secure.Prelude.{ℕ, zero, suc, ◌+◌, String, str_append, false, ◌≡◌, refl, ◌∙◌, arith}
use thot_secure.Value.{Dict}
use thot_secure.Model.{Tenant, Finding, Decision, Action, Status}
use thot_secure.Decision.Engine.{is_auto}
use thot_secure.Actions.World.{World, Env, Author, save, audit, notify}
use thot_secure.Actions.Keeps.{Keeps, Order, Keeps-pure}
use thot_secure.Actions.Engine.{place, launch, from_decision}
use thot_secure.Actions.Frame.{Written, approve-Keeps, reject-Keeps}
use thot_secure.Actions.Serving.{Placing, plan-Keeps, from_decision_launched}
use thot_secure.Actions.DryRun.{calls-place}
use thot_secure.Actions.Session.{Request, serve}

abbrev pub Idle : World → World → Type 0
Idle w w' = (w'.tenants ≡ w.tenants) × (w'.calls ≡ w.calls)

pub Idle-Order : Order Idle
Idle-Order = record { stay = λ w. (refl, refl); go = λ u v w (e, f) (g, h). (g ∙ e, h ∙ f) }

-- The requests that neither execute nor undo an action.
abbrev pub Paper : Request → Type 0
Paper (Request.plan t q) = Unit {0}
Paper (Request.approve t id who) = Unit {0}
Paper (Request.reject t id who) = Unit {0}
Paper _ = ⊥

module _ (env : Env) where
  save-Idle : (a : Action) → Keeps Idle (save env a)
  unfolding save
  save-Idle a = record { at = λ w. (ground arith, ground arith) }

  audit-Idle :
      (who : Author) (name : String) (before : Dict) (a : Action)
      → Keeps Idle (audit env who name before a)
  unfolding audit
  audit-Idle who name before a = record { at = λ w. (refl, refl) }

  notify-Idle : (a : Action) (s : Status) → Keeps Idle (notify env a s)
  unfolding notify
  notify-Idle a s = record { at = λ w. (refl, refl) }

  Idle-Written : Written env Idle
  Idle-Written = record {
    order = Idle-Order;
    saving = save-Idle;
    auditing = audit-Idle;
    notifying = notify-Idle;
  }

  tenants-place :
      (left attempt : ℕ) (a : Action) (base : String) (w : World)
      → (place env left attempt a base w).1.tenants ≡ w.tenants
  unfolding place
  tenants-place zero attempt a base w = refl
  tenants-place (suc left) attempt a base w = ground (
    arith,
    tenants-place left (attempt + 1)
        (record a {
          action_id = env.fresh (attempt + 1);
          idempotency_key = str_append base (str_append "#" (env.py.str_int (attempt + 1)));
        })
        base w,
  )

  place-Idle : Placing env Idle
  place-Idle t p q params target = record {
    at = λ w. (tenants-place _ _ _ _ w, calls-place env _ _ _ _ w);
  }

  launch-Idle :
      (t : Tenant) (d : Decision) (who : Author) (a : Action)
      → is_auto d.decision ≡ false
      → Keeps Idle (launch env t d who a)
  unfolding launch
  launch-Idle t d who a e = rw e (Keeps-pure Idle-Order a)

  pub from_decision-Idle :
      (t : Tenant) (x : Finding) (d : Decision) (who : Author)
      → is_auto d.decision ≡ false
      → Keeps Idle (from_decision env t x d who)
  from_decision-Idle t x d who e =
      from_decision_launched env Idle-Written place-Idle t x d who λ a. launch-Idle t d who a e

  pub serve-Idle : (r : Request) (w : World) → Paper r → Idle w (serve env r w)
  serve-Idle (Request.plan t q) w h = (plan-Keeps env Idle-Written place-Idle t q).at w
  serve-Idle (Request.approve t id who) w h = (approve-Keeps env Idle-Written t id who).at w
  serve-Idle (Request.reject t id who) w h = (reject-Keeps env Idle-Written t id who).at w
  serve-Idle (Request.from_decision t d x who) w h = absurd h
  serve-Idle (Request.execute t id who) w h = absurd h
  serve-Idle (Request.rollback t id who) w h = absurd h
  serve-Idle (Request.reap id) w h = absurd h
