-- ===== src/Actions/Untouched.antt =====
-- The findings over the requests to the action engine.
use thot_secure.Prelude.{ℕ, zero, suc, ◌+◌, String, ◌≡◌, refl, ◌∙◌, arith, str_append}
use thot_secure.Value.{Dict}
use thot_secure.Model.{Tenant, Action, Status, Token}
use thot_secure.Actions.World.{Playbook, World, Env, Author, save, audit, notify}
use thot_secure.Actions.Keeps.{Keeps, Order}
use thot_secure.Actions.Engine.{place, run_playbook, run_rollback}
use thot_secure.Actions.Frame.{Written, execute-Keeps, rollback-Keeps}
use thot_secure.Actions.Serving.{Served}

abbrev pub Untouched : World → World → Type 0
Untouched w w' = w'.findings ≡ w.findings

Untouched-Order : Order Untouched
Untouched-Order = record { stay = λ w. refl; go = λ u v w e f. f ∙ e }

module _ (env : Env) where
  save-Untouched : (a : Action) → Keeps Untouched (save env a)
  unfolding save
  save-Untouched a = record { at = λ w. ground arith }

  audit-Untouched :
      (who : Author) (name : String) (before : Dict) (a : Action)
      → Keeps Untouched (audit env who name before a)
  unfolding audit
  audit-Untouched who name before a = record { at = λ w. refl }

  notify-Untouched : (a : Action) (s : Status) → Keeps Untouched (notify env a s)
  unfolding notify
  notify-Untouched a s = record { at = λ w. refl }

  run_playbook-Untouched :
      (t : Tenant) (a : Action) (p : Playbook) → Keeps Untouched (run_playbook env t a p)
  unfolding run_playbook
  run_playbook-Untouched t a p = record { at = λ w. refl }

  run_rollback-Untouched :
      (t : Tenant) (a : Action) (token : Token) → Keeps Untouched (run_rollback env t a token)
  unfolding run_rollback
  run_rollback-Untouched t a token = record { at = λ w. refl }

  findings-place :
      (left attempt : ℕ) (a : Action) (base : String) (w : World)
      → (place env left attempt a base w).1.findings ≡ w.findings
  unfolding place
  findings-place zero attempt a base w = refl
  findings-place (suc left) attempt a base w = ground (
    arith,
    findings-place left (attempt + 1)
        (record a {
          action_id = env.fresh (attempt + 1);
          idempotency_key = str_append base (str_append "#" (env.py.str_int (attempt + 1)));
        })
        base w,
  )

  Untouched-Written : Written env Untouched
  Untouched-Written = record {
    order = Untouched-Order;
    saving = save-Untouched;
    auditing = audit-Untouched;
    notifying = notify-Untouched;
  }

  pub Untouched-Served : Served env Untouched
  Untouched-Served = record {
    written = Untouched-Written;
    placing = λ t p q params target. record { at = λ w. findings-place _ _ _ _ w };
    executing = execute-Keeps env Untouched-Written run_playbook-Untouched;
    undoing = rollback-Keeps env Untouched-Written run_rollback-Untouched;
  }
