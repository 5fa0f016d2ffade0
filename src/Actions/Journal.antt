-- ===== src/Actions/Journal.antt =====
-- What the methods of the action engine do to the audit log.
use thot_secure.Prelude.{
  ℕ, zero, suc, ◌+◌, String, List, [], ◌∷◌, ◌++◌, ◌≡◌, refl, sym, ◌∙◌, ap, arith, str_append,
}
use thot_secure.Value.{Dict}
use thot_secure.Platform.{Platform}
use thot_secure.Model.{Tenant, Action, Status, Token}
use thot_secure.Audit.Defs.{AuditLog, Entry, append_audit}
use thot_secure.Audit.Chain.{append_all}
use thot_secure.Actions.World.{Playbook, World, Env, M, Author, save, audit, notify}
use thot_secure.Actions.Keeps.{Keeps, Order}
use thot_secure.Actions.Engine.{place, run_playbook, run_rollback}
use thot_secure.Actions.Frame.{Written, execute-Keeps, rollback-Keeps}
use thot_secure.Actions.Serving.{Served}

module _ (py : Platform) where
  -- The log after is the log before with new records appended.
  abbrev pub Grows : World → World → Type 0
  Grows w w' = (es : List Entry) × (w'.log ≡ append_all py es w.log)

  append_all-append :
      (es fs : List Entry) (log : AuditLog)
      → append_all py (es ++ fs) log ≡ append_all py fs (append_all py es log)
  append_all-append [] fs log = refl
  append_all-append (e ∷ es) fs log = append_all-append es fs (append_audit py e log).1

  pub Grows-Order : Order Grows
  Grows-Order = record {
    stay = λ w. ([], refl);
    go = λ u v w (es, e) (fs, f).
        (es ++ fs, f ∙ ap (append_all py fs) e ∙ sym (append_all-append es fs u.log));
  }

module _ (env : Env) where
  abbrev pub Journal : {A : Type 0} → M A → Type 0
  Journal m = Keeps (Grows env.py) m

  abbrev pub order : Order (Grows env.py)
  order = Grows-Order env.py

  log-save : (a : Action) (w : World) → (save env a w).1.log ≡ w.log
  unfolding save
  log-save a w = ground arith

  save-Keeps : (a : Action) → Journal (save env a)
  save-Keeps a = record { at = λ w. ([], log-save a w) }

  audit-Keeps :
      (who : Author) (name : String) (before : Dict) (a : Action)
      → Journal (audit env who name before a)
  unfolding audit append_audit
  audit-Keeps who name before a = record { at = λ w. (_ ∷ [], refl) }

  notify-Keeps : (a : Action) (s : Status) → Journal (notify env a s)
  unfolding notify
  notify-Keeps a s = record { at = λ w. ([], refl) }

  run_playbook-Keeps : (t : Tenant) (a : Action) (p : Playbook) → Journal (run_playbook env t a p)
  unfolding run_playbook
  run_playbook-Keeps t a p = record { at = λ w. ([], refl) }

  run_rollback-Keeps :
      (t : Tenant) (a : Action) (token : Token) → Journal (run_rollback env t a token)
  unfolding run_rollback
  run_rollback-Keeps t a token = record { at = λ w. ([], refl) }

  log-place :
      (left attempt : ℕ) (a : Action) (base : String) (w : World)
      → (place env left attempt a base w).1.log ≡ w.log
  unfolding place
  log-place zero attempt a base w = refl
  log-place (suc left) attempt a base w = ground (
    arith,
    log-place left (attempt + 1)
        (record a {
          action_id = env.fresh (attempt + 1);
          idempotency_key = str_append base (str_append "#" (env.py.str_int (attempt + 1)));
        })
        base w,
  )

  place-Keeps :
      (left attempt : ℕ) (a : Action) (base : String) → Journal (place env left attempt a base)
  place-Keeps left attempt a base = record { at = λ w. ([], log-place left attempt a base w) }

  pub Grows-Written : Written env (Grows env.py)
  Grows-Written = record {
    order = order;
    saving = save-Keeps;
    auditing = audit-Keeps;
    notifying = notify-Keeps;
  }

  pub Grows-Served : Served env (Grows env.py)
  Grows-Served = record {
    written = Grows-Written;
    placing = λ t p q params target. place-Keeps _ _ _ _;
    executing = execute-Keeps env Grows-Written run_playbook-Keeps;
    undoing = rollback-Keeps env Grows-Written run_rollback-Keeps;
  }
