-- ===== src/Actions/DryRun.antt =====
-- The global dry run against the stored actions.
use thot_secure.Prelude.{
  ℕ, zero, suc, ◌+◌, String, str_append, true, some, List, [], ◌∷◌, ◌++◌, ◌≡◌, refl, arith,
  Bool-cases, Option-cases, inl, inr, ◌⊎◌,
}
use thot_secure.Value.{Dict}
use thot_secure.Model.{Tenant, Action, Status, Token}
use thot_secure.Storage.Actions.{
  is_row, get_action, written, write_rows, update_action, insert_action, Inserted, stored, refused,
  StoreError,
}
use thot_secure.Actions.World.{Playbook, World, Env, Author, save, audit, notify}
use thot_secure.Actions.Keeps.{Keeps, Order}
use thot_secure.Actions.Engine.{active_holder, place, run_playbook, run_rollback}
use thot_secure.Actions.Frame.{Written}

abbrev pub DryRows : List Action → Type 0
DryRows [] = Unit
DryRows (a ∷ rows) = (a.dry_run ≡ true) × DryRows rows

write_rows-DryRows : (a : Action) (rows : List Action) → DryRows rows → DryRows (write_rows a rows)
unfolding write_rows written
write_rows-DryRows a [] h = tt
write_rows-DryRows a (row ∷ rows) (e, h) = (ground arith, write_rows-DryRows a rows h)

update_action-rows :
    (a : Action) (rows rows' : List Action)
    → update_action a rows ≡ some rows'
    → rows' ≡ write_rows a rows
unfolding update_action
update_action-rows a rows rows' h = ground arith

insert_action-rows :
    (a : Action) (rows rows' : List Action)
    → insert_action a rows ≡ stored rows'
    → rows' ≡ rows ++ a ∷ []
unfolding insert_action
insert_action-rows a rows rows' h = ground arith

Inserted-cases :
    (x : Inserted)
    → ((rows : List Action) × (x ≡ stored rows)) ⊎ ((e : StoreError) × (x ≡ refused e))
Inserted-cases (stored rows) = inl (rows, refl)
Inserted-cases (refused e) = inr (e, refl)

append-DryRows :
    (rows : List Action) (a : Action) → DryRows rows → a.dry_run ≡ true → DryRows (rows ++ a ∷ [])
append-DryRows [] a h e = (e, tt)
append-DryRows (row ∷ rows) a (d, h) e = (d, append-DryRows rows a h e)

pub get_action-dry_run :
    (t id : String) (a : Action) (rows : List Action)
    → DryRows rows
    → get_action t id rows ≡ some a
    → a.dry_run ≡ true
unfolding get_action
get_action-dry_run t id a [] h e = cc
get_action-dry_run t id a (row ∷ rows) (d, h) e = elim (Bool-cases (is_row t id row)) [
  | inl b ↦ ground arith
  | inr b ↦ get_action-dry_run t id a rows h (ground arith)
]

-- Planned actions stay dry runs.
abbrev pub Harmless : World → World → Type 0
Harmless w w' = DryRows w.rows → DryRows w'.rows

Harmless-Order : Order Harmless
Harmless-Order = record { stay = λ w h. h; go = λ u v w f g h. g (f h) }

module _ (env : Env) where
  pub save-Harmless : (a : Action) → Keeps Harmless (save env a)
  unfolding save
  save-Harmless a = record {
    at = λ w h. elim (Option-cases (update_action a w.rows)) [
      | inl e ↦ rw (e, save) h
      | inr (rows, e) ↦
          rw (e, save) (rw (update_action-rows a w.rows rows e) (write_rows-DryRows a w.rows h))
    ];
  }

  pub audit-Harmless :
      (who : Author) (name : String) (before : Dict) (a : Action)
      → Keeps Harmless (audit env who name before a)
  unfolding audit
  audit-Harmless who name before a = record { at = λ w h. h }

  notify-Harmless : (a : Action) (s : Status) → Keeps Harmless (notify env a s)
  unfolding notify
  notify-Harmless a s = record { at = λ w h. h }

  pub Harmless-Written : Written env Harmless
  Harmless-Written = record {
    order = Harmless-Order;
    saving = save-Harmless;
    auditing = audit-Harmless;
    notifying = notify-Harmless;
  }

  pub rows-run_playbook :
      (t : Tenant) (a : Action) (p : Playbook) → Keeps Harmless (run_playbook env t a p)
  unfolding run_playbook
  rows-run_playbook t a p = record { at = λ w h. h }

  pub rows-run_rollback :
      (t : Tenant) (a : Action) (token : Token) → Keeps Harmless (run_rollback env t a token)
  unfolding run_rollback
  rows-run_rollback t a token = record { at = λ w h. h }

  pub place_dry :
      (left attempt : ℕ) (a : Action) (base : String) (w : World)
      → a.dry_run ≡ true
      → DryRows w.rows
      → DryRows (place env left attempt a base w).1.rows
  unfolding place
  place_dry zero attempt a base w d h = h
  place_dry (suc left) attempt a base w d h = elim (Inserted-cases (insert_action a w.rows)) [
    | inl (rows, e) ↦
        rw (e, place) (rw (insert_action-rows a w.rows rows e) (append-DryRows w.rows a h d))
    | inr (x, e) ↦ elim (Option-cases (active_holder env a.tenant_id x w)) [
      | inl f ↦
          rw (e, place)
            (rw (f, place)
              (place_dry left (attempt + 1)
                (record a {
                  action_id = env.fresh (attempt + 1);
                  idempotency_key = str_append base (str_append "#" (env.py.str_int (attempt + 1)));
                })
                base w d h))
      | inr (b, f) ↦ rw (e, place) (rw (f, place) h)
    ]
  ]

  pub calls-place :
      (left attempt : ℕ) (a : Action) (base : String) (w : World)
      → (place env left attempt a base w).1.calls ≡ w.calls
  unfolding place
  calls-place zero attempt a base w = refl
  calls-place (suc left) attempt a base w = ground (
    arith,
    calls-place left (attempt + 1)
        (record a {
          action_id = env.fresh (attempt + 1);
          idempotency_key = str_append base (str_append "#" (env.py.str_int (attempt + 1)));
        })
        base w,
  )
