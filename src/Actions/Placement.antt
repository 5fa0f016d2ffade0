-- ===== src/Actions/Placement.antt =====
-- The loop of `plan` that inserts a new action, against the edges of its life.
use thot_secure.Prelude.{
  ℕ, zero, suc, ◌+◌, String, true, false, none, some, List, [], ◌∷◌, ◌++◌, ◌≡◌, refl, sym, ◌∙◌, ap,
  inl, inr, ◌⊎◌, arith, Bool-cases, Option-cases, str_append, any, str_eq,
}
use mathlib.Core.Path.{subst}
use thot_secure.Model.{
  Action, Status, planned, pending_approval, approved, rejected, executing, succeeded, failed,
  expired, rolled_back,
}
use thot_secure.Storage.Actions.{
  is_row, get_action, status_in, insert_action, stored, refused, find_action_by_idempotency,
  StoreError, key_conflict, id_conflict, action_not_found,
}
use thot_secure.Storage.Rows.{get_action_key, get_action-append}
use thot_secure.Actions.World.{World, Env, M, pure, Result, ok}
use thot_secure.Actions.Lifecycle.{Kind, Evolves-refl, Follows}
use thot_secure.Actions.Progress.{Moves, Standing, Moves-pure, Follows-refl}
use thot_secure.Actions.Course.{some_value}
use thot_secure.Actions.Engine.{Placed, inserted, reused, active_holder, place}

Follows-append : {k : Kind} (rows : List Action) (x : Action) → Follows k rows (rows ++ x ∷ [])
Follows-append rows x t id a h = (a, get_action-append t id rows a x h, Evolves-refl a)

Standing-append :
    (x : Action) (rows : List Action)
    → any (λ r. str_eq r.action_id x.action_id) rows ≡ false
    → Standing x (rows ++ x ∷ [])
unfolding get_action is_row
Standing-append x [] h r e = ground arith
Standing-append x (y ∷ rows) h r e = ground (arith, Standing-append x rows (ground arith) r)

-- How an insertion ends.
insert-cases :
    (a : Action) (rows : List Action)
    → ((insert_action a rows ≡ stored (rows ++ a ∷ []))
        × (any (λ r. str_eq r.action_id a.action_id) rows ≡ false))
      ⊎ ((e : StoreError) × (insert_action a rows ≡ refused e))
unfolding insert_action
insert-cases a rows = elim (Bool-cases (any (λ r. str_eq r.action_id a.action_id) rows)) [
  | inl e ↦ inr (rw e (_, refl))
  | inr e ↦ elim (Option-cases (find_action_by_idempotency a.idempotency_key rows)) [
    | inl f ↦ inl (rw e (rw f (refl, refl)))
    | inr (x, f) ↦ inr (rw e (rw f (_, refl)))
  ]
]

-- The action of a placement.
abbrev pub placed_action : Placed → Action
placed_action (inserted a) = a
placed_action (reused a) = a

Standing-found :
    (t id : String) (rows : List Action) (a : Action)
    → get_action t id rows ≡ some a
    → Standing a rows
Standing-found t id rows a found r h =
    ap (λ (x : Action). x.status)
      (sym (ap (some_value a) (sym (get_action_key t id rows a found) ∙ h)))

pub planned_only : (s : Status) → status_in s (planned ∷ []) ≡ true → s ≡ planned
unfolding status_in
planned_only planned h = refl
planned_only pending_approval h = cc
planned_only approved h = cc
planned_only rejected h = cc
planned_only executing h = cc
planned_only succeeded h = cc
planned_only failed h = cc
planned_only expired h = cc
planned_only rolled_back h = cc

module _ (env : Env) where
  active_holder-Standing :
      (t : String) (e : StoreError) (w : World) (x : Action)
      → active_holder env t e w ≡ some x
      → Standing x w.rows
  unfolding active_holder
  active_holder-Standing t id_conflict w x h = cc
  active_holder-Standing t action_not_found w x h = cc
  active_holder-Standing t (key_conflict id) w x h = Standing-found t id w.rows x (ground arith)

  -- A computation that ends as another one does.
  Moves-as :
      {k : Kind} {A : Type 0} (Q : A → List Action → Type 0) (m m' : M A) (w : World)
      → m w ≡ m' w
      → Moves k Q m' w
      → Moves k Q m w
  Moves-as {k} {A} Q m m' w e h = record {
    follows = subst (λ (p : Result A × World). Follows k w.rows p.1.rows) (sym e) h.follows;
    returned =
        subst (λ (p : Result A × World). (x : A) → p.0 ≡ ok x → Q x p.1.rows) (sym e) h.returned;
  }

  -- The action of the next attempt.
  abbrev again : ℕ → Action → String → Action
  again attempt a base = record a {
    action_id = env.fresh (attempt + 1);
    idempotency_key = str_append base (str_append "#" (env.py.str_int (attempt + 1)));
  }

  abbrev PlacedWell : Placed → List Action → Type 0
  PlacedWell p rows = Standing (placed_action p) rows

  module _ (left attempt : ℕ) (a : Action) (base : String) (w : World) where
    place_stored :
        (rows : List Action)
        → insert_action a w.rows ≡ stored rows
        → place env (suc left) attempt a base w ≡ (ok (inserted a), record w { rows = rows })
    unfolding place
    place_stored rows e = rw (e, place) refl

    place_reused :
        (x : StoreError) (holder : Action)
        → insert_action a w.rows ≡ refused x
        → active_holder env a.tenant_id x w ≡ some holder
        → place env (suc left) attempt a base w ≡ (ok (reused holder), w)
    unfolding place
    place_reused x holder e f = rw (e, place) (rw f refl)

    place-again :
        (x : StoreError)
        → insert_action a w.rows ≡ refused x
        → active_holder env a.tenant_id x w ≡ none
        → place env (suc left) attempt a base w
          ≡ place env left (attempt + 1) (again attempt a base) base w
    unfolding place
    place-again x e f = rw (e, place) (rw f refl)

    stored-Moves :
        {k : Kind}
        → insert_action a w.rows ≡ stored (w.rows ++ a ∷ [])
        → any (λ r. str_eq r.action_id a.action_id) w.rows ≡ false
        → Moves k PlacedWell (place env (suc left) attempt a base) w
    stored-Moves {k} e absent =
        let new : World = record w { rows = w.rows ++ a ∷ [] } in
        Moves-as PlacedWell (place env (suc left) attempt a base) (λ v. (ok (inserted a), new)) w
          (place_stored (w.rows ++ a ∷ []) e)
          (record {
            follows = Follows-append w.rows a;
            returned =
                (Moves-pure {k = k} {Q = PlacedWell} (inserted a) new
                  (Standing-append a w.rows absent)).returned;
          })

  pub place-Moves :
      {k : Kind} (left attempt : ℕ) (a : Action) (base : String) (w : World)
      → Moves k PlacedWell (place env left attempt a base) w
  unfolding place
  place-Moves zero attempt a base w = record { follows = Follows-refl w.rows; returned = λ x k. cc }
  place-Moves (suc left) attempt a base w = elim (insert-cases a w.rows) [
    | inl (e, absent) ↦ stored-Moves left attempt a base w e absent
    | inr (x, e) ↦ elim (Option-cases (active_holder env a.tenant_id x w)) [
      | inl f ↦
          Moves-as PlacedWell (place env (suc left) attempt a base)
            (place env left (attempt + 1) (again attempt a base) base) w
            (place-again left attempt a base w x e f)
            (place-Moves left (attempt + 1) (again attempt a base) base w)
      | inr (holder, f) ↦
          Moves-as PlacedWell (place env (suc left) attempt a base) (pure (reused holder)) w
            (place_reused left attempt a base w x holder e f)
            (Moves-pure (reused holder) w (active_holder-Standing a.tenant_id x w holder f))
    ]
  ]
