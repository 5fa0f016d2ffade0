-- ===== src/Actions/Progress.antt =====
-- The writes of the action engine against the edges of an action's life.
use thot_secure.Prelude.{
  String, Bool, true, false, Option, none, some, List, [], ◌∷◌, ◌≡◌, refl, sym, ap, inl, inr, arith,
  Option-cases, if◌then◌else◌,
}
use mathlib.Core.Path.{subst}
use thot_secure.Value.{Dict}
use thot_secure.Model.{Action, Status}
use thot_secure.Storage.Actions.{is_row, get_action, written, write_rows, update_action}
use thot_secure.Actions.World.{
  World, Env, ActionError, M, continue, pure, raise, guard, expect, ◌>>◌, Author, save, audit,
  notify, ◌>>=◌, set_status, Result, ok, err,
}
use thot_secure.Actions.Lifecycle.{
  Kind, Reaches, here, Follows, Follows-trans, Evolves-refl, Allowed, write_rows-Follows,
}

update_action-write_rows :
    (b : Action) (rows rows' : List Action)
    → update_action b rows ≡ some rows'
    → rows' ≡ write_rows b rows
unfolding update_action
update_action-write_rows b rows rows' h = ground arith

pub Follows-refl : {k : Kind} (rows : List Action) → Follows k rows rows
Follows-refl rows t id a h = (a, h, Evolves-refl a)

-- The row of an action has its status.
abbrev pub Standing : Action → List Action → Type 0
Standing b rows =
    (r : Action) → get_action b.tenant_id b.action_id rows ≡ some r → r.status ≡ b.status

Standing-write_rows : (b : Action) (rows : List Action) → Standing b (write_rows b rows)
unfolding get_action write_rows is_row written
Standing-write_rows b [] r h = cc
Standing-write_rows b (x ∷ rows) r h = ground (arith, Standing-write_rows b rows r)

-- From this world on, `m` moves actions only along the edges of a kind of request, and what it returns
-- satisfies `Q` with the rows that it leaves.
pub record Moves (k : Kind) {A : Type 0} (Q : A → List Action → Type 0) (m : M A) (w : World)
    : Type 0 where
  pub follows : Follows k w.rows (m w).1.rows
  pub returned : (x : A) → (m w).0 ≡ ok x → Q x (m w).1.rows

abbrev pub Any : {A : Type 0} → A → List Action → Type 0
Any x rows = Unit {0}

pub Moves-same :
    {k : Kind} {A : Type 0} (m : M A) (w : World) → (m w).1.rows ≡ w.rows → Moves k Any m w
Moves-same m w e = record { follows = rw e (Follows-refl w.rows); returned = λ x h. tt }

returned_value : {A : Type 0} → A → Result A → A
returned_value a (ok x) = x
returned_value a (err e) = a

pub ok-injective : {A : Type 0} (a b : A) → ok a ≡ ok b → a ≡ b
unfolding returned_value
ok-injective a b h = ap (returned_value a) h

pub Moves-pure :
    {k : Kind} {A : Type 0} {Q : A → List Action → Type 0} (a : A) (w : World)
    → Q a w.rows
    → Moves k Q (pure a) w
Moves-pure {k} {A} {Q} a w q = record {
  follows = Follows-refl w.rows;
  returned = λ x k. subst (λ v. Q v w.rows) (ok-injective a x k) q;
}

pub Moves-raise :
    {k : Kind} {A : Type 0} {Q : A → List Action → Type 0} (e : ActionError) (w : World)
    → Moves k Q (raise e) w
Moves-raise e w = record { follows = Follows-refl w.rows; returned = λ x k. cc }

-- What follows a guard may use its test.
pub Moves-guard :
    {k : Kind} {B : Type 0} {S : B → List Action → Type 0} (b : Bool) (e : ActionError) (m : M B)
    (w : World)
    → (b ≡ true → Moves k S m w)
    → Moves k S (guard b e >> m) w
Moves-guard true e m w h = record { follows = (h refl).follows; returned = (h refl).returned }
Moves-guard false e m w h = record { follows = Follows-refl w.rows; returned = λ x c. cc }

-- What follows a value that is expected may use where it comes from.
pub Moves-expect :
    {k : Kind} {A B : Type 0} {S : B → List Action → Type 0} (o : Option A) (e : ActionError)
    (f : A → M B) (w : World)
    → ((a : A) → o ≡ some a → Moves k S (f a) w)
    → Moves k S (expect o e >>= f) w
Moves-expect none e f w h = record { follows = Follows-refl w.rows; returned = λ x c. cc }
Moves-expect (some a) e f w h = record {
  follows = (h a refl).follows;
  returned = (h a refl).returned;
}

pub Moves-if :
    {k : Kind} {B : Type 0} {S : B → List Action → Type 0} (b : Bool) (m n : M B) (w : World)
    → (b ≡ true → Moves k S m w)
    → (b ≡ false → Moves k S n w)
    → Moves k S (if b then m else n) w
Moves-if true m n w x y = x refl
Moves-if false m n w x y = y refl

module _ {k : Kind} {A B : Type 0} where
  Moves-continue :
      (Q : A → List Action → Type 0) (S : B → List Action → Type 0) (r : Result A) (f : A → M B)
      (u w : World)
      → Follows k u.rows w.rows
      → ((x : A) → r ≡ ok x → Q x w.rows)
      → ((x : A) → r ≡ ok x → Q x w.rows → Moves k S (f x) w)
      → Follows k u.rows (continue r f w).1.rows
        × ((y : B) → (continue r f w).0 ≡ ok y → S y (continue r f w).1.rows)
  Moves-continue Q S (err e) f u w follows q h = (follows, λ y k. cc)
  Moves-continue Q S (ok x) f u w follows q h =
      let rest = h x refl (q x refl) in
      (Follows-trans u.rows w.rows (f x w).1.rows follows rest.follows, rest.returned)

  pub Moves-bind :
      {Q : A → List Action → Type 0} {S : B → List Action → Type 0} (m : M A) (f : A → M B)
      (w : World)
      → Moves k Q m w
      → ((x : A) → (m w).0 ≡ ok x → Q x (m w).1.rows → Moves k S (f x) (m w).1)
      → Moves k S (m >>= f) w
  Moves-bind {Q} {S} m f w first h =
      let (follows, returned) =
        Moves-continue Q S (m w).0 f w (m w).1 first.follows first.returned h in
      record { follows = follows; returned = returned }

module _ (env : Env) where
  abbrev pub changed : Action → Status → Action
  changed a s = record a { status = s }

  pub save-Moves :
      {k : Kind} (b : Action) (w : World)
      → Allowed k b w.rows
      → Moves k (λ x rows. Standing b rows) (save env b) w
  unfolding save
  save-Moves b w h = elim (Option-cases (update_action b w.rows)) [
    | inl e ↦ record {
      follows = rw (e, save) (Follows-refl w.rows);
      returned = λ x k. ground arith;
    }
    | inr (rows, e) ↦
        let written = update_action-write_rows b w.rows rows e in
        record {
          follows = rw (e, save) (rw written (write_rows-Follows b w.rows h));
          returned = λ x k. rw (e, save) (rw written (Standing-write_rows b w.rows));
        }
  ]

  pub audit_rows :
      (who : Author) (name : String) (before : Dict) (a : Action) (w : World)
      → (audit env who name before a w).1.rows ≡ w.rows
  unfolding audit
  audit_rows who name before a w = refl

  pub notify_rows : (a : Action) (s : Status) (w : World) → (notify env a s w).1.rows ≡ w.rows
  unfolding notify
  notify_rows a s w = refl

  pub set_status-Moves :
      {k : Kind} (a : Action) (s : Status) (who : Author) (name : String) (before : Dict)
      (w : World)
      → Allowed k (changed a s) w.rows
      → Moves k (λ b rows. Standing b rows × (b.status ≡ s)) (set_status env a s who name before) w
  unfolding set_status
  set_status-Moves {k} a s who name before w h =
      let c = changed a s in
      let w1 = (save env c w).1 in
      Moves-bind (save env c) _ w (save-Moves c w h) λ x e standing.
        let w2 = (audit env who name before c w1).1 in
        Moves-bind (audit env who name before c) _ w1
          (Moves-same (audit env who name before c) w1 (audit_rows who name before c w1))
          λ seq e' q.
            let b = record c { audit_seq = some seq } in
            let w3 = (save env b w2).1 in
            Moves-bind (save env b) _ w2
              (save-Moves b w2 (λ r found.
                subst (λ x. Reaches k r.dry_run x s)
                  (sym (standing r (rw (audit_rows who name before c w1) at found))) here))
              λ y e'' standing'.
                let w4 = (notify env b s w3).1 in
                Moves-bind (notify env b s) _ w3
                  (Moves-same (notify env b s) w3 (notify_rows b s w3))
                  λ z e3 q'.
                    Moves-pure b w4 (subst (Standing b) (sym (notify_rows b s w3)) standing', refl)
