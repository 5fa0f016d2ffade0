-- ===== src/Actions/Keeps.antt =====
-- Relations between the world before and after a method, one rule for each way to build it.
use thot_secure.Prelude.{Bool, true, false, Option, none, some, if◌then◌else◌}
use thot_secure.Actions.World.{
  World, ActionError, Result, ok, err, M, pure, raise, continue, ◌>>=◌, ◌>>◌, guard, expect,
}

-- `m` relates the world before to the world after, whether it returns or raises.
pub record Keeps {A : Type 0} (R : World → World → Type 0) (m : M A) : Type 0 where
  pub at : (w : World) → R w (m w).1

-- A relation that one can follow over several steps.
pub record Order {A : Type 0} (R : A → A → Type 0) : Type 0 where
  pub stay : (w : A) → R w w
  pub go : (u v w : A) → R u v → R v w → R u w

module _ {R : World → World → Type 0} (o : Order R) where
  pub Keeps-pure : {A : Type 0} (a : A) → Keeps R (pure a)
  Keeps-pure a = record { at = λ w. o.stay w }

  pub Keeps-raise : {A : Type 0} (e : ActionError) → Keeps R (raise {A = A} e)
  Keeps-raise e = record { at = λ w. o.stay w }

  pub Keeps-guard : (b : Bool) (e : ActionError) → Keeps R (guard b e)
  Keeps-guard true e = record { at = λ w. o.stay w }
  Keeps-guard false e = record { at = λ w. o.stay w }

  pub Keeps-expect : {A : Type 0} (x : Option A) (e : ActionError) → Keeps R (expect x e)
  Keeps-expect none e = record { at = λ w. o.stay w }
  Keeps-expect (some a) e = record { at = λ w. o.stay w }

  continue-R :
      {A B : Type 0} (r : Result A) (f : A → M B) (w : World)
      → ((a : A) → Keeps R (f a))
      → R w (continue r f w).1
  continue-R (ok a) f w h = (h a).at w
  continue-R (err e) f w h = o.stay w

  pub Keeps-bind :
      {A B : Type 0} (m : M A) (f : A → M B)
      → Keeps R m
      → ((a : A) → Keeps R (f a))
      → Keeps R (m >>= f)
  Keeps-bind m f km kf = record {
    at = λ w.
        o.go w (m w).1 (continue (m w).0 f (m w).1).1 (km.at w) (continue-R (m w).0 f (m w).1 kf);
  }

  -- A guard, and what follows it.
  pub Keeps-guarded :
      {B : Type 0} (b : Bool) (e : ActionError) (k : M B) → Keeps R k → Keeps R (guard b e >> k)
  Keeps-guarded true e k h = record { at = λ w. h.at w }
  Keeps-guarded false e k h = record { at = λ w. o.stay w }

  pub Keeps-if :
      {A : Type 0} (b : Bool) (m n : M A) → Keeps R m → Keeps R n → Keeps R (if b then m else n)
  Keeps-if true m n km kn = km
  Keeps-if false m n km kn = kn
