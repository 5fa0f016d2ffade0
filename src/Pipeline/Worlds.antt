-- ===== src/Pipeline/Worlds.antt =====
-- What any sequence of tasks keeps of the world, with no condition on the tenants and the policies.
use thot_secure.Prelude.{ℕ, String, List, [], ◌∷◌}
use thot_secure.Model.{Tenant, Finding, Decision}
use thot_secure.Detection.Engine.{MatchResult}
use thot_secure.Audit.Defs.{Entry}
use thot_secure.Actions.World.{World, Author}
use thot_secure.Actions.Keeps.{Order}
use thot_secure.Actions.Engine.{from_decision}
use thot_secure.Actions.Session.{Turn, env_at, serve}
use thot_secure.Pipeline.{Pipeline, Moment, Setup, OnWorlds, env_of, record_audit}
use thot_secure.Pipeline.Upsert.{upsert_finding}
use thot_secure.Pipeline.React.{policy_engine}
use thot_secure.Pipeline.Review.{Transition, review}
use thot_secure.Pipeline.Terms.{Terms, Tame}
use thot_secure.Pipeline.Terms
use thot_secure.Pipeline.Frame
use thot_secure.Pipeline.Session.{Task, ingesting, replaying, reviewing, requesting, perform_all}

pub record Parts (s : Setup) (R : World → World → Type 0) : Type 0 where
  pub order : Order R
  pub auditing : (e : Entry) (p : Pipeline) → R p.world (record_audit s e p).world
  pub upserting :
      (at : Moment) (i : ℕ) (m : MatchResult) (t : Tenant) (p : Pipeline)
      → R p.world (upsert_finding s at i m t p).1.world
  pub acting :
      (at : Moment) (i : ℕ) (t : Tenant) (f : Finding) (d : Decision) (w : World)
      → R w (from_decision (env_of s at i) t f d policy_engine w).1
  pub transiting :
      (now : ℕ) (tenant_id : String) (who : Author) (x : Transition) (id : String) (p : Pipeline)
      → R p.world (review s now tenant_id who x id p).1.world
  pub serving : (turn : Turn) (w : World) → R w (serve (env_at s.env turn) turn.request w)

pub Order-OnWorlds : {R : World → World → Type 0} → Order R → Order (OnWorlds R)
Order-OnWorlds o = record { stay = λ v. o.stay v.0; go = λ u v w. o.go u.0 v.0 w.0 }

abbrev unconditional : (World → World → Type 0) → Terms
unconditional R = record {
  Kept = OnWorlds R;
  Ready = λ v. Unit {0};
  Fits = λ t v. Unit {0};
  Allowed = λ turn. Unit {0};
}

all-Tame : (tasks : List Task) → Tame (λ turn. Unit {0}) tasks
all-Tame [] = tt
all-Tame (ingesting now at who process events ∷ tasks) = all-Tame tasks
all-Tame (replaying at ∷ tasks) = all-Tame tasks
all-Tame (reviewing now tenant_id who x id ∷ tasks) = all-Tame tasks
all-Tame (requesting turn ∷ tasks) = (tt, all-Tame tasks)

module _ (s : Setup) {R : World → World → Type 0} (k : Parts s R) where
  all_parts : Terms.Parts s (unconditional R)
  all_parts = record {
    order = Order-OnWorlds k.order;
    ready = λ v w e h. tt;
    fits = λ t v w e h. tt;
    entering = λ id t v h e. tt;
    auditing = k.auditing;
    upserting = k.upserting;
    acting = λ at i t f e v same fit. k.acting at i t f _ v.0;
    transiting = k.transiting;
    serving = λ turn v allowed. k.serving turn v.0;
  }

  pub perform_all-R : (tasks : List Task) (p : Pipeline) → R p.world (perform_all s tasks p).world
  perform_all-R tasks p = Frame.perform_all-R s all_parts tasks p (all-Tame tasks) tt
