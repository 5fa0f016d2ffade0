-- ===== src/Pipeline/Terms.antt =====
-- What each part of the pipeline has to keep of the world and the policies.
use thot_secure.Prelude.{ℕ, String, some, List, [], ◌∷◌, ◌≡◌}
use thot_secure.Model.{Tenant, Finding}
use thot_secure.Detection.Engine.{MatchResult}
use thot_secure.Decision.Engine.{DecisionEngine, decide}
use thot_secure.Audit.Defs.{Entry}
use thot_secure.Actions.World.{Author}
use thot_secure.Actions.Keeps.{Order}
use thot_secure.Actions.Engine.{from_decision}
use thot_secure.Actions.Session.{Turn, env_at, serve}
use thot_secure.Pipeline.{Pipeline, Moment, Setup, View, view, env_of, get_tenant, record_audit}
use thot_secure.Pipeline.Upsert.{upsert_finding}
use thot_secure.Pipeline.React.{policy_engine, context_of}
use thot_secure.Pipeline.Review.{Transition, review}
use thot_secure.Pipeline.Session.{Task, requesting}

-- What is kept, if it is `Ready` at the start, of the tenants that are treated and of the requests.
pub record Terms : Type 1 where
  pub Kept : View → View → Type 0
  pub Ready : View → Type 0
  pub Fits : Tenant → View → Type 0
  pub Allowed : Turn → Type 0

-- Whether the requests among the tasks are allowed.
abbrev pub Tame : (Turn → Type 0) → List Task → Type 0
Tame q [] = Unit {0}
Tame q (requesting turn ∷ tasks) = q turn × Tame q tasks
Tame q (_ ∷ tasks) = Tame q tasks

pub record Parts (s : Setup) (c : Terms) : Type 0 where
  pub order : Order c.Kept
  pub ready : (v w : View) → c.Kept v w → c.Ready v → c.Ready w
  pub fits : (t : Tenant) (v w : View) → c.Kept v w → c.Fits t v → c.Fits t w
  pub entering :
      (id : String) (t : Tenant) (v : View)
      → c.Ready v
      → get_tenant id v.0.tenants ≡ some t
      → c.Fits t v
  pub auditing : (e : Entry) (p : Pipeline) → c.Kept (view p) (view (record_audit s e p))
  pub upserting :
      (at : Moment) (i : ℕ) (m : MatchResult) (t : Tenant) (p : Pipeline)
      → c.Kept (view p) (view (upsert_finding s at i m t p).1)
  pub acting :
      (at : Moment) (i : ℕ) (t : Tenant) (f : Finding) (e : DecisionEngine) (v : View)
      → e.policies ≡ v.1
      → c.Fits t v
      → c.Kept v (
        (from_decision
            (env_of s at i)
            t
            f
            (decide s.env.py e (context_of s at f t)).0
            policy_engine
            v.0).1,
        v.1,
      )
  pub transiting :
      (now : ℕ) (tenant_id : String) (who : Author) (x : Transition) (id : String) (p : Pipeline)
      → c.Kept (view p) (view (review s now tenant_id who x id p).1)
  pub serving :
      (turn : Turn) (v : View)
      → c.Allowed turn
      → c.Kept v (serve (env_at s.env turn) turn.request v.0, v.1)
