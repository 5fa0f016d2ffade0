-- ===== src/Actions/Session.antt =====
-- Sequences of requests to the action engine, each at its own time and with its own identifiers.
use thot_secure.Prelude.{ℕ, String, Option, List, [], ◌∷◌}
use thot_secure.Model.{Tenant, Finding, Decision}
use thot_secure.Actions.World.{World, Env, Author}
use thot_secure.Actions.Engine
use thot_secure.Actions.Engine.{PlanRequest}
use thot_secure.Actions.Reap

pub data Request : Type 0 where
  plan : Tenant → PlanRequest → Request
  from_decision : Tenant → Finding → Decision → Author → Request
  approve reject execute rollback : Tenant → String → Author → Request
  reap : Option String → Request

-- The world after a request; what it returns or raises is for the caller.
abbrev pub serve : Env → Request → World → World
serve env (plan t q) w = (Engine.plan env t q w).1
serve env (from_decision t f d who) w = (Engine.from_decision env t f d who w).1
serve env (approve t id who) w = (Engine.approve env t id who w).1
serve env (reject t id who) w = (Engine.reject env t id who w).1
serve env (execute t id who) w = (Engine.execute env t id who w).1
serve env (rollback t id who) w = (Engine.rollback env t id who w).1
serve env (reap id) w = (Reap.reap env id w).1

pub record Turn : Type 0 where
  pub now : ℕ
  pub fresh : ℕ → String
  pub request : Request

abbrev pub env_at : Env → Turn → Env
env_at env turn = record env { now = turn.now; fresh = turn.fresh }

abbrev pub serve_all : Env → List Turn → World → World
serve_all env [] w = w
serve_all env (turn ∷ turns) w = serve_all env turns (serve (env_at env turn) turn.request w)
