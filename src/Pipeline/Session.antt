-- ===== src/Pipeline/Session.antt =====
-- Everything that the program may be asked to do with events, findings and actions, in any order.
use thot_secure.Prelude.{ℕ, String, Bool, List, [], ◌∷◌}
use thot_secure.Detection.Engine.{Event}
use thot_secure.Actions.World.{Author}
use thot_secure.Actions.Session.{Turn, env_at, serve}
use thot_secure.Pipeline.{Pipeline, Moment, Setup}
use thot_secure.Pipeline.Ingest.{ingest, replay_pending}
use thot_secure.Pipeline.Review.{Transition, review}

pub data Task : Type 0 where
  ingesting : ℕ → (ℕ → Moment) → Author → Bool → List Event → Task
  replaying : (ℕ → Moment) → Task
  reviewing : ℕ → String → Author → Transition → String → Task
  requesting : Turn → Task

abbrev pub perform : Setup → Task → Pipeline → Pipeline
perform s (ingesting now at who process events) p = (ingest s now at who process events p).1
perform s (replaying at) p = (replay_pending s at p).1
perform s (reviewing now tenant_id who x id) p = (review s now tenant_id who x id p).1
perform s (requesting turn) p = record p { world = serve (env_at s.env turn) turn.request p.world }

abbrev pub perform_all : Setup → List Task → Pipeline → Pipeline
perform_all s [] p = p
perform_all s (task ∷ tasks) p = perform_all s tasks (perform s task p)
