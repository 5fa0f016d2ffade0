-- ===== src/Pipeline.antt =====
-- The pipeline of pipeline.py: its state, and what its methods share. The detector of anomalies is
-- switched off, which is its default, and the publication on the bus stands in `Bus`.
pub mod Upsert
pub mod React
pub mod Ingest
pub mod Review
pub mod Session
pub mod Terms
pub mod Frame
pub mod Worlds
pub mod Writes
pub mod Journal
pub mod Dedup
pub mod Found
pub mod Outcome
pub mod OneOpen
pub mod DryRun
pub mod Unattended
use thot_secure.Prelude.{ℕ, String, Option, List, str_eq, find}
use thot_secure.Model.{Tenant, Finding}
use thot_secure.Scoring.{Arithmetic}
use thot_secure.Storage.Events.{EventRow}
use thot_secure.Detection.Engine.{DetectionEngine}
use thot_secure.Decision.Engine.{DecisionEngine, Policy}
use thot_secure.Audit.Defs.{Entry, append_audit}
use thot_secure.Actions.World.{World, Env}

-- A row of the table `suppressions`.
pub record Suppression : Type 0 where
  pub tenant_id : String
  pub rule_id : String
  pub dedup_key : String
  pub created_at : ℕ
  pub expires_at : ℕ

-- The engines, the store and the counters. The rows of `decisions` are read from the world.
pub record Pipeline : Type 0 where
  pub engine : DetectionEngine
  pub decisions : DecisionEngine
  pub world : World
  pub events : List EventRow
  pub suppressions : List Suppression
  pub processed_events : ℕ
  pub created_findings : ℕ
  pub updated_findings : ℕ
  pub triggered_actions : ℕ
  pub errors : ℕ

-- The time that `utcnow()` reads while one event is processed, and the identifiers that `new_id`
-- gives: one for the finding of each match, and those of the actions of each match.
pub record Moment : Type 0 where
  pub now : ℕ
  pub finding_ids : ℕ → String
  pub action_ids : ℕ → ℕ → String

-- The configuration: that of the action engine, whose time and identifiers are replaced, and the
-- arithmetic of the scores.
pub record Setup : Type 0 where
  pub env : Env
  pub math : Arithmetic

-- The action engine's environment for the match with this index.
abbrev pub env_of : Setup → Moment → ℕ → Env
env_of s m i = record s.env { now = m.now; fresh = m.action_ids i }

-- What the proofs follow: the world and the policies.
abbrev pub View : Type 0
View = World × List Policy

abbrev pub view : Pipeline → View
view p = (p.world, p.decisions.policies)

-- A relation between worlds, between views.
abbrev pub OnWorlds : (World → World → Type 0) → View → View → Type 0
OnWorlds R v v' = R v.0 v'.0

abbrev pub get_tenant : String → List Tenant → Option Tenant
get_tenant id tenants = find (λ t. str_eq t.tenant_id id) tenants

abbrev pub with_findings : List Finding → Pipeline → Pipeline
with_findings rows p = record p { world = record p.world { findings = rows } }

-- `audit.record`
unfoldable pub record_audit : Setup → Entry → Pipeline → Pipeline
record_audit s e p = record p {
  world = record p.world { log = (append_audit s.env.py e p.world.log).1 };
}
