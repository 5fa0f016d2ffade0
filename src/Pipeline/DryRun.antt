-- ===== src/Pipeline/DryRun.antt =====
-- The global dry run over everything that the program may be asked to do.
use thot_secure.Prelude.{true, List, ◌≡◌}
use thot_secure.Audit.Defs.{Entry}
use thot_secure.Actions.Session.{env_at}
use thot_secure.Actions.Serving.{from_decision-Keeps, serve-Keeps}
use thot_secure.Actions.Quiet.{DryWorld, Quiet, Quiet-Order, Quiet-Served}
use thot_secure.Pipeline.{Pipeline, Setup, OnWorlds, env_of, record_audit}
use thot_secure.Pipeline.React.{policy_engine}
use thot_secure.Pipeline.Writes.{Writes, upsert_finding-R, review-R}
use thot_secure.Pipeline.Worlds.{Parts, Order-OnWorlds, perform_all-R}
use thot_secure.Pipeline.Session.{Task, perform_all}

module _ (s : Setup) (on : s.env.settings.dry_run ≡ true) where
  record_audit-Quiet : (e : Entry) (p : Pipeline) → Quiet p.world (record_audit s e p).world
  unfolding record_audit
  record_audit-Quiet e p h = h

  Quiet-Writes : Writes s (OnWorlds Quiet)
  Quiet-Writes = record {
    order = Order-OnWorlds Quiet-Order;
    storing = λ rows v h. h;
    auditing = record_audit-Quiet;
  }

  Quiet-Parts : Parts s Quiet
  Quiet-Parts = record {
    order = Quiet-Order;
    auditing = record_audit-Quiet;
    upserting = upsert_finding-R s Quiet-Writes;
    acting = λ at i t f d w.
        (from_decision-Keeps (env_of s at i) (Quiet-Served (env_of s at i) on) t f d
            policy_engine).at
          w;
    transiting = review-R s Quiet-Writes;
    serving = λ turn w.
        serve-Keeps (env_at s.env turn) (Quiet-Served (env_at s.env turn) on) turn.request w;
  }

-- While the global dry run is on, and if no real action was planned before it, no connector is
-- ever reached for real: whatever events are ingested, whatever the rules, policies and playbooks
-- say, whatever is planned, approved, executed or rolled back by hand or by the reaper, and in
-- whatever order, every call is a dry run and every stored action stays one.
pub perform_all-DryWorld :
    (s : Setup) (tasks : List Task) (p : Pipeline)
    → s.env.settings.dry_run ≡ true
    → DryWorld p.world
    → DryWorld (perform_all s tasks p).world
perform_all-DryWorld s tasks p on h = perform_all-R s (Quiet-Parts s on) tasks p h
