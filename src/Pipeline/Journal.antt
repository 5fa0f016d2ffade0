-- ===== src/Pipeline/Journal.antt =====
-- What the pipeline does to the audit log.
use thot_secure.Prelude.{String, true, Option, List, [], ◌∷◌, ◌≡◌, refl, ◌∙◌, ap}
use thot_secure.Audit.Defs.{Entry, empty_log, verify}
use thot_secure.Audit.Chain.{Numbered, append_all, append_all-verify}
use thot_secure.Actions.World.{World}
use thot_secure.Actions.Session.{env_at}
use thot_secure.Actions.Serving.{from_decision-Keeps}
use thot_secure.Actions.Journal.{Grows, Grows-Order, Grows-Served}
use thot_secure.Actions.History.{serve-Grows}
use thot_secure.Pipeline.{Pipeline, Setup, OnWorlds, env_of, record_audit}
use thot_secure.Pipeline.React.{policy_engine}
use thot_secure.Pipeline.Writes.{Writes, upsert_finding-R, review-R}
use thot_secure.Pipeline.Worlds.{Parts, Order-OnWorlds, perform_all-R}
use thot_secure.Pipeline.Session.{Task, perform_all}

module _ (s : Setup) where
  abbrev Extends : World → World → Type 0
  Extends = Grows s.env.py

  record_audit-Extends : (e : Entry) (p : Pipeline) → Extends p.world (record_audit s e p).world
  unfolding record_audit
  record_audit-Extends e p = (e ∷ [], refl)

  Extends-Writes : Writes s (OnWorlds Extends)
  Extends-Writes = record {
    order = Order-OnWorlds (Grows-Order s.env.py);
    storing = λ rows v. ([], refl);
    auditing = record_audit-Extends;
  }

  Extends-Parts : Parts s Extends
  Extends-Parts = record {
    order = Grows-Order s.env.py;
    auditing = record_audit-Extends;
    upserting = upsert_finding-R s Extends-Writes;
    acting = λ at i t f d w.
        (from_decision-Keeps (env_of s at i) (Grows-Served (env_of s at i)) t f d policy_engine).at
          w;
    transiting = review-R s Extends-Writes;
    serving = λ turn w. serve-Grows (env_at s.env turn) turn.request w;
  }

  -- After any sequence of ingested batches, replays, transitions of findings and requests to the
  -- action engine, with any rules, policies and connectors, at any times and whatever fails on the
  -- way, an audit log that was empty at the start verifies, and its records are numbered
  -- 1, 2, 3, … with no gap.
  pub perform_all-verify :
      (tasks : List Task) (t : Option String) (p : Pipeline)
      → p.world.log ≡ empty_log
      → let log = (perform_all s tasks p).world.log in
        ((verify s.env.py t log).valid ≡ true) × Numbered s.env.py 1 log.rows log.next_seq
  perform_all-verify tasks t p e =
      let (es, grown) = perform_all-R s Extends-Parts tasks p in
      rw (grown ∙ ap (append_all s.env.py es) e) (append_all-verify s.env.py t es)
