-- ===== src/Actions/History.antt =====
-- Sessions: the audit log over any sequence of requests, the reaper's included.
use thot_secure.Prelude.{String, true, Option, List, [], ◌∷◌, ◌≡◌, ◌∙◌, ap}
use thot_secure.Audit.Defs.{empty_log, verify}
use thot_secure.Audit.Chain.{Numbered, append_all, append_all-verify}
use thot_secure.Actions.World.{World, Env}
use thot_secure.Actions.Session.{Request, serve, Turn, env_at, serve_all}
use thot_secure.Actions.Serving.{serve-Keeps}
use thot_secure.Actions.Journal.{Grows, Grows-Order, Grows-Served}

-- Whatever a request does, and whether it returns or raises, it leaves every record of the audit
-- log as it is and only appends records to it.
pub serve-Grows : (env : Env) (r : Request) (w : World) → Grows env.py w (serve env r w)
serve-Grows env r w = serve-Keeps env (Grows-Served env) r w

pub serve_all-Grows :
    (env : Env) (turns : List Turn) (w : World) → Grows env.py w (serve_all env turns w)
serve_all-Grows env [] w = (Grows-Order env.py).stay w
serve_all-Grows env (turn ∷ turns) w =
    let next = serve (env_at env turn) turn.request w in
    (Grows-Order env.py).go w next (serve_all env turns next)
      (serve-Grows (env_at env turn) turn.request w) (serve_all-Grows env turns next)

-- After any sequence of requests to the action engine, at any times, with any connectors and
-- whatever fails on the way, an audit log that was empty at the start verifies, and its records
-- are numbered 1, 2, 3, … with no gap.
pub serve_all-verify :
    (env : Env) (turns : List Turn) (t : Option String) (w : World)
    → w.log ≡ empty_log
    → let log = (serve_all env turns w).log in
      ((verify env.py t log).valid ≡ true) × Numbered env.py 1 log.rows log.next_seq
serve_all-verify env turns t w e =
    let (es, grown) = serve_all-Grows env turns w in
    rw (grown ∙ ap (append_all env.py es) e) (append_all-verify env.py t es)
