-- ===== src/Lib.antt =====
-- Thot Secure: a verification library for the decision and response core of the program.
--
-- The program turns security findings into actions. `decision/engine.py` selects a policy for a
-- finding and lowers its decision through guards; it asks `scope.py` about the declared
-- perimeter and the store about recent actions. `actions/engine.py` plans, approves, executes and
-- undoes actions; it validates their parameters, stores them through `storage/store.py`, runs
-- playbooks through `actions/executor.py`, and writes each change into the audit log, a hash
-- chain that `audit/hashchain.py` and `audit/chain.py` verify. Before that, `detection/engine.py`
-- evaluates rules on events and builds findings from the matches. `pipeline.py` joins these parts:
-- it stores a batch of events, evaluates each, creates or refreshes the findings, has them decided
-- and hands the decisions to the action engine. `tenancy/auth.py` and `observability/ratelimit.py`
-- stand before every request. Paths are below `src/thotsecure`.
--
-- Files and code:
--   Value, Platform     JSON values; the functions of Python's standard library, as parameters.
--                       Value/Keys has dicts, Value/Paths `deep_get` of core/util.py.
--   Net                 `is_valid_ip`, `ip_in_cidrs`, `normalize_host` of core/util.py.
--   Model               the data of core/models.py, with `Tenant` and `Action` methods.
--   Scope               `TenantScope` and `TargetRegistry` of scope.py; Scope/Verdicts on
--                       `check_action`.
--   Detection/Regex, Detection/Matchers, Detection/Rules
--                       conditions, and what the loading of a rule asks of it: detection/matchers.py
--                       and `validate_rule` of detection/rule_loader.py.
--   Detection/Loading, Detection/Engine
--                       `DetectionEngine` of detection/engine.py.
--   Detection/Complements
--                       which operators are the negation of each other.
--   Severities          the order of the severities, apart from the weights of the code.
--   Detection/Reloading, Detection/Single
--                       what a reload leaves in the engine; when a rule without a threshold fires.
--   Detection/Windows, Detection/Thresholds, Detection/Firing, Detection/Streams
--                       the windows of the thresholds against the whole stream of events.
--   Detection/Evidence, Detection/Findings
--                       `build_finding` with the evidence, the title, and `redact_secrets`.
--   Scoring             `compute_risk` of scoring/risk.py.
--   Bus, Bus/Accounts   the subscribers of bus/base.py and `MemoryBus` of bus/memory.py.
--   Observability/RateLimit
--                       `RateLimiter` of observability/ratelimit.py.
--   Observability/Buckets, Observability/Ideal, Observability/Quota
--                       the limiter against one that never forgets a bucket.
--   Tenancy             the roles and capabilities of tenancy/rbac.py.
--   Tenancy/Table, Tenancy/Keys
--                       the API keys: tenancy/auth.py and the table `api_keys`.
--   Tenancy/Rows, Tenancy/Access, Tenancy/Authentication, Tenancy/Issue
--                       whom the service lets in, over any sequence of calls; that a new key is
--                       accepted.
--   Storage/Actions, Storage/Findings, Storage/Events
--                       the tables `actions`, `findings` and `events` of storage/store.py.
--   Storage/Open, Storage/Closing, Storage/Latest, Storage/Lookup
--                       the open findings of a key, and what the updates do to them.
--   Decision/Conditions, Decision/Engine
--                       `evaluate_when`, and `DecisionEngine.decide` with one function per guard.
--   Decision/Guards     what the guards guarantee.
--   Audit/Defs          the fingerprint, `verify_record`, `verify`, `append_audit`, the purge.
--   Audit/Chain, Audit/Tamper, Audit/Limits
--                       valid chains, the changes that are found and those that are not.
--   Actions/Render, Actions/Executor (Executor/Steps, Executor/Running, Executor/Unwinding)
--                       placeholders; `PlaybookExecutor.execute` and `rollback`.
--   Actions/Traces, Actions/Undo
--                       what an execution and a rollback call.
--   Actions/Evidence, Actions/Params
--                       targets and parameters read from a finding; `validate_params`.
--   Actions/World, Actions/Engine (Engine/Planning, Engine/Execution, Engine/Undoing)
--                       the state that the engine works on, and the methods of `ActionEngine`.
--   Actions/Licence     which actions reach a connector.
--   Actions/Drafts, Actions/Validated
--                       what a planned action may do; which parameters are accepted.
--   Actions/Failure     what is left to undo after an execution that failed.
--   Actions/Reap        `ActionEngine.reap`; Storage/Listing has its `list_actions`,
--                       Storage/Pages, Storage/Sorting and Storage/Cursors follow its cursors.
--   Actions/Session     sequences of requests, each at its own time.
--   Actions/Keeps, Actions/Frame, Actions/Serving
--                       what every request keeps of the world, once its writes keep it.
--   Actions/Journal, Actions/History, Actions/Untouched
--                       the audit log over any sequence of requests; what no request changes.
--   Actions/Simulation, Actions/DryRun, Actions/Quiet
--                       executions and rollbacks of dry runs, and the global dry run.
--   Actions/Idle        the requests that never reach a connector.
--   Storage/Rows, Actions/Lifecycle, Actions/Progress, Actions/Course, Actions/Placement,
--   Actions/Admission, Actions/Finality
--                       the life of an action as the edges between statuses that each kind of
--                       request allows, and the methods against them.
--   Pipeline            the state of pipeline.py; Pipeline/Upsert, Pipeline/React and
--                       Pipeline/Ingest are its methods `_upsert_finding`; `_decide`, `_react_to` and
--                       `process_event`; `ingest` and `replay_pending`.
--   Pipeline/Review     the transitions of a finding by an analyst: api/routers/findings.py.
--   Pipeline/Session    sequences of batches, replays, transitions and requests.
--   Pipeline/Terms, Pipeline/Frame, Pipeline/Worlds, Pipeline/Writes
--                       what they keep, once each part of the pipeline keeps it.
--   Pipeline/Found, Pipeline/Outcome
--                       which finding an upsert returns, and which one is found later.
--   Pipeline/Journal, Pipeline/Dedup, Pipeline/OneOpen, Pipeline/DryRun, Pipeline/Unattended
--                       the audit chain, one open finding for each key, the global dry run, and a
--                       pipeline that may not act by itself.
--   Tests               witnesses on concrete data.
--
-- How the code is translated: a table is a list of rows in the order of insertion, a dict a list of
-- pairs, `None` is `none`. The methods of the action engine pass a `World` on and return a result
-- or the exception; what was written before a `raise` stays written. A connector is any function
-- of the calls made before and of the call itself, and the list of all calls is kept. All loops
-- run over lists; the only counter is that of `plan`, five attempts as in the code.
--
-- Abstractions: times count milliseconds and `utcnow()` is read once per operation; scores count
-- hundredths and numbers are not negative; the tokens of the rate limiter count 1/60000, so that a
-- refill is exact where the code computes with floats; an int beyond the range of a float raises in a
-- comparison, which makes the condition false, while at the loading of a rule it counts as a problem
-- of the rule, where the code lets the exception pass and the reload fails; texts for a human reader (reasons, messages,
-- descriptions, comments) and log lines are left out; of the free context of an audit record that
-- the action engine writes only the playbook is kept, of that of a transition only the tenant, and
-- of the rollback in a `before` only `available`; the JSON text of a rollback token is the stack
-- itself.
-- `hashlib`, `json`, `ipaddress`, `re`, the number and text functions and SQL's LIKE are the
-- fields of `Platform`. An operation runs alone: the write lock of the store is not modelled.
--
-- Not modelled: of the pipeline the detector of anomalies (off by default), the publication on the
-- bus, `run_worker` and `purge_expired`, and the list `result.findings`, which repeats the outcome.
-- Also collectors, the HTTP API but for the transitions of a finding, web interface, the buses over
-- NATS and SQLite, sessions and bootstrap, metrics, reports, connectors, loaders of YAML files, the
-- OPA client, the PostgreSQL store, the command line and the service.
mod Prelude
pub mod Value
pub mod Platform
pub mod Net
pub mod Model
pub mod Scope
pub mod Detection
pub mod Observability
pub mod Tenancy
pub mod Bus
pub mod Severities
pub mod Scoring
pub mod Storage
pub mod Decision
pub mod Audit
pub mod Actions
pub mod Pipeline
mod Tests
