-- ===== src/Tests/EngineCases.antt =====
-- Requests to the action engine in sequence.
use thot_secure.Prelude.{ℕ, true, false, none, some, List, [], ◌∷◌, ◌≡◌, refl, all}
use thot_secure.Value.{int, get, is_in}
use thot_secure.Model.{Action, approved, rejected}
use thot_secure.Storage.Actions.{get_action, is_row}
use thot_secure.Actions.Params.{
  Specs, integer_type, names, validate_params, take_all, take_value, check_value, check_integer,
  safe_int,
}
use thot_secure.Actions.Validated.{Accepted, validate_params-Accepted}
use thot_secure.Actions.Engine.{PlanRequest}
use thot_secure.Actions.Session.{Request, serve, Turn, serve_all}
use thot_secure.Actions.Journal.{Grows}
use thot_secure.Actions.History.{serve-Grows}
use thot_secure.Actions.Lifecycle.{running, Evolves}
use thot_secure.Actions.Admission.{serve-Follows}
use thot_secure.Actions.Finality.{serve_all-final}
use thot_secure.Model.{executing, failed, finished, packed}
use thot_secure.Storage.Actions.{update_action, write_rows, written}
use thot_secure.Audit.Defs.{append_audit, new_row}
use thot_secure.Actions.Executor.{ExecutionOutcome, step_failed}
use thot_secure.Actions.World.{ActionError, ok, err, set_status, save, audit, notify}
use thot_secure.Actions.Engine.{conclude, mark_failed, rollback}
use thot_secure.Actions.Failure.{conclude-failed}
use thot_secure.Tests.Toy.{toy}
use thot_secure.Tests.Stage.{block_source, env, acme, alice, action, world}

abbrev at_time : ℕ → Request → Turn
at_time now r = record { now = now; fresh = λ n. "new"; request = r }

abbrev three_turns : List Turn
three_turns =
    at_time 1000 (Request.approve acme "a1" alice)
    ∷ at_time 2000 (Request.execute acme "a1" alice)
    ∷ at_time 3000 (Request.rollback acme "a1" alice)
    ∷ []

serve-Grows_example :
    Grows toy (world approved) (serve env (Request.execute acme "a1" alice) (world approved))
serve-Grows_example = serve-Grows env (Request.execute acme "a1" alice) (world approved)

found_approved : get_action "acme" "a1" (world approved).rows ≡ some (action approved)
unfolding get_action is_row
found_approved = refl

serve-Follows_example :
    (b : Action) × (get_action "acme" "a1"
        (serve env (Request.execute acme "a1" alice) (world approved)).rows
      ≡ some b)
    × Evolves running (action approved) b
serve-Follows_example =
    serve-Follows env (Request.execute acme "a1" alice) (world approved) "acme" "a1"
      (action approved) refl found_approved

found_rejected : get_action "acme" "a1" (world rejected).rows ≡ some (action rejected)
unfolding get_action is_row
found_rejected = refl

serve_all-final_example :
    (b : Action) × (get_action "acme" "a1" (serve_all env three_turns (world rejected)).rows
      ≡ some b)
    × (b.status ≡ rejected)
    × (b.playbook ≡ "block-source-ip")
    × (b.target_value ≡ "10.0.0.9")
    × (b.dry_run ≡ false)
serve_all-final_example =
    serve_all-final env three_turns (world rejected) "acme" "a1" (action rejected) refl
      found_rejected refl

abbrev request : PlanRequest
request = record {
  playbook_name = "block-source-ip";
  who = alice;
  finding = none;
  params = [];
  automatic = true;
  policy_id = none;
  dry_run = some false;
  expires_in = none;
}

abbrev duration : Specs
duration =
    (
      "duration",
      record {
        kind = integer_type;
        required = true;
        default = none;
        minimum = some 6000;
        maximum = some 360000;
        choices = [];
      },
    )
    ∷ []

accepted_120 :
    validate_params toy duration (("duration", int 120) ∷ []) ≡ some (("duration", int 120) ∷ [])
unfolding validate_params take_all take_value check_value check_integer safe_int is_in get
accepted_120 = refl

validate_params-Accepted_example :
    (all (λ k. is_in k (names toy duration)) (names toy (("duration", int 120) ∷ [])) ≡ true)
    × Accepted toy (("duration", int 120) ∷ []) duration (("duration", int 120) ∷ [])
validate_params-Accepted_example =
    validate_params-Accepted toy duration (("duration", int 120) ∷ []) (("duration", int 120) ∷ [])
      accepted_120

abbrev interrupted : ExecutionOutcome
interrupted = record {
  ok = false;
  steps = [];
  rollback_token = some (packed "block-source-ip" []);
  errors = step_failed 1 ∷ [];
  simulated = false;
  rollback_available = true;
}

abbrev failed_action : Action
failed_action = record (action executing) {
  status = failed;
  result = some (record { run = some (finished false false true); undo = none });
  audit_seq = some 1;
}

concluded_failed :
    (conclude env (action executing) block_source alice (some interrupted) (world executing)).0
    ≡ ok failed_action
unfolding conclude mark_failed set_status save audit notify update_action is_row append_audit
    new_row write_rows written
concluded_failed = refl

conclude-failed_example :
    (failed ≡ failed)
    × ((e : ActionError) × (rollback env acme "a1" alice
            (conclude env
              (action executing)
              block_source
              alice
              (some interrupted)
              (world executing)).1
          ≡ (
            err e,
            (conclude env
                (action executing)
                block_source
                alice
                (some interrupted)
                (world executing)).1,
          )))
conclude-failed_example =
    conclude-failed env (action executing) failed_action block_source alice alice interrupted
      (world executing) acme refl refl concluded_failed refl
