-- ===== src/Actions/Executor/Steps.antt =====
-- The data of the executor of actions/executor.py, and what it looks up.
use thot_secure.Prelude.{
  ℕ, String, Bool, true, false, Option, none, some, List, [], ◌∷◌, str_eq, not, any, ◌||◌,
  if◌then◌else◌,
}
use thot_secure.Value.{Dict, non_empty, or_empty}
use thot_secure.Model.{Applied, Token}

pub record Step : Type 0 where
  pub connector : String
  pub call : String
  pub with_ : Dict
  pub optional : Bool

-- What of a `Playbook` the executor reads.
pub record Procedure : Type 0 where
  pub name : String
  pub execute : List Step
  pub rollback : List Step

pub record Call : Type 0 where
  pub connector : String
  pub operation : String
  pub params : Dict
  pub dry_run : Bool

pub record ConnectorResult : Type 0 where
  pub ok : Bool
  pub simulated : Bool
  pub rollback_token : Option String

abbrev pub Connectors : Type 0
Connectors = List Call → Call → ConnectorResult

pub record StepOutcome : Type 0 where
  pub index : ℕ
  pub connector : String
  pub call : String
  pub ok : Bool
  pub simulated : Bool
  pub rollback_token : Option String

pub data ExecutionError : Type 0 where
  step_failed rollback_interrupted : ℕ → ExecutionError
  unreadable_token : ExecutionError
  partial_undo : String → ExecutionError
  irreversible_operations : ExecutionError

-- `errors` lists the parts of the text `error`; it is empty for None.
pub record ExecutionOutcome : Type 0 where
  pub ok : Bool
  pub steps : List StepOutcome
  pub rollback_token : Option Token
  pub errors : List ExecutionError
  pub simulated : Bool
  pub rollback_available : Bool

-- UNDO_MAP.get(operation)
unfoldable pub undo_of : String → Option String
undo_of operation =
    if str_eq operation "block_ip"
    then some "unblock_ip"
    else if str_eq operation "rate_limit"
    then some "remove_rate_limit"
    else if str_eq operation "quarantine_file"
    then some "restore_file"
    else if str_eq operation "isolate_host"
    then some "unisolate_host"
    else if str_eq operation "open_ticket"
    then some "close_ticket"
    else none

abbrev pub irreversible_operations_names : List String
irreversible_operations_names = "revoke_session" ∷ "rotate_secret" ∷ "notify" ∷ []

abbrev pub step_outcome : ℕ → Step → ConnectorResult → StepOutcome
step_outcome i s r = record {
  index = i;
  connector = s.connector;
  call = s.call;
  ok = r.ok;
  simulated = r.simulated;
  rollback_token = r.rollback_token;
}

abbrev pub call_of : Step → Dict → Bool → Call
call_of s params dry = record {
  connector = s.connector;
  operation = s.call;
  params = params;
  dry_run = dry;
}

abbrev pub applied_of : ℕ → Step → Dict → ConnectorResult → Applied
applied_of i s params r = record {
  index = i;
  connector = s.connector;
  call = s.call;
  params = params;
  rollback_token = r.rollback_token;
}

unfoldable pub is_undoable : Applied → Bool
is_undoable a = elim (undo_of a.call) [ none ↦ false | some u ↦ true ]

abbrev pub is_nil {ℓ} : {A : Type ℓ} → List A → Bool
is_nil [] = true
is_nil (x ∷ xs) = false

-- `_has_rollback_path`
unfoldable pub has_rollback_path : Procedure → List Applied → Bool
has_rollback_path p applied = not (is_nil p.rollback) || any is_undoable applied

-- `_last_token`: the last token that is not empty.
unfoldable pub last_token : List Applied → String
last_token [] = ""
last_token (a ∷ r) =
    let later = last_token r in if non_empty later then later else or_empty a.rollback_token

-- The variables of the loop over the steps.
pub record Progress : Type 0 where
  pub steps : List StepOutcome
  pub applied : List Applied
  pub simulated : Bool
