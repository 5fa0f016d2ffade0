-- ===== src/Actions/Executor/Unwinding.antt =====
-- `PlaybookExecutor.rollback` of actions/executor.py.
use thot_secure.Prelude.{
  ℕ, ◌+◌, String, Bool, true, false, Option, none, some, List, [], ◌∷◌, ◌++◌, reverse, not, any,
  ◌&&◌, ◌||◌, if◌then◌else◌,
}
use thot_secure.Value.{Dict, str, obj, get, put, to_dict, is_in, has_text, or_empty}
use thot_secure.Platform.{Platform}
use thot_secure.Model.{Applied, Token, packed, unreadable}
use thot_secure.Actions.Render.{render_params, build_context}
use thot_secure.Actions.Executor.Steps.{
  is_undoable, Step, Procedure, Call, Connectors, StepOutcome, rollback_interrupted,
  unreadable_token, partial_undo, irreversible_operations, ExecutionOutcome, undo_of,
  irreversible_operations_names, step_outcome, call_of, last_token,
}

module _ (py : Platform) (answer : Connectors) (now : ℕ) (dry : Bool) where
  -- The loop over the `rollback` block of a playbook.
  unfoldable pub rollback_steps :
      Dict
      → ℕ
      → List Step
      → List StepOutcome
      → Bool
      → List Call
      → Option ExecutionOutcome × List Call
  rollback_steps context i [] seen sim calls = (
    some (record {
      ok = true;
      steps = seen;
      rollback_token = none;
      errors = [];
      simulated = sim;
      rollback_available = false;
    }),
    calls,
  )
  rollback_steps context i (s ∷ rest) seen sim calls = elim (render_params py context s.with_) [
    | none ↦ (none, calls)
    | some params ↦
        let call = call_of s params dry in
        let r = answer calls call in
        let seen' = seen ++ step_outcome i s r ∷ [] in
        if not r.ok && not s.optional
        then (
          some (record {
            ok = false;
            steps = seen';
            rollback_token = none;
            errors = rollback_interrupted i ∷ [];
            simulated = r.simulated || sim;
            rollback_available = true;
          }),
          calls ++ call ∷ [],
        )
        else rollback_steps context (i + 1) rest seen' (r.simulated || sim) (calls ++ call ∷ [])
  ]

  -- The parameters of an undo: those of the step, with its token if it has one.
  abbrev pub undo_params : Applied → Dict
  undo_params a =
      if has_text a.rollback_token
      then put "rollback_token" (str (or_empty a.rollback_token)) a.params
      else a.params

  abbrev pub undo_call : Applied → String → Call
  undo_call a u = record {
    connector = a.connector;
    operation = u;
    params = undo_params a;
    dry_run = dry;
  }

  -- The loop of the fallback, over the stack from its last step on.
  unfoldable pub unwind :
      ℕ → List Applied → ExecutionOutcome → List Call → ExecutionOutcome × List Call
  unwind i [] o calls = (o, calls)
  unwind i (a ∷ rest) o calls = elim (undo_of a.call) [
    | none ↦ unwind (i + 1) rest o calls
    | some u ↦
        let r = answer calls (undo_call a u) in
        unwind (i + 1) rest
          (record o {
            ok = o.ok && r.ok;
            steps =
                o.steps
                ++ record {
                  index = i;
                  connector = a.connector;
                  call = u;
                  ok = r.ok;
                  simulated = r.simulated;
                  rollback_token = r.rollback_token;
                }
                  ∷ [];
            errors = if r.ok then o.errors else partial_undo u ∷ [];
            simulated = r.simulated || o.simulated;
          })
          (calls ++ undo_call a u ∷ [])
  ]

  abbrev pub is_irreversible : Applied → Bool
  is_irreversible a = not (is_undoable a) && is_in a.call irreversible_operations_names

  unfoldable pub unwind_stack : List Applied → List Call → ExecutionOutcome × List Call
  unwind_stack applied calls =
      let (o, calls') =
        unwind 0 (reverse applied)
          (record {
            ok = true;
            steps = [];
            rollback_token = none;
            errors = [];
            simulated = dry;
            rollback_available = false;
          })
          calls in
      let note = if any is_irreversible applied then irreversible_operations ∷ [] else [] in
      (record o { errors = o.errors ++ note }, calls')

  -- `context.get("params") or {}`
  abbrev pub params_of : Dict → Dict
  params_of context = elim (get "params" context) [
    | none ↦ []
    | some v ↦ elim v [ obj fs ↦ to_dict fs | _ ↦ [] ]
  ]

  abbrev pub rollback_block : Option Procedure → List Step
  rollback_block none = []
  rollback_block (some p) = p.rollback

  unfoldable pub rollback_stack :
      List Step → List Applied → Dict → List Call → Option ExecutionOutcome × List Call
  rollback_stack block [] context calls = (
    some (record {
      ok = true;
      steps = [];
      rollback_token = none;
      errors = [];
      simulated = dry;
      rollback_available = false;
    }),
    calls,
  )
  rollback_stack [] (a ∷ r) context calls =
      let (o, calls') = unwind_stack (a ∷ r) calls in (some o, calls')
  rollback_stack (s ∷ block) (a ∷ r) context calls =
      let base = put "rollback_token" (str (last_token (a ∷ r))) (params_of context) in
      rollback_steps (build_context py now base context) 0 (s ∷ block) [] dry calls

  unfoldable pub rollback :
      Option Procedure → Token → Dict → List Call → Option ExecutionOutcome × List Call
  rollback p (packed name applied) context calls =
      rollback_stack (rollback_block p) applied context calls
  rollback p (unreadable t) context calls = (
    some (record {
      ok = false;
      steps = [];
      rollback_token = none;
      errors = unreadable_token ∷ [];
      simulated = false;
      rollback_available = false;
    }),
    calls,
  )
