-- ===== src/Actions/Executor/Running.antt =====
-- `PlaybookExecutor.execute` of actions/executor.py.
use thot_secure.Prelude.{
  ℕ, ◌+◌, Bool, true, false, Option, none, some, List, [], ◌∷◌, ◌++◌, not, ◌&&◌, ◌||◌,
  if◌then◌else◌,
}
use thot_secure.Value.{Dict}
use thot_secure.Platform.{Platform}
use thot_secure.Model.{packed}
use thot_secure.Actions.Render.{render_params, build_context}
use thot_secure.Actions.Executor.Steps.{
  Step, Procedure, Call, Connectors, step_failed, ExecutionOutcome, step_outcome, call_of,
  applied_of, is_nil, has_rollback_path, Progress,
}

module _ (py : Platform) (answer : Connectors) (now : ℕ) (dry : Bool) where
  -- The loop of `execute`, from step `i` on.
  unfoldable pub execute_steps :
      Procedure → Dict → ℕ → List Step → Progress → List Call → Option ExecutionOutcome × List Call
  execute_steps p context i [] pr calls = (
    some (record {
      ok = true;
      steps = pr.steps;
      rollback_token = some (packed p.name pr.applied);
      errors = [];
      simulated = pr.simulated;
      rollback_available = not (is_nil pr.applied) && has_rollback_path p pr.applied;
    }),
    calls,
  )
  execute_steps p context i (s ∷ rest) pr calls = elim (render_params py context s.with_) [
    | none ↦ (none, calls)
    | some params ↦
        let call = call_of s params dry in
        let r = answer calls call in
        let seen = pr.steps ++ step_outcome i s r ∷ [] in
        if r.ok
        then execute_steps p context (i + 1) rest
            (record {
              steps = seen;
              applied = pr.applied ++ applied_of i s params r ∷ [];
              simulated = r.simulated || pr.simulated;
            })
            (calls ++ call ∷ [])
        else if s.optional
        then execute_steps p context (i + 1) rest (record pr { steps = seen }) (calls ++ call ∷ [])
        else (
          some (record {
            ok = false;
            steps = seen;
            rollback_token = some (packed p.name pr.applied);
            errors = step_failed i ∷ [];
            simulated = pr.simulated;
            rollback_available = not (is_nil pr.applied);
          }),
          calls ++ call ∷ [],
        )
  ]

  unfoldable pub execute : Procedure → Dict → Dict → List Call → Option ExecutionOutcome × List Call
  unfolding execute_steps
  execute p params context calls =
      execute_steps p (build_context py now params context) 0 p.execute
        (record { steps = []; applied = []; simulated = dry }) calls
