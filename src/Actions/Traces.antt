-- ===== src/Actions/Traces.antt =====
-- What an execution of a playbook calls, as a relation on its steps, and that `execute` follows it.
use thot_secure.Prelude.{
  ℕ, ◌+◌, String, Bool, true, false, Option, none, some, List, [], ◌∷◌, ◌++◌, ◌≡◌, refl, sym, ◌∙◌,
  inl, inr, not, ◌||◌, Bool-cases, Option-cases,
}
use mathlib.Core.List.{append-nil, append_assoc}
use thot_secure.Value.{Dict}
use thot_secure.Platform.{Platform}
use thot_secure.Model.{Applied, packed}
use thot_secure.Actions.Render.{render_params, build_context}
use thot_secure.Actions.Executor.{
  Step, Procedure, Call, Connectors, StepOutcome, ExecutionOutcome, Progress, step_failed, is_nil,
  step_outcome, call_of, applied_of, execute_steps, execute,
}

-- How an execution ends: through all steps, at a step that had to succeed, or at a placeholder.
pub data Ending : Type 0 where
  completed : Ending
  stopped_at : ℕ → Ending
  unresolved_at : ℕ → Ending

module _ (py : Platform) (answer : Connectors) (dry : Bool) (context : Dict) where
  -- From step `i` on, after the calls `before`: the calls made, the steps applied, and the ending.
  pub data Trace : ℕ → List Step → List Call → List Call → List Applied → Ending → Type 0 where
    no_step : {i : ℕ} {before : List Call} → Trace i [] before [] [] completed
    unresolved :
        {i : ℕ} {s : Step} {rest : List Step} {before : List Call}
        → render_params py context s.with_ ≡ none
        → Trace i (s ∷ rest) before [] [] (unresolved_at i)
    applied :
        {i : ℕ} {s : Step} {rest : List Step} {before made : List Call} {done : List Applied}
        {end : Ending} (params : Dict)
        → render_params py context s.with_ ≡ some params
        → (answer before (call_of s params dry)).ok ≡ true
        → Trace (i + 1) rest (before ++ call_of s params dry ∷ []) made done end
        → Trace i
            (s ∷ rest)
            before
            (call_of s params dry ∷ made)
            (applied_of i s params (answer before (call_of s params dry)) ∷ done)
            end
    skipped :
        {i : ℕ} {s : Step} {rest : List Step} {before made : List Call} {done : List Applied}
        {end : Ending} (params : Dict)
        → render_params py context s.with_ ≡ some params
        → (answer before (call_of s params dry)).ok ≡ false
        → s.optional ≡ true
        → Trace (i + 1) rest (before ++ call_of s params dry ∷ []) made done end
        → Trace i (s ∷ rest) before (call_of s params dry ∷ made) done end
    stopped :
        {i : ℕ} {s : Step} {rest : List Step} {before : List Call} (params : Dict)
        → render_params py context s.with_ ≡ some params
        → (answer before (call_of s params dry)).ok ≡ false
        → s.optional ≡ false
        → Trace i (s ∷ rest) before (call_of s params dry ∷ []) [] (stopped_at i)

  -- What `execute` returns for an ending.
  abbrev pub Returned : String → List Applied → Ending → Option ExecutionOutcome → Type 0
  Returned name done (unresolved_at i) o = o ≡ none
  Returned name done completed none = ⊥
  Returned name done completed (some o) =
      (o.ok ≡ true) × (o.rollback_token ≡ some (packed name done))
  Returned name done (stopped_at i) none = ⊥
  Returned name done (stopped_at i) (some o) =
      (o.ok ≡ false) × (o.rollback_token ≡ some (packed name done))

  pub record Executed (name : String) (i : ℕ) (steps : List Step) (before : List Call)
      (kept : List Applied) (result : Option ExecutionOutcome × List Call) : Type 0 where
    pub made : List Call
    pub done : List Applied
    pub ending : Ending
    pub trace : Trace i steps before made done ending
    pub calls : result.1 ≡ before ++ made
    pub returned : Returned name (kept ++ done) ending result.0

  module _ (now : ℕ) (p : Procedure) where
    -- The loop, from step `i` on.
    abbrev run : ℕ → List Step → Progress → List Call → Option ExecutionOutcome × List Call
    run i steps pr before = execute_steps py answer now dry p context i steps pr before

    abbrev seen : ℕ → Step → Dict → Progress → List Call → List StepOutcome
    seen i s params pr before =
        pr.steps ++ step_outcome i s (answer before (call_of s params dry)) ∷ []

    abbrev after_applied : ℕ → Step → Dict → Progress → List Call → Progress
    after_applied i s params pr before =
        let r = answer before (call_of s params dry) in
        record {
          steps = seen i s params pr before;
          applied = pr.applied ++ applied_of i s params r ∷ [];
          simulated = r.simulated || pr.simulated;
        }

    module _ (i : ℕ) (s : Step) (rest : List Step) (pr : Progress) (before : List Call) where
      run_unresolved :
          render_params py context s.with_ ≡ none → run i (s ∷ rest) pr before ≡ (none, before)
      unfolding execute_steps
      run_unresolved e = rw (e, execute_steps)

      run_applied :
          (params : Dict)
          → render_params py context s.with_ ≡ some params
          → (answer before (call_of s params dry)).ok ≡ true
          → run i (s ∷ rest) pr before
            ≡ run
                (i + 1)
                rest
                (after_applied i s params pr before)
                (before ++ call_of s params dry ∷ [])
      unfolding execute_steps
      run_applied params e ok = rw (e, execute_steps) (rw ok)

      run_skipped :
          (params : Dict)
          → render_params py context s.with_ ≡ some params
          → (answer before (call_of s params dry)).ok ≡ false
          → s.optional ≡ true
          → run i (s ∷ rest) pr before
            ≡ run
                (i + 1)
                rest
                (record pr { steps = seen i s params pr before })
                (before ++ call_of s params dry ∷ [])
      unfolding execute_steps
      run_skipped params e ok opt = rw (e, execute_steps) (rw ok (rw opt))

      abbrev stopped_outcome : Dict → ExecutionOutcome
      stopped_outcome params = record {
        ok = false;
        steps = seen i s params pr before;
        rollback_token = some (packed p.name pr.applied);
        errors = step_failed i ∷ [];
        simulated = pr.simulated;
        rollback_available = not (is_nil pr.applied);
      }

      run_stopped :
          (params : Dict)
          → render_params py context s.with_ ≡ some params
          → (answer before (call_of s params dry)).ok ≡ false
          → s.optional ≡ false
          → run i (s ∷ rest) pr before
            ≡ (some (stopped_outcome params), before ++ call_of s params dry ∷ [])
      unfolding execute_steps
      run_stopped params e ok opt = rw (e, execute_steps) (rw ok (rw opt))

      stopped-Executed :
          (params : Dict)
          → render_params py context s.with_ ≡ some params
          → (answer before (call_of s params dry)).ok ≡ false
          → s.optional ≡ false
          → Executed p.name i (s ∷ rest) before pr.applied (run i (s ∷ rest) pr before)
      stopped-Executed params e ok opt = rw (run_stopped params e ok opt) (record {
        made = call_of s params dry ∷ [];
        done = [];
        ending = stopped_at i;
        trace = stopped params e ok opt;
        calls = refl;
        returned = rw append-nil (refl, refl);
      })

      applied-Executed :
          (params : Dict)
          → render_params py context s.with_ ≡ some params
          → (answer before (call_of s params dry)).ok ≡ true
          → Executed p.name
              (i + 1)
              rest
              (before ++ call_of s params dry ∷ [])
              (pr.applied ++ applied_of i s params (answer before (call_of s params dry)) ∷ [])
              (run
                (i + 1)
                rest
                (after_applied i s params pr before)
                (before ++ call_of s params dry ∷ []))
          → Executed p.name i (s ∷ rest) before pr.applied (run i (s ∷ rest) pr before)
      applied-Executed params e ok later = rw (run_applied params e ok) (record {
        made = call_of s params dry ∷ later.made;
        done = applied_of i s params (answer before (call_of s params dry)) ∷ later.done;
        ending = later.ending;
        trace = applied params e ok later.trace;
        calls = later.calls ∙ append_assoc before (call_of s params dry ∷ []) later.made;
        returned = rw append_assoc at later.returned;
      })

      skipped-Executed :
          (params : Dict)
          → render_params py context s.with_ ≡ some params
          → (answer before (call_of s params dry)).ok ≡ false
          → s.optional ≡ true
          → Executed p.name (i + 1) rest (before ++ call_of s params dry ∷ []) pr.applied (
              run
                (i + 1)
                rest
                (record pr { steps = seen i s params pr before })
                (before ++ call_of s params dry ∷ []))
          → Executed p.name i (s ∷ rest) before pr.applied (run i (s ∷ rest) pr before)
      skipped-Executed params e ok opt later = rw (run_skipped params e ok opt) (record {
        made = call_of s params dry ∷ later.made;
        done = later.done;
        ending = later.ending;
        trace = skipped params e ok opt later.trace;
        calls = later.calls ∙ append_assoc before (call_of s params dry ∷ []) later.made;
        returned = later.returned;
      })

    execute_steps-Executed :
        (i : ℕ) (steps : List Step) (pr : Progress) (before : List Call)
        → Executed p.name i steps before pr.applied (run i steps pr before)
    unfolding execute_steps
    execute_steps-Executed i [] pr before = record {
      made = [];
      done = [];
      ending = completed;
      trace = no_step;
      calls = sym (append-nil before);
      returned = rw append-nil (refl, refl);
    }
    execute_steps-Executed i (s ∷ rest) pr before =
        elim (Option-cases (render_params py context s.with_)) [
          | inl e ↦ rw (run_unresolved i s rest pr before e) (record {
            made = [];
            done = [];
            ending = unresolved_at i;
            trace = unresolved e;
            calls = sym (append-nil before);
            returned = refl;
          })
          | inr (params, e) ↦ elim (Bool-cases (answer before (call_of s params dry)).ok) [
            | inl ok ↦ applied-Executed i s rest pr before params e ok (
                execute_steps-Executed (i + 1) rest (after_applied i s params pr before)
                  (before ++ call_of s params dry ∷ []))
            | inr ok ↦ elim (Bool-cases s.optional) [
              | inl opt ↦ skipped-Executed i s rest pr before params e ok opt (
                  execute_steps-Executed (i + 1) rest
                    (record pr { steps = seen i s params pr before })
                    (before ++ call_of s params dry ∷ []))
              | inr opt ↦ stopped-Executed i s rest pr before params e ok opt
            ]
          ]
        ]

-- Every call that an execution makes is in the mode of dry run that was asked for.
abbrev pub AllDry : Bool → List Call → Type 0
AllDry dry [] = Unit {0}
AllDry dry (c ∷ cs) = (c.dry_run ≡ dry) × AllDry dry cs

pub Trace-AllDry :
    (py : Platform) (answer : Connectors) (dry : Bool) (context : Dict) {i : ℕ} {steps : List Step}
    {before made : List Call} {done : List Applied} {end : Ending}
    → Trace py answer dry context i steps before made done end
    → AllDry dry made
Trace-AllDry py answer dry context no_step = tt
Trace-AllDry py answer dry context (unresolved e) = tt
Trace-AllDry py answer dry context (applied params e ok r) =
    (refl, Trace-AllDry py answer dry context r)
Trace-AllDry py answer dry context (skipped params e ok opt r) =
    (refl, Trace-AllDry py answer dry context r)
Trace-AllDry py answer dry context (stopped params e ok opt) = (refl, tt)

-- An execution follows the steps of the playbook in order: every call carries the mode of dry run
-- that was asked for, an optional step that fails is passed over, a mandatory one ends the
-- execution, and so does a placeholder that does not resolve; the token packs exactly the steps
-- that succeeded, and `ok` says whether the last step was reached.
pub execute-Executed :
    (py : Platform) (answer : Connectors) (now : ℕ) (dry : Bool) (p : Procedure)
    (params context : Dict) (before : List Call)
    → Executed py answer dry
        (build_context py now params context)
        p.name
        0
        p.execute
        before
        []
        (execute py answer now dry p params context before)
unfolding execute
execute-Executed py answer now dry p params context before =
    execute_steps-Executed py answer dry (build_context py now params context) now p 0 p.execute
      (record { steps = []; applied = []; simulated = dry }) before
