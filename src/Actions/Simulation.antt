-- ===== src/Actions/Simulation.antt =====
-- The calls of executions and rollbacks in one mode of dry run.
use thot_secure.Prelude.{
  ℕ, ◌+◌, Bool, Option, List, [], ◌∷◌, ◌++◌, refl, reverse, not, ◌&&◌, ◌||◌, Bool-cases,
  Option-cases, inl, inr,
}
use thot_secure.Value.{Dict}
use thot_secure.Platform.{Platform}
use thot_secure.Model.{Applied, Token, packed, unreadable}
use thot_secure.Actions.Render.{render_params}
use thot_secure.Actions.Executor.{
  Step, Procedure, Call, Connectors, StepOutcome, ExecutionOutcome, step_outcome, call_of, undo_of,
  undo_call, unwind, unwind_stack, rollback_steps, rollback_block, rollback_stack, rollback,
}
use thot_secure.Actions.Traces.{AllDry}

pub AllDry-append : (d : Bool) (xs ys : List Call) → AllDry d xs → AllDry d ys → AllDry d (xs ++ ys)
AllDry-append d [] ys h k = k
AllDry-append d (x ∷ xs) ys (e, h) k = (e, AllDry-append d xs ys h k)

module _ (py : Platform) (answer : Connectors) (now : ℕ) (dry : Bool) where
  rollback_steps-AllDry :
      (context : Dict) (i : ℕ) (steps : List Step) (seen : List StepOutcome) (sim : Bool)
      (calls : List Call)
      → AllDry dry calls
      → AllDry dry (rollback_steps py answer now dry context i steps seen sim calls).1
  unfolding rollback_steps
  rollback_steps-AllDry context i [] seen sim calls h = h
  rollback_steps-AllDry context i (s ∷ rest) seen sim calls h =
      elim (Option-cases (render_params py context s.with_)) [
        | inl e ↦ rw (e, rollback_steps) h
        | inr (params, e) ↦
            let call = call_of s params dry in
            let r = answer calls call in
            let more = AllDry-append dry calls (call ∷ []) h (refl, tt) in
            elim (Bool-cases (not r.ok && not s.optional)) [
              | inl b ↦ rw (e, rollback_steps) (rw b more)
              | inr b ↦
                  rw (e, rollback_steps)
                    (rw b (
                      rollback_steps-AllDry context (i + 1) rest (seen ++ step_outcome i s r ∷ [])
                        (r.simulated || sim) (calls ++ call ∷ []) more))
            ]
      ]

  unwind-AllDry :
      (i : ℕ) (stack : List Applied) (o : ExecutionOutcome) (calls : List Call)
      → AllDry dry calls
      → AllDry dry (unwind py answer now dry i stack o calls).1
  unfolding unwind
  unwind-AllDry i [] o calls h = h
  unwind-AllDry i (a ∷ rest) o calls h = elim (Option-cases (undo_of a.call)) [
    | inl e ↦ rw (e, unwind) (unwind-AllDry (i + 1) rest o calls h)
    | inr (u, e) ↦
        let call = undo_call py answer now dry a u in
        rw (e, unwind)
          (unwind-AllDry (i + 1) rest _ (calls ++ call ∷ [])
            (AllDry-append dry calls (call ∷ []) h (refl, tt)))
  ]

  rollback_stack-AllDry :
      (block : List Step) (applied : List Applied) (context : Dict) (calls : List Call)
      → AllDry dry calls
      → AllDry dry (rollback_stack py answer now dry block applied context calls).1
  unfolding rollback_stack unwind_stack
  rollback_stack-AllDry block [] context calls h = h
  rollback_stack-AllDry [] (a ∷ r) context calls h = unwind-AllDry 0 (reverse (a ∷ r)) _ calls h
  rollback_stack-AllDry (s ∷ block) (a ∷ r) context calls h =
      rollback_steps-AllDry _ 0 (s ∷ block) [] dry calls h

  pub rollback-AllDry :
      (p : Option Procedure) (token : Token) (context : Dict) (calls : List Call)
      → AllDry dry calls
      → AllDry dry (rollback py answer now dry p token context calls).1
  unfolding rollback
  rollback-AllDry p (packed name applied) context calls h =
      rollback_stack-AllDry (rollback_block py answer now dry p) applied context calls h
  rollback-AllDry p (unreadable t) context calls h = h
