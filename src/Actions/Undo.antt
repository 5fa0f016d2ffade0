-- ===== src/Actions/Undo.antt =====
-- Undoing without a rollback block: the stack is unwound in the reverse order.
use thot_secure.Prelude.{
  ℕ, ◌+◌, String, Bool, Option, none, some, refl, some, List, [], ◌∷◌, ◌++◌, ◌≡◌, sym, ◌∙◌, reverse,
  Option-cases, inl, inr,
}
use mathlib.Core.List.{append-nil, append_assoc}
use thot_secure.Value.{Dict}
use thot_secure.Platform.{Platform}
use thot_secure.Model.{Applied, packed}
use thot_secure.Actions.Executor.{
  Procedure, rollback_block, Call, Connectors, ExecutionOutcome, undo_of, undo_call, unwind,
  unwind_stack, rollback_stack, rollback,
}

module _ (py : Platform) (answer : Connectors) (now : ℕ) (dry : Bool) where
  -- The undo calls of a stack, first step first; a step with no undo has none.
  abbrev pub undo_calls : List Applied → List Call
  undo_calls [] = []
  undo_calls (a ∷ rest) = elim (undo_of a.call) [
    | none ↦ undo_calls rest
    | some u ↦ undo_call py answer now dry a u ∷ undo_calls rest
  ]

  unwind_calls :
      (i : ℕ) (stack : List Applied) (o : ExecutionOutcome) (calls : List Call)
      → (unwind py answer now dry i stack o calls).1 ≡ calls ++ undo_calls stack
  unfolding unwind
  unwind_calls i [] o calls = sym (append-nil calls)
  unwind_calls i (a ∷ rest) o calls = elim (Option-cases (undo_of a.call)) [
    | inl e ↦ rw (e, unwind, undo_calls) (unwind_calls (i + 1) rest o calls)
    | inr (u, e) ↦
        rw (e, unwind, undo_calls)
          (unwind_calls (i + 1) rest _ (calls ++ undo_call py answer now dry a u ∷ [])
            ∙ append_assoc calls (undo_call py answer now dry a u ∷ []) (undo_calls rest))
  ]

  -- The playbook is unknown, or its rollback block is empty.
  abbrev pub NoBlock : Option Procedure → Type 0
  NoBlock none = Unit {0}
  NoBlock (some p) = p.rollback ≡ []

  empty_block : (o : Option Procedure) → NoBlock o → rollback_block py answer now dry o ≡ []
  empty_block none e = refl
  empty_block (some p) e = e

  stack_calls :
      (applied : List Applied) (context : Dict) (before : List Call)
      → (rollback_stack py answer now dry [] applied context before).1
        ≡ before ++ undo_calls (reverse applied)
  unfolding rollback_stack unwind_stack
  stack_calls [] context before = sym (append-nil before)
  stack_calls (a ∷ r) context before = unwind_calls 0 (reverse (a ∷ r)) _ before

  -- If the playbook is unknown or its rollback block is empty, a rollback calls the undo
  -- operation of every applied step that has one, the last step first, each with the parameters and
  -- the token of its step, and nothing else; a failing undo does not stop the others.
  pub rollback_calls :
      (o : Option Procedure) (name : String) (applied : List Applied) (context : Dict)
      (before : List Call)
      → NoBlock o
      → (rollback py answer now dry o (packed name applied) context before).1
        ≡ before ++ undo_calls (reverse applied)
  unfolding rollback
  rollback_calls o name applied context before empty =
      rw (empty_block o empty) (stack_calls applied context before)
