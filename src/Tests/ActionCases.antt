-- ===== src/Tests/ActionCases.antt =====
-- The action engine on one tenant, one playbook of two steps and one approved action.
use thot_secure.Prelude.{true, false, some, [], ◌∷◌, ◌++◌, ◌≡◌, refl, ◌↔◌, ◌⊎◌, reverse}
use thot_secure.Value.{get}
use thot_secure.Model.{Applied, packed, Action, approved}
use thot_secure.Storage.Actions.{get_action}
use thot_secure.Actions.Render.{build_context}
use thot_secure.Actions.Executor.{Step, Procedure, Call, Connectors, ConnectorResult}
use thot_secure.Actions.Executor
use thot_secure.Actions.Traces.{Executed, execute-Executed}
use thot_secure.Actions.Undo.{undo_calls, rollback_calls}
use thot_secure.Actions.World.{Playbook, procedure, ok}
use thot_secure.Actions.Engine
use thot_secure.Actions.Engine.{authorize_execution}
use thot_secure.Actions.Licence.{Licensed, CallsMade, authorize_execution-Licensed, calls-execute}
use thot_secure.Tests.Toy.{toy}
use thot_secure.Tests.Stage.{block, tell, block_source, obeying, env, acme, alice, action, world}

execute-Executed_example :
    Executed toy obeying true
      (build_context toy 1000000 [] [])
      "block-source-ip"
      0
      (block ∷ tell ∷ [])
      []
      []
      (Executor.execute toy obeying 1000000 true (procedure block_source) [] [] [])
execute-Executed_example =
    execute-Executed toy obeying 1000000 true (procedure block_source) [] [] []

abbrev blocked : Applied
blocked = record {
  index = 0;
  connector = "firewall";
  call = "block_ip";
  params = [];
  rollback_token = some "t1";
}

abbrev no_block : Procedure
no_block = record { name = "block-source-ip"; execute = block ∷ []; rollback = [] }

rollback_calls_example :
    (Executor.rollback toy obeying 1000000 false
      (some no_block)
      (packed "block-source-ip" (blocked ∷ []))
      []
      []).1
    ≡ [] ++ undo_calls toy obeying 1000000 false (reverse (blocked ∷ []))
rollback_calls_example =
    rollback_calls toy obeying 1000000 false (some no_block) "block-source-ip" (blocked ∷ []) [] []
      refl

authorize_execution-Licensed_example :
    (((authorize_execution env (action approved) block_source acme (world approved)).0 ≡ ok tt)
      ↔ Licensed env (action approved) block_source acme)
    × ((authorize_execution env (action approved) block_source acme (world approved)).1
        ≡ world approved)
authorize_execution-Licensed_example =
    authorize_execution-Licensed env (action approved) block_source acme (world approved)

calls-execute_example :
    ((Engine.execute env acme "a1" alice (world approved)).1.calls ≡ [])
    ⊎ ((a : Action) × (p : Playbook) × (get_action "acme" "a1" (world approved).rows ≡ some a)
        × (get a.playbook env.playbooks ≡ some p)
        × Licensed env a p acme
        × CallsMade env a.dry_run
            (world approved)
            (Engine.execute env acme "a1" alice (world approved)).1)
calls-execute_example = calls-execute env acme "a1" alice (world approved)
