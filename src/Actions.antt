-- ===== src/Actions.antt =====
-- actions/executor.py and actions/engine.py.
pub mod Render
pub mod Executor
pub mod Traces
pub mod Undo
pub mod Evidence
pub mod Params
pub mod World
pub mod Engine
pub mod Keeps
pub mod Licence
pub mod Lifecycle
pub mod Progress
pub mod Course
pub mod Admission
pub mod Placement
pub mod Session
pub mod Frame
pub mod Serving
pub mod Journal
pub mod Untouched
pub mod Simulation
pub mod DryRun
pub mod Quiet
pub mod Idle
pub mod Validated
pub mod Failure
pub mod History
pub mod Finality
pub mod Drafts
pub mod Reap
