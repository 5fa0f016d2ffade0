-- ===== src/Actions/Engine.antt =====
-- The methods of `ActionEngine` in actions/engine.py, by what they do.
mod Planning
mod Execution
mod Undoing
unfoldable pub use Planning.*
unfoldable pub use Execution.*
unfoldable pub use Undoing.*
