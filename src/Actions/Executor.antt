-- ===== src/Actions/Executor.antt =====
-- The playbook executor of actions/executor.py. The connectors act on the outside world: they are
-- the parameter `answer`, any function of the calls made before and of the call itself, and the
-- list of all calls is the state. `none` is a PlaybookError; what was called before it stays
-- called. Messages, durations and the connector registry's choice of a driver are left out.
mod Steps
mod Running
mod Unwinding
unfoldable pub use Steps.*
unfoldable pub use Running.*
unfoldable pub use Unwinding.*
