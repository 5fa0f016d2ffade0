-- ===== src/Detection.antt =====
-- detection/matchers.py and detection/engine.py.
pub mod Regex
pub mod Matchers
pub mod Complements
pub mod Rules
pub mod Loading
pub mod Engine
pub mod Reloading
pub mod Evidence
pub mod Findings
mod Windows
mod Thresholds
pub mod Firing
pub mod Streams
pub mod Single
