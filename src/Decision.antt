-- ===== src/Decision.antt =====
-- decision/engine.py.
pub mod Conditions
pub mod Engine
pub mod Guards
