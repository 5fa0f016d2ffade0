-- ===== src/Audit.antt =====
-- audit/hashchain.py, audit/chain.py, and the audit table of storage/store.py.
pub mod Defs
pub mod Chain
pub mod Tamper
pub mod Limits
