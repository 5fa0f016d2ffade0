-- ===== src/Observability.antt =====
-- observability/ratelimit.py.
pub mod RateLimit
mod Buckets
pub mod Ideal
pub mod Quota
