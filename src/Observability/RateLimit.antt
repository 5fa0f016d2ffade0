-- ===== src/Observability/RateLimit.antt =====
-- `RateLimiter` of observability/ratelimit.py: a bucket of tokens per identifier. Times count
-- milliseconds; tokens and costs count units of 1/60000, so that a bucket gains exactly
-- `per_minute` units in a millisecond, where the code computes with floats.
use thot_secure.Prelude.{
  ℕ, suc, String, Bool, Option, none, some, List, [], ◌+◌, ◌-◌, ◌*◌, ◌/◌, ltb, not, max, min,
  length, keep, if◌then◌else◌,
}
use thot_secure.Value.{get, put}

pub record Bucket : Type 0 where
  pub tokens : ℕ
  pub updated_at : ℕ
  pub capacity : ℕ

pub record RateLimiter : Type 0 where
  pub per_minute : ℕ
  pub burst : ℕ
  pub buckets : List (String × Bucket)
  pub allowed : ℕ
  pub rejected : ℕ

abbrev pub one_token : ℕ
one_token = 60000

abbrev pub burst_tokens : ℕ → Option ℕ → ℕ
burst_tokens per_minute none = max 10 (per_minute / 6)
burst_tokens per_minute (some n) = n

-- RateLimiter(per_minute=…, burst=…)
unfoldable pub rate_limiter : ℕ → Option ℕ → RateLimiter
rate_limiter per_minute burst = record {
  per_minute = max 1 per_minute;
  burst = burst_tokens (max 1 per_minute) burst * one_token;
  buckets = [];
  allowed = 0;
  rejected = 0;
}

-- The bucket that is found, or a full one, with the tokens it has earned by now.
abbrev pub refilled : RateLimiter → ℕ → Option Bucket → Bucket
refilled l now none = record { tokens = l.burst; updated_at = now; capacity = l.burst }
refilled l now (some b) = record {
  tokens = min b.capacity (b.tokens + (now - b.updated_at) * l.per_minute);
  updated_at = now;
  capacity = b.capacity;
}

unfoldable pub refill : RateLimiter → String → ℕ → Bucket
refill l identifier now = refilled l now (get identifier l.buckets)

-- Not stale: used within the last 300 seconds.
unfoldable pub is_fresh : ℕ → Bucket → Bool
is_fresh now b = not (ltb 300000 (now - b.updated_at))

unfoldable pub evict_stale : ℕ → List (String × Bucket) → List (String × Bucket)
evict_stale now buckets = keep (λ (e : String × Bucket). is_fresh now e.1) buckets

-- The buckets after the refill, without the stale ones when there are too many.
unfoldable pub tracked : RateLimiter → String → ℕ → List (String × Bucket)
tracked l identifier now =
    let buckets = put identifier (refill l identifier now) l.buckets in
    if ltb 10000 (length buckets) then evict_stale now buckets else buckets

-- The `retry_after` of the error, in seconds; none if the call is allowed.
unfoldable pub check : String → ℕ → ℕ → RateLimiter → Option ℕ × RateLimiter
check identifier cost now l =
    let b = refill l identifier now in
    let buckets = tracked l identifier now in
    if ltb b.tokens cost
    then (
      some (max 1 ((cost - b.tokens) / (l.per_minute * 1000))),
      record l { buckets = buckets; rejected = suc l.rejected },
    )
    else (
      none,
      record l {
        buckets = put identifier (record b { tokens = b.tokens - cost }) buckets;
        allowed = suc l.allowed;
      },
    )
