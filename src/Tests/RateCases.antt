-- ===== src/Tests/RateCases.antt =====
-- A limiter of 60 calls a minute and a burst of one, and two clients.
use thot_secure.Prelude.{true, false, some, [], ◌∷◌, ◌+◌, ◌*◌, ◌≤◌, ◌≡◌, max, refl, arith}
use thot_secure.Value.{get, put}
use thot_secure.Observability.RateLimit.{rate_limiter, refill, tracked, evict_stale, check}
use thot_secure.Observability.Ideal.{
  Call, is_allowed, answers, after, elapsed, end_of, spent, ideal_answers, burst_of,
}
use thot_secure.Observability.Quota.{answers-ideal_answers, spent_bound, check-retry}

abbrev call_a : Call
call_a = record { wait = 0; identifier = "a"; cost = 60000 }

abbrev call_b : Call
call_b = record { wait = 2000; identifier = "b"; cost = 60000 }

answers-ideal_answers_example :
    answers (call_a ∷ call_a ∷ call_b ∷ []) 0 (rate_limiter 60 (some 1))
    ≡ ideal_answers
        (max 1 60)
        (burst_of 60 (some 1))
        (call_a ∷ call_a ∷ call_b ∷ [])
        (λ j. burst_of 60 (some 1))
answers-ideal_answers_example =
    answers-ideal_answers 60 (some 1) (call_a ∷ call_a ∷ call_b ∷ []) 0 (omega arith)

spent_bound_example :
    spent "a" (call_b ∷ call_a ∷ []) (
      answers
        (call_b ∷ call_a ∷ [])
        (end_of (call_a ∷ []) 0)
        (after (call_a ∷ []) 0 (rate_limiter 60 (some 1))))
    ≤ burst_of 60 (some 1) + elapsed (call_b ∷ call_a ∷ []) * max 1 60
spent_bound_example =
    spent_bound 60 (some 1) "a" (call_a ∷ []) (call_b ∷ call_a ∷ []) 0 (omega arith)

a_refused :
    (check "a" 60000 (end_of (call_a ∷ []) 0) (after (call_a ∷ []) 0 (rate_limiter 60 (some 1)))).0
    ≡ some 1
unfolding check rate_limiter refill tracked evict_stale get put
a_refused = refl

check-retry_example :
    is_allowed
      (check "a" 60000 (end_of (call_b ∷ []) (end_of (call_a ∷ []) 0)) (
        after
          (call_b ∷ [])
          (end_of (call_a ∷ []) 0)
          (check "a" 60000
            (end_of (call_a ∷ []) 0)
            (after (call_a ∷ []) 0 (rate_limiter 60 (some 1)))).1)).0
    ≡ true
check-retry_example =
    check-retry 60 (some 1) "a" 60000 1 (call_a ∷ []) (call_b ∷ []) 0 (omega arith) (omega arith)
      a_refused refl (omega arith)

abbrev soon : Call
soon = record { wait = 100; identifier = "a"; cost = 60000 }

-- At 30 calls a minute the limiter announces one second to a client that lacks 1.9 seconds, and
-- refuses it again after the second.
too_early :
    ((check "a" 60000 100 (after (call_a ∷ []) 0 (rate_limiter 30 (some 1)))).0 ≡ some 1)
    × (is_allowed (check "a" 60000 1100 (after (call_a ∷ soon ∷ []) 0 (rate_limiter 30 (some 1)))).0
        ≡ false)
unfolding check rate_limiter refill tracked evict_stale get put
too_early = (refl, refl)
