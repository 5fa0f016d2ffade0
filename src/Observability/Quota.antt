-- ===== src/Observability/Quota.antt =====
-- What the rate limiter guarantees an identifier, and the program.
use native.Mathlib.Nat.{mod-lt, div-add-mod, mul-le-mul_right}
use thot_secure.Prelude.{
  ℕ, String, true, false, Option, some, List, [], ◌∷◌, ◌+◌, ◌-◌, ◌*◌, ◌/◌, ◌≤◌, ◌<◌, ◌≡◌, str_eq,
  eq_iff, leb, not, max, min, arith, if◌then◌else◌, refl, sym, ap, ap₂, subst, ◌∙◌, Bool-cases, inl,
  inr, all,
}
use thot_secure.Observability.RateLimit.{RateLimiter, check, rate_limiter, burst_tokens}
use thot_secure.Observability.Buckets.{available, refill-Sound}
use thot_secure.Observability.Ideal.{
  Call, is_allowed, answers, after, elapsed, end_of, spent, Levels, drained, grown, ideal_answers,
  ideal_after, check-Shows, answers_of_Shows, after-Shows, rate_of, burst_of, rate_limiter-Shows,
}

-- As long as the burst refills within five minutes, the limiter allows exactly the calls that one
-- bucket per identifier would allow, however many identifiers there are: a bucket that is evicted
-- would have been full.
pub answers-ideal_answers :
    (per_minute : ℕ) (burst : Option ℕ) (cs : List Call) (now : ℕ)
    → burst_tokens (max 1 per_minute) burst ≤ 5 * max 1 per_minute
    → answers cs now (rate_limiter per_minute burst)
      ≡ ideal_answers
          (max 1 per_minute)
          (burst_of per_minute burst)
          cs
          (λ j. burst_of per_minute burst)
answers-ideal_answers per_minute burst cs now h =
    answers_of_Shows (rate_of per_minute) (burst_of per_minute burst) cs now
      (rate_limiter per_minute burst) (λ j. burst_of per_minute burst)
      (rate_limiter-Shows per_minute burst now h)

charge_bound :
    (i : String) (c : Call) (u : Levels)
    → (if str_eq c.identifier i then (if leb c.cost (u c.identifier) then c.cost else 0) else 0)
        + drained (leb c.cost (u c.identifier)) c.identifier c.cost u i
      ≤ u i
charge_bound i c u = elim (Bool-cases (str_eq c.identifier i)) [
  | inl e ↦ let q = ap u ((eq_iff c.identifier i).0 e) in ground (arith, q)
  | inr e ↦ ground arith
]

-- An ideal bucket gives out no more than its level and what it earns.
spent-ideal_answers :
    (rate burst : ℕ) (i : String) (cs : List Call) (v : Levels)
    → spent i cs (ideal_answers rate burst cs v) ≤ v i + elapsed cs * rate
spent-ideal_answers rate burst i [] v = omega arith
spent-ideal_answers rate burst i (c ∷ cs) v =
    let u = grown rate burst c.wait v in
    let h =
      spent-ideal_answers rate burst i cs
        (drained (leb c.cost (u c.identifier)) c.identifier c.cost u) in
    omega (arith, h, charge_bound i c u)

-- As long as the burst refills within five minutes, an identifier gets in any stretch of any run
-- no more tokens than the burst and what the rate gives in the time of the stretch.
pub spent_bound :
    (per_minute : ℕ) (burst : Option ℕ) (i : String) (before cs : List Call) (now : ℕ)
    → burst_tokens (max 1 per_minute) burst ≤ 5 * max 1 per_minute
    → spent i cs (answers cs (end_of before now) (after before now (rate_limiter per_minute burst)))
      ≤ burst_of per_minute burst + elapsed cs * max 1 per_minute
spent_bound per_minute burst i before cs now h =
    let rate = rate_of per_minute in
    let units = burst_of per_minute burst in
    let l = after before now (rate_limiter per_minute burst) in
    let v = ideal_after rate units before (λ j. units) in
    let s =
      after-Shows rate units before now (rate_limiter per_minute burst) (λ j. units)
        (rate_limiter-Shows per_minute burst now h) in
    let e = answers_of_Shows rate units cs (end_of before now) l v s in
    let (p, q, a, b) = s in
    let (x, y, z) = refill-Sound (end_of before now) l i a in
    rw e (omega (arith, spent-ideal_answers rate units i cs v, y, q, b i))

ideal_after_others :
    (rate burst : ℕ) (i : String) (cs : List Call) (v : Levels)
    → v i ≤ burst
    → all (λ c. not (str_eq c.identifier i)) cs ≡ true
    → ideal_after rate burst cs v i ≡ min burst (v i + elapsed cs * rate)
ideal_after_others rate burst i [] v b h = omega arith
ideal_after_others rate burst i (c ∷ cs) v b h =
    let u = grown rate burst c.wait v in
    let w = drained (leb c.cost (u c.identifier)) c.identifier c.cost u in
    let f : str_eq c.identifier i ≡ false = ground arith in
    let g : w i ≡ u i = ground arith in
    let k = ideal_after_others rate burst i cs w (omega arith) (ground arith) in omega (arith, k, g)

waiting : (d rate w : ℕ) → 1 ≤ rate → (max 1 (d / (rate * 1000)) + 1) * 1000 ≤ w → d ≤ w * rate
waiting d rate w p h =
    let q : (d / (rate * 1000) + 1) * 1000 ≤ w = omega arith in
    let z : 0 < rate * 1000 = omega arith in
    omega (arith, mod-lt d z, div-add-mod d (rate * 1000), mul-le-mul_right rate q)

leb-true : (a b : ℕ) → a ≤ b → leb a b ≡ true
leb-true a b h = ground arith

check_refused :
    (i : String) (cost now r : ℕ) (l : RateLimiter)
    → (check i cost now l).0 ≡ some r
    → r ≡ max 1 ((cost - available l now i) / (l.per_minute * 1000))
unfolding check
check_refused i cost now r l h = ground arith

-- As long as the burst refills within five minutes, a call that is refused and asks for no more
-- than the burst is allowed when it is made again one second after the announced wait, whatever
-- the other identifiers do in between.
pub check-retry :
    (per_minute : ℕ) (burst : Option ℕ) (i : String) (cost r : ℕ) (before others : List Call)
    (now : ℕ)
    → burst_tokens (max 1 per_minute) burst ≤ 5 * max 1 per_minute
    → cost ≤ burst_of per_minute burst
    → (check i cost (end_of before now) (after before now (rate_limiter per_minute burst))).0
      ≡ some r
    → all (λ c. not (str_eq c.identifier i)) others ≡ true
    → (r + 1) * 1000 ≤ elapsed others
    → let l = after before now (rate_limiter per_minute burst) in
      let k = (check i cost (end_of before now) l).1 in
      is_allowed
        (check i cost (end_of others (end_of before now)) (after others (end_of before now) k)).0
      ≡ true
check-retry per_minute burst i cost r before others now h c e o w =
    let rate = rate_of per_minute in
    let units = burst_of per_minute burst in
    let l = after before now (rate_limiter per_minute burst) in
    let t = end_of before now in
    let v = ideal_after rate units before (λ j. units) in
    let s =
      after-Shows rate units before now (rate_limiter per_minute burst) (λ j. units)
        (rate_limiter-Shows per_minute burst now h) in
    let (p, q, a, b) = s in
    let (x, y, z) = refill-Sound t l i a in
    let k = (check i cost t l).1 in
    let (f, g) = check-Shows rate units t i cost l v s in
    let refusal : leb cost (v i) ≡ false = sym f ∙ ap is_allowed e in
    let d = drained (leb cost (v i)) i cost v in
    let kept : d i ≡ v i = rw refusal refl in
    let level = ideal_after_others rate units i others d (omega (arith, kept, y, q, b i)) o in
    let (m, n) =
      check-Shows rate units (end_of others t) i cost (after others t k)
        (ideal_after rate units others d) (after-Shows rate units others t k d g) in
    let u = check_refused i cost t r l e ∙ ap₂ (λ x y. max 1 ((cost - x) / (y * 1000))) (b i) p in
    let enough =
      waiting (cost - v i) rate (elapsed others) (omega arith)
        (subst (λ (x : ℕ). (x + 1) * 1000 ≤ elapsed others) u w) in
    m ∙ leb-true cost (ideal_after rate units others d i) (omega (arith, level, enough, kept, c))
