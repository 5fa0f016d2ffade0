-- ===== src/Observability/Ideal.antt =====
-- The rate limiter against an ideal one, which keeps a level of tokens for every identifier and
-- never forgets one.
use thot_secure.Prelude.{
  ℕ, String, Bool, true, false, Option, none, some, List, [], ◌∷◌, ◌+◌, ◌-◌, ◌*◌, ◌≤◌, ◌≡◌, str_eq,
  eq_iff, ltb, leb, not, max, min, arith, if◌then◌else◌, refl, sym, ap, ap₂, subst, ◌∙◌, Bool-cases,
  inl, inr,
}
use thot_secure.Value.{get, put}
use thot_secure.Observability.RateLimit.{
  Bucket, RateLimiter, refill, tracked, check, one_token, rate_limiter, burst_tokens,
}
use thot_secure.Observability.Buckets.{
  Sound, Valid, available, holding, available_later, put-Valid, tracked-Valid, available-tracked,
  refill-Sound, available-put_now, available-put_other,
}

pub record Call : Type 0 where
  pub wait : ℕ
  pub identifier : String
  pub cost : ℕ

abbrev pub is_allowed : Option ℕ → Bool
is_allowed none = true
is_allowed (some r) = false

-- The calls one after the other, each after its wait: which are allowed, and the limiter at the
-- end.
abbrev pub answers : List Call → ℕ → RateLimiter → List Bool
answers [] now l = []
answers (c ∷ cs) now l =
    let (r, k) = check c.identifier c.cost (now + c.wait) l in
    is_allowed r ∷ answers cs (now + c.wait) k

abbrev pub after : List Call → ℕ → RateLimiter → RateLimiter
after [] now l = l
after (c ∷ cs) now l =
    let (r, k) = check c.identifier c.cost (now + c.wait) l in after cs (now + c.wait) k

abbrev pub elapsed : List Call → ℕ
elapsed [] = 0
elapsed (c ∷ cs) = c.wait + elapsed cs

-- The time of the last call.
abbrev pub end_of : List Call → ℕ → ℕ
end_of [] now = now
end_of (c ∷ cs) now = end_of cs (now + c.wait)

-- The tokens that the identifier has got.
abbrev pub spent : String → List Call → List Bool → ℕ
spent i [] bs = 0
spent i (c ∷ cs) [] = 0
spent i (c ∷ cs) (b ∷ bs) =
    (if str_eq c.identifier i then (if b then c.cost else 0) else 0) + spent i cs bs

-- The ideal limiter: a level for every identifier.
abbrev pub Levels : Type 0
Levels = String → ℕ

abbrev pub drained : Bool → String → ℕ → Levels → Levels
drained ok i cost v j = if ok then (if str_eq i j then v j - cost else v j) else v j

module _ (rate burst : ℕ) where
  abbrev pub grown : ℕ → Levels → Levels
  grown wait v j = min burst (v j + wait * rate)

  abbrev pub ideal_answers : List Call → Levels → List Bool
  ideal_answers [] v = []
  ideal_answers (c ∷ cs) v =
      let u = grown c.wait v in
      let ok = leb c.cost (u c.identifier) in
      ok ∷ ideal_answers cs (drained ok c.identifier c.cost u)

-- The limiter shows the levels at the time.
abbrev pub Shows : ℕ → ℕ → ℕ → RateLimiter → Levels → Type 0
Shows rate burst now l v =
    (l.per_minute ≡ rate)
    × (l.burst ≡ burst)
    × Valid now l
    × ((j : String) → available l now j ≡ v j)

Sound-later :
    (now w : ℕ) (l : RateLimiter) (o : Option Bucket) → Sound now l o → Sound (now + w) l o
Sound-later now w l none h = tt
Sound-later now w l (some b) (c, t, s) = (c, t, omega arith)

Shows-later :
    (rate burst now w : ℕ) (l : RateLimiter) (v : Levels)
    → Shows rate burst now l v
    → Shows rate burst (now + w) l (grown rate burst w v)
Shows-later rate burst now w l v (p, q, (d, u, h), e) = (
  p,
  q,
  (d, u, λ (j : String). Sound-later now w l (get j l.buckets) (h j)),
  λ (j : String). available_later now w l j (d, u, h) ∙ rw (e j, p, q) refl,
)

leb-ltb : (a b : ℕ) → leb b a ≡ not (ltb a b)
leb-ltb a b = ground arith

charge-Shows :
    (now : ℕ) (i : String) (cost : ℕ) (l : RateLimiter) (v : Levels)
    → Valid now l
    → ((j : String) → available l now j ≡ v j)
    → let b = record (refill l i now) { tokens = (refill l i now).tokens - cost } in
      let k = holding l (put i b (tracked l i now)) in
      Valid now k × ((j : String) → available k now j ≡ drained true i cost v j)
charge-Shows now i cost l v h e =
    let b = record (refill l i now) { tokens = (refill l i now).tokens - cost } in
    let (c, t, s) = refill-Sound now l i h in
    (
      put-Valid now (holding l (tracked l i now)) i b (tracked-Valid now l i h) (c, omega arith, s),
      λ (j : String). elim (Bool-cases (str_eq i j)) [
        | inl f ↦ rw f (
            subst
              (λ (x : String). available (holding l (put i b (tracked l i now))) now x ≡ v x - cost)
              ((eq_iff i j).0 f)
              (available-put_now now l i ((refill l i now).tokens - cost) (tracked l i now) h
                  (omega arith)
                ∙ ap (λ (x : ℕ). x - cost) (e i)))
        | inr f ↦ rw f (
            available-put_other now l i j b (tracked l i now) (λ q. ground (arith, eq_iff i j))
            ∙ available-tracked now l i j h
            ∙ e j)
      ],
    )

pub check-Shows :
    (rate burst now : ℕ) (i : String) (cost : ℕ) (l : RateLimiter) (v : Levels)
    → Shows rate burst now l v
    → (is_allowed (check i cost now l).0 ≡ leb cost (v i))
      × Shows rate burst now (check i cost now l).1 (drained (leb cost (v i)) i cost v)
unfolding check refill
check-Shows rate burst now i cost l v (p, q, h, e) =
    let g : leb cost (v i) ≡ not (ltb (refill l i now).tokens cost) =
      ap (leb cost) (sym (e i)) ∙ leb-ltb (refill l i now).tokens cost in
    elim (Bool-cases (ltb (refill l i now).tokens cost)) [
      | inl f ↦
          rw (g, f)
            (
              refl,
              (p, q, tracked-Valid now l i h, λ (j : String). available-tracked now l i j h ∙ e j),
            )
      | inr f ↦ let (a, b) = charge-Shows now i cost l v h e in rw (g, f) (refl, (p, q, a, b))
    ]

pub answers_of_Shows :
    (rate burst : ℕ) (cs : List Call) (now : ℕ) (l : RateLimiter) (v : Levels)
    → Shows rate burst now l v
    → answers cs now l ≡ ideal_answers rate burst cs v
answers_of_Shows rate burst [] now l v h = refl
answers_of_Shows rate burst (c ∷ cs) now l v h =
    let (a, k) =
      check-Shows rate burst (now + c.wait) c.identifier c.cost l (grown rate burst c.wait v)
        (Shows-later rate burst now c.wait l v h) in
    ap₂ (λ x y. x ∷ y) a
      (answers_of_Shows rate burst cs (now + c.wait) (check c.identifier c.cost (now + c.wait) l).1
        (drained (leb c.cost (grown rate burst c.wait v c.identifier)) c.identifier c.cost
          (grown rate burst c.wait v))
        k)

abbrev pub ideal_after : ℕ → ℕ → List Call → Levels → Levels
ideal_after rate burst [] v = v
ideal_after rate burst (c ∷ cs) v =
    let u = grown rate burst c.wait v in
    ideal_after rate burst cs (drained (leb c.cost (u c.identifier)) c.identifier c.cost u)

pub after-Shows :
    (rate burst : ℕ) (cs : List Call) (now : ℕ) (l : RateLimiter) (v : Levels)
    → Shows rate burst now l v
    → Shows rate burst (end_of cs now) (after cs now l) (ideal_after rate burst cs v)
after-Shows rate burst [] now l v h = h
after-Shows rate burst (c ∷ cs) now l v h =
    let (a, k) =
      check-Shows rate burst (now + c.wait) c.identifier c.cost l (grown rate burst c.wait v)
        (Shows-later rate burst now c.wait l v h) in
    after-Shows rate burst cs (now + c.wait) (check c.identifier c.cost (now + c.wait) l).1
      (drained (leb c.cost (grown rate burst c.wait v c.identifier)) c.identifier c.cost
        (grown rate burst c.wait v))
      k

abbrev pub rate_of : ℕ → ℕ
rate_of per_minute = max 1 per_minute

-- The burst, in units.
abbrev pub burst_of : ℕ → Option ℕ → ℕ
burst_of per_minute burst = burst_tokens (max 1 per_minute) burst * one_token

pub rate_limiter-Shows :
    (per_minute : ℕ) (burst : Option ℕ) (now : ℕ)
    → burst_tokens (max 1 per_minute) burst ≤ 5 * max 1 per_minute
    → Shows
        (rate_of per_minute)
        (burst_of per_minute burst)
        now
        (rate_limiter per_minute burst)
        (λ j. burst_of per_minute burst)
unfolding rate_limiter refill get
rate_limiter-Shows per_minute burst now h = (refl, refl, (tt, omega arith, λ j. tt), λ j. refl)
