-- ===== src/Observability/Buckets.antt =====
-- The buckets of the rate limiter: what each identifier has left, and that neither the refill of a
-- bucket nor the eviction of stale ones changes it.
use thot_secure.Prelude.{
  ℕ, String, Option, none, some, List, ◌+◌, ◌-◌, ◌*◌, ◌≤◌, ◌<◌, ◌≡◌, ◌≢◌, ltb, min, arith, refl,
  sym, ap, subst, ◌∙◌, Bool-cases, inl, inr, length,
}
use thot_secure.Value.{get, put}
use thot_secure.Value.Keys.{
  Distinct, get-put, get-put_cases, get-put_other, put-Distinct, get-keep, keep-Distinct, filtered,
}
use thot_secure.Observability.RateLimit.{
  Bucket, RateLimiter, refilled, refill, is_fresh, evict_stale, tracked,
}

-- A bucket of the limiter, at a time that is not before its last use.
abbrev pub Sound : ℕ → RateLimiter → Option Bucket → Type 0
Sound now l none = Unit
Sound now l (some b) = (b.capacity ≡ l.burst) × (b.tokens ≤ l.burst) × (b.updated_at ≤ now)

abbrev pub Valid : ℕ → RateLimiter → Type 0
Valid now l =
    Distinct l.buckets
    × (l.burst ≤ 300000 * l.per_minute)
    × ((j : String) → Sound now l (get j l.buckets))

refilled-Sound :
    (now : ℕ) (l : RateLimiter) (o : Option Bucket)
    → Sound now l o
    → Sound now l (some (refilled l now o))
refilled-Sound now l none h = (refl, omega arith, omega arith)
refilled-Sound now l (some b) (c, t, s) = (c, omega arith, omega arith)

earned : (now w u r : ℕ) → u ≤ now → (now + w - u) * r ≡ (now - u) * r + w * r
earned now w u r h =
    let e : now + w - u ≡ (now - u) + w = omega arith in ap (λ (x : ℕ). x * r) e ∙ omega arith

full : (a r : ℕ) → 300000 < a → 300000 * r ≤ a * r
full a r h = grind arith

refilled_now : (now : ℕ) (l : RateLimiter) (o : Option Bucket) → (refilled l now o).updated_at ≡ now
refilled_now now l none = refl
refilled_now now l (some b) = refl

refilled_later :
    (now w : ℕ) (l : RateLimiter) (o : Option Bucket)
    → Sound now l o
    → (refilled l (now + w) o).tokens ≡ min l.burst ((refilled l now o).tokens + w * l.per_minute)
refilled_later now w l none h = omega arith
refilled_later now w l (some b) (c, t, s) = omega (arith, earned now w b.updated_at l.per_minute s)

-- A bucket that is stale would be full.
refilled_stale :
    (now : ℕ) (l : RateLimiter) (o : Option Bucket)
    → Sound now l o
    → l.burst ≤ 300000 * l.per_minute
    → (refilled l now (filtered (is_fresh now) o)).tokens ≡ (refilled l now o).tokens
unfolding is_fresh
refilled_stale now l none h u = refl
refilled_stale now l (some b) (c, t, s) u = ground (arith, full (now - b.updated_at) l.per_minute)

-- What the limiter has for the identifier at the time.
abbrev pub available : RateLimiter → ℕ → String → ℕ
available l now j = (refill l j now).tokens

pub available_later :
    (now w : ℕ) (l : RateLimiter) (j : String)
    → Valid now l
    → available l (now + w) j ≡ min l.burst (available l now j + w * l.per_minute)
unfolding refill
available_later now w l j (d, u, h) = refilled_later now w l (get j l.buckets) (h j)

abbrev pub holding : RateLimiter → List (String × Bucket) → RateLimiter
holding l buckets = record l { buckets = buckets }

pub put-Valid :
    (now : ℕ) (l : RateLimiter) (i : String) (b : Bucket)
    → Valid now l
    → Sound now l (some b)
    → Valid now (holding l (put i b l.buckets))
put-Valid now l i b (d, u, h) s = (
  put-Distinct i b l.buckets d,
  u,
  λ (j : String). elim (get-put_cases j i b l.buckets) [
    | inl (q, e) ↦ subst (Sound now l) (sym e) s
    | inr (n, f, e) ↦ subst (Sound now l) (sym e) (h j)
  ],
)

filtered-Sound :
    (now : ℕ) (l : RateLimiter) (o : Option Bucket)
    → Sound now l o
    → Sound now l (filtered (is_fresh now) o)
filtered-Sound now l none h = h
filtered-Sound now l (some b) h = elim (Bool-cases (is_fresh now b)) [
  | inl e ↦ rw e h
  | inr e ↦ rw e tt
]

evict_stale-Valid :
    (now : ℕ) (l : RateLimiter) → Valid now l → Valid now (holding l (evict_stale now l.buckets))
unfolding evict_stale
evict_stale-Valid now l (d, u, h) = (
  keep-Distinct (λ (e : String × Bucket). is_fresh now e.1) l.buckets d,
  u,
  λ (j : String).
      subst (Sound now l) (sym (get-keep (is_fresh now) j l.buckets d))
        (filtered-Sound now l (get j l.buckets) (h j)),
)

available-evict_stale :
    (now : ℕ) (l : RateLimiter) (j : String)
    → Valid now l
    → available (holding l (evict_stale now l.buckets)) now j ≡ available l now j
unfolding refill evict_stale
available-evict_stale now l j (d, u, h) =
    ap (λ (o : Option Bucket). (refilled l now o).tokens) (get-keep (is_fresh now) j l.buckets d)
    ∙ refilled_stale now l (get j l.buckets) (h j) u

refill-Valid :
    (now : ℕ) (l : RateLimiter) (i : String)
    → Valid now l
    → Valid now (holding l (put i (refill l i now) l.buckets))
unfolding refill
refill-Valid now l i (d, u, h) =
    put-Valid now l i (refill l i now) (d, u, h) (refilled-Sound now l (get i l.buckets) (h i))

pub tracked-Valid :
    (now : ℕ) (l : RateLimiter) (i : String) → Valid now l → Valid now (holding l (tracked l i now))
unfolding tracked
tracked-Valid now l i v =
    let p = refill-Valid now l i v in
    elim (Bool-cases (ltb 10000 (length (put i (refill l i now) l.buckets)))) [
      | inl e ↦ rw e (evict_stale-Valid now (holding l (put i (refill l i now) l.buckets)) p)
      | inr e ↦ rw e p
    ]

idle : (n r : ℕ) → (n - n) * r ≡ 0
idle n r = let e : n - n ≡ 0 = omega arith in ap (λ (x : ℕ). x * r) e ∙ omega arith

refilled_again :
    (now : ℕ) (l : RateLimiter) (o : Option Bucket)
    → Sound now l o
    → (refilled l now (some (refilled l now o))).tokens ≡ (refilled l now o).tokens
refilled_again now l none h = rw (idle now l.per_minute) (omega arith)
refilled_again now l (some b) h = rw (idle now l.per_minute) (omega arith)

available-put :
    (now : ℕ) (l : RateLimiter) (i j : String)
    → Valid now l
    → available (holding l (put i (refill l i now) l.buckets)) now j ≡ available l now j
unfolding refill
available-put now l i j (d, u, h) = elim (get-put_cases j i (refill l i now) l.buckets) [
  | inl (q, e) ↦
      ap (λ (o : Option Bucket). (refilled l now o).tokens) e
      ∙ refilled_again now l (get i l.buckets) (h i)
      ∙ ap (λ (x : String). available l now x) q
  | inr (n, f, e) ↦ ap (λ (o : Option Bucket). (refilled l now o).tokens) e
]

pub available-tracked :
    (now : ℕ) (l : RateLimiter) (i j : String)
    → Valid now l
    → available (holding l (tracked l i now)) now j ≡ available l now j
unfolding tracked
available-tracked now l i j v =
    let p = refill-Valid now l i v in
    let l' = holding l (put i (refill l i now) l.buckets) in
    let e = available-put now l i j v in
    elim (Bool-cases (ltb 10000 (length l'.buckets))) [
      | inl f ↦ rw f (available-evict_stale now l' j p ∙ e)
      | inr f ↦ rw f e
    ]

pub refill-Sound :
    (now : ℕ) (l : RateLimiter) (i : String) → Valid now l → Sound now l (some (refill l i now))
unfolding refill
refill-Sound now l i (d, u, h) = refilled-Sound now l (get i l.buckets) (h i)

pub available-put_now :
    (now : ℕ) (l : RateLimiter) (i : String) (t : ℕ) (buckets : List (String × Bucket))
    → Valid now l
    → t ≤ (refill l i now).tokens
    → available (holding l (put i (record (refill l i now) { tokens = t }) buckets)) now i ≡ t
unfolding refill
available-put_now now l i t buckets (d, u, h) s =
    let (c, r, x) = refilled-Sound now l (get i l.buckets) (h i) in
    let b = record (refill l i now) { tokens = t } in
    ap (λ (o : Option Bucket). (refilled l now o).tokens) (get-put i b buckets)
    ∙ rw (refilled_now now l (get i l.buckets), idle now l.per_minute) (omega arith)

pub available-put_other :
    (now : ℕ) (l : RateLimiter) (i j : String) (b : Bucket) (buckets : List (String × Bucket))
    → j ≢ i
    → available (holding l (put i b buckets)) now j ≡ available (holding l buckets) now j
unfolding refill
available-put_other now l i j b buckets n =
    ap (λ (o : Option Bucket). (refilled l now o).tokens) (get-put_other j i b buckets n)
