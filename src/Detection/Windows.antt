-- ===== src/Detection/Windows.antt =====
-- The sliding windows of detection/engine.py against the whole history of a key: the newest hit
-- first, and the hits that lie within the window.
use mathlib.Core.List.{reverse-cons}
use thot_secure.Prelude.{
  ℕ, zero, suc, Bool, true, false, List, [], ◌∷◌, ◌++◌, ◌+◌, ◌≤◌, ◌≡◌, min, ltb, not, keep, take,
  reverse, length, length-append, arith, if◌then◌else◌, refl, sym, ap, ◌∙◌, Bool-cases, inl, inr,
}
use thot_secure.Detection.Engine.{drop_stale, trim, slide}

-- No time is after the bound, and none is after the one before it.
abbrev pub Descending : ℕ → List ℕ → Type 0
Descending b [] = Unit
Descending b (t ∷ ts) = (t ≤ b) × Descending t ts

-- The hits that are not stale, up to the first that is.
abbrev pub unexpired : ℕ → ℕ → List ℕ → List ℕ
unexpired span now [] = []
unexpired span now (t ∷ ts) =
    let rest = unexpired span now ts in if ltb (t + span) now then [] else t ∷ rest

-- Is the hit within the window?
abbrev pub is_recent : ℕ → ℕ → ℕ → Bool
is_recent span now t = not (ltb (t + span) now)

module _ (span now : ℕ) where
  drop_stale-append :
      (y : ℕ) (xs : List ℕ)
      → ltb (y + span) now ≡ false
      → drop_stale span now (xs ++ y ∷ []) ≡ drop_stale span now xs ++ y ∷ []
  unfolding drop_stale
  drop_stale-append y [] h = rw h refl
  drop_stale-append y (x ∷ xs) h = ground (arith, drop_stale-append y xs h)

  drop_stale-append_stale :
      (y : ℕ) (xs : List ℕ)
      → ltb (y + span) now ≡ true
      → drop_stale span now xs ≡ []
      → drop_stale span now (xs ++ y ∷ []) ≡ []
  unfolding drop_stale
  drop_stale-append_stale y [] h e = rw h refl
  drop_stale-append_stale y (x ∷ xs) h e = ground (arith, drop_stale-append_stale y xs h)

  drop_stale_all :
      (b : ℕ) (ts : List ℕ)
      → Descending b ts
      → ltb (b + span) now ≡ true
      → drop_stale span now (reverse ts) ≡ []
  unfolding drop_stale
  drop_stale_all b [] d h = refl
  drop_stale_all b (t ∷ ts) (l, d) h =
      let e : ltb (t + span) now ≡ true = ground arith in
      rw (reverse-cons t ts) (drop_stale-append_stale t (reverse ts) e (drop_stale_all t ts d e))

  drop_stale-reverse :
      (b : ℕ) (ts : List ℕ)
      → Descending b ts
      → drop_stale span now (reverse ts) ≡ reverse (unexpired span now ts)
  unfolding drop_stale
  drop_stale-reverse b [] d = refl
  drop_stale-reverse b (t ∷ ts) (l, d) = elim (Bool-cases (ltb (t + span) now)) [
    | inl e ↦
        rw (e, reverse-cons t ts)
          (drop_stale-append_stale t (reverse ts) e (drop_stale_all t ts d e))
    | inr e ↦
        rw (e, reverse-cons t ts, reverse-cons t (unexpired span now ts))
          (drop_stale-append t (reverse ts) e ∙ ap (λ xs. xs ++ t ∷ []) (drop_stale-reverse t ts d))
  ]

  unexpired-take :
      (n : ℕ) (ts : List ℕ) → unexpired span now (take n ts) ≡ take n (unexpired span now ts)
  unexpired-take zero ts = refl
  unexpired-take (suc n) [] = refl
  unexpired-take (suc n) (t ∷ ts) = ground (arith, unexpired-take n ts)

  keep_stale :
      (b : ℕ) (ts : List ℕ)
      → Descending b ts
      → ltb (b + span) now ≡ true
      → keep (is_recent span now) ts ≡ []
  keep_stale b [] d h = refl
  keep_stale b (t ∷ ts) (l, d) h =
      let e : ltb (t + span) now ≡ true = ground arith in rw e (keep_stale t ts d e)

  length-unexpired :
      (b : ℕ) (ts : List ℕ)
      → Descending b ts
      → length (unexpired span now ts) ≡ length (keep (is_recent span now) ts)
  length-unexpired b [] d = refl
  length-unexpired b (t ∷ ts) (l, d) = elim (Bool-cases (ltb (t + span) now)) [
    | inl e ↦ rw e (ap length (sym (keep_stale t ts d e)))
    | inr e ↦ rw e (ap suc (length-unexpired t ts d))
  ]

trim-append : (n y : ℕ) (xs : List ℕ) → trim (suc n) (xs ++ y ∷ []) ≡ trim n xs ++ y ∷ []
unfolding trim
trim-append n y [] = ground arith
trim-append n y (x ∷ xs) = ground (arith, trim-append n y xs, length-append xs (y ∷ []))

trim_zero : (xs : List ℕ) → trim 0 xs ≡ []
unfolding trim
trim_zero [] = refl
trim_zero (x ∷ xs) = ground (arith, trim_zero xs)

trim-reverse : (n : ℕ) (ts : List ℕ) → trim n (reverse ts) ≡ reverse (take n ts)
unfolding trim
trim-reverse zero ts = trim_zero (reverse ts)
trim-reverse (suc n) [] = refl
trim-reverse (suc n) (t ∷ ts) =
    rw (reverse-cons t ts, reverse-cons t (take n ts))
      (trim-append n t (reverse ts) ∙ ap (λ xs. xs ++ t ∷ []) (trim-reverse n ts))

take-take : (n : ℕ) (ts : List ℕ) → take n (take (suc n) ts) ≡ take n ts
take-take zero ts = refl
take-take (suc n) [] = refl
take-take (suc n) (t ∷ ts) = ap (λ xs. t ∷ xs) (take-take n ts)

take_again : (n t : ℕ) (ts : List ℕ) → take n (t ∷ take n ts) ≡ take n (t ∷ ts)
take_again zero t ts = refl
take_again (suc n) t ts = ap (λ xs. t ∷ xs) (take-take n ts)

unexpired-recent :
    (span now later : ℕ) (ts : List ℕ)
    → now ≤ later
    → unexpired span later (unexpired span now ts) ≡ unexpired span later ts
unexpired-recent span now later [] h = refl
unexpired-recent span now later (t ∷ ts) h = ground (arith, unexpired-recent span now later ts h)

Descending-unexpired :
    (span now b : ℕ) (ts : List ℕ) → Descending b ts → Descending b (unexpired span now ts)
Descending-unexpired span now b [] d = tt
Descending-unexpired span now b (t ∷ ts) (l, d) = elim (Bool-cases (ltb (t + span) now)) [
  | inl e ↦ rw e tt
  | inr e ↦ rw e (l, Descending-unexpired span now t ts d)
]

Descending-take : (n b : ℕ) (ts : List ℕ) → Descending b ts → Descending b (take n ts)
Descending-take zero b ts d = tt
Descending-take (suc n) b [] d = tt
Descending-take (suc n) b (t ∷ ts) (l, d) = (l, Descending-take n t ts d)

Descending-later :
    (now later : ℕ) (ts : List ℕ) → Descending now ts → now ≤ later → Descending later ts
Descending-later now later [] d h = tt
Descending-later now later (t ∷ ts) (l, d) h = (omega arith, d)

take_nil : (n : ℕ) → take {A = ℕ} n [] ≡ []
take_nil zero = refl
take_nil (suc n) = refl

length-reverse : (ts : List ℕ) → length (reverse ts) ≡ length ts
length-reverse [] = refl
length-reverse (t ∷ ts) =
    rw (reverse-cons t ts) (omega (arith, length-append (reverse ts) (t ∷ []), length-reverse ts))

length-take : (n : ℕ) (ts : List ℕ) → length (take n ts) ≡ min n (length ts)
length-take zero ts = omega arith
length-take (suc n) [] = omega arith
length-take (suc n) (t ∷ ts) = omega (arith, length-take n ts)

-- The window stands for the history from the time on.
abbrev pub Follows : ℕ → ℕ → ℕ → List ℕ → List ℕ → Type 0
Follows limit span now window history =
    Descending now history
    × ((later : ℕ)
        → now ≤ later
        → drop_stale span later window ≡ reverse (take limit (unexpired span later history)))

slide-unexpired :
    (limit span now later : ℕ) (window history : List ℕ)
    → Follows limit span now window history
    → now ≤ later
    → slide limit span later window ≡ reverse (take limit (unexpired span later (later ∷ history)))
unfolding slide
slide-unexpired limit span now later window history (d, f) h =
    let fresh : ltb (later + span) later ≡ false = ground arith in
    let r = unexpired span later history in
    rw (f later h) (
      ap (trim limit) (sym (reverse-cons later (take limit r)))
      ∙ trim-reverse limit (later ∷ take limit r)
      ∙ ap reverse (take_again limit later r)
      ∙ rw fresh refl)

-- A hit keeps the window in step with the history.
pub slide-Follows :
    (limit span now later : ℕ) (window history : List ℕ)
    → Follows limit span now window history
    → now ≤ later
    → Follows limit span later (slide limit span later window) (later ∷ history)
slide-Follows limit span now later window history (d, f) h = (
  (omega arith, Descending-later now later history d h),
  λ t l.
      let fresh : ltb (later + span) later ≡ false = ground arith in
      let all = later ∷ history in
      let newest = take limit (unexpired span later all) in
      let descending = Descending-take limit later (unexpired span later all) (
        Descending-unexpired span later later all
          (omega arith, Descending-later now later history d h)) in
      ap (drop_stale span t) (slide-unexpired limit span now later window history (d, f) h)
      ∙ drop_stale-reverse span t later newest descending
      ∙ ap reverse (
          unexpired-take span t limit (unexpired span later all)
          ∙ ap (take limit) (unexpired-recent span later t all l)),
)

-- The length of the window after a hit: the hits of the history that lie within the window, the
-- new one included, up to the limit.
pub length-slide :
    (limit span now later : ℕ) (window history : List ℕ)
    → Follows limit span now window history
    → now ≤ later
    → length (slide limit span later window)
      ≡ min limit (suc (length (keep (is_recent span later) history)))
length-slide limit span now later window history (d, f) h =
    let fresh : ltb (later + span) later ≡ false = ground arith in
    let all = unexpired span later (later ∷ history) in
    ap length (slide-unexpired limit span now later window history (d, f) h)
    ∙ length-reverse (take limit all)
    ∙ length-take limit all
    ∙ rw fresh (ap (λ n. min limit (suc n)) (length-unexpired span later now history d))

pub Follows-start : (limit span now : ℕ) → Follows limit span now [] []
unfolding drop_stale
Follows-start limit span now = (tt, λ t l. rw (take_nil limit) refl)

pub Follows-later :
    (limit span now later : ℕ) (window history : List ℕ)
    → Follows limit span now window history
    → now ≤ later
    → Follows limit span later window history
Follows-later limit span now later window history (d, f) h =
    (Descending-later now later history d h, λ t l. f t (omega arith))
