-- ===== src/Storage/Latest.antt =====
-- Which open finding is found, and the closing of it.
use thot_secure.Prelude.{
  ℕ, String, Bool, true, false, none, some, List, [], ◌∷◌, ◌≡◌, inl, inr, ◌∙◌, ap, eq_refl, keep,
  arith, Bool-cases, Option-cases, ltb,
}
use thot_secure.Model.{Finding}
use thot_secure.Storage.Findings.{
  is_finding, Update, update_rows, update_finding, is_open_status, is_open_for, latest_seen,
  find_open_finding,
}
use thot_secure.Storage.Open.{open_count, Neat, is_open_for_parts, latest_seen-none}
use thot_secure.Storage.Closing.{In, open_count-closed}

latest_seen-In : (f : Finding) (rows : List Finding) → latest_seen rows ≡ some f → In f rows
unfolding latest_seen
latest_seen-In f [] h = cc
latest_seen-In f (g ∷ rows) h = elim (Option-cases (latest_seen rows)) [
  | inl e ↦ inl (ground arith)
  | inr (x, e) ↦ elim (Bool-cases (ltb g.last_seen x.last_seen)) [
    | inl b ↦ inr (latest_seen-In f rows (ground arith))
    | inr b ↦ inl (ground arith)
  ]
]

In-keep :
    (p : Finding → Bool) (f : Finding) (rows : List Finding)
    → In f (keep p rows)
    → In f rows × (p f ≡ true)
In-keep p f [] h = absurd h
In-keep p f (g ∷ rows) h = elim (Bool-cases (p g)) [
  | inl e ↦ kept e (In-keep p f rows) (rw e at h)
  | inr e ↦ let (i, q) = In-keep p f rows (rw e at h) in (inr i, q)
]
  where
    kept :
        p g ≡ true
        → (In f (keep p rows) → In f rows × (p f ≡ true))
        → In f (g ∷ keep p rows)
        → In f (g ∷ rows) × (p f ≡ true)
    kept e ih (inl same) = (inl same, ap p same ∙ e)
    kept e ih (inr i) = let (j, q) = ih i in (inr j, q)

-- An open finding that is found belongs to the tenant, the rule and the key.
pub find_open_finding-parts :
    (t r k : String) (f : Finding) (rows : List Finding)
    → find_open_finding t r k rows ≡ some f
    → In f rows × (is_open_for t r k f ≡ true) × (is_finding t f.finding_id f ≡ true)
unfolding find_open_finding is_finding
find_open_finding-parts t r k f rows h =
    let (i, o) =
      In-keep (is_open_for t r k) f rows (latest_seen-In f (keep (is_open_for t r k) rows) h) in
    let (a, b, c, d) = is_open_for_parts t r k f o in
    (i, o, rw (eq_refl f.finding_id, a) (eq_refl t))

pub find_open_finding-none :
    (t r k : String) (rows : List Finding)
    → find_open_finding t r k rows ≡ none
    → open_count t r k rows ≡ 0
unfolding find_open_finding
find_open_finding-none t r k rows h = latest_seen-none (keep (is_open_for t r k) rows) h

-- After the one open finding is closed, there is none.
pub open_count-close :
    (t r k s : String) (u : Update) (now : ℕ) (f : Finding) (rows : List Finding)
    → Neat rows
    → find_open_finding t r k rows ≡ some f
    → u.status ≡ some s
    → is_open_status s ≡ false
    → open_count t r k (update_rows t f.finding_id u now rows) ≡ 0
open_count-close t r k s u now f rows (v, n) h e c =
    let (i, o, m) = find_open_finding-parts t r k f rows h in
    omega (arith, open_count-closed t f.finding_id u now t r k s f rows e c m o i, n t r k)

pub update_finding-rows :
    (t id : String) (u : Update) (now : ℕ) (rows rows' : List Finding)
    → update_finding t id u now rows ≡ some rows'
    → rows' ≡ update_rows t id u now rows
unfolding update_finding
update_finding-rows t id u now rows rows' h = ground arith
