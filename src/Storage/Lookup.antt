-- ===== src/Storage/Lookup.antt =====
-- Which finding is found after an insertion or an update of the table `findings`.
use thot_secure.Prelude.{
  ℕ, ◌≤◌, String, true, false, none, some, List, [], ◌∷◌, ◌++◌, ◌≡◌, inl, inr, any, refl, length,
  str_eq, eq_iff, eq_refl, keep, if◌then◌else◌, arith, Bool-cases,
}
use thot_secure.Model.{Finding}
use thot_secure.Storage.Findings.{
  is_finding, get_finding, Update, updated, update_rows, is_open_for, latest_seen,
  find_open_finding, update_finding, insert_finding,
}
use thot_secure.Storage.Open.{open_count, has_id, Unique, Neat, open_one, open_count-cons}
use thot_secure.Storage.Closing.{In}
use thot_secure.Storage.Latest.{find_open_finding-parts}

module _ (t r k : String) where
  nothing_open :
      (g : Finding) (rows : List Finding)
      → open_count t r k (g ∷ rows) ≡ 0
      → (is_open_for t r k g ≡ false) × (open_count t r k rows ≡ 0)
  nothing_open g rows h = elim (Bool-cases (is_open_for t r k g)) [
    | inl e ↦
        let one : open_one t r k g ≡ 1 = rw e refl in
        absurd (omega (arith, one, h, open_count-cons t r k g rows))
    | inr e ↦ (e, omega (arith, h, open_count-cons t r k g rows))
  ]

  keep-append :
      (rows : List Finding) (f : Finding)
      → open_count t r k rows ≡ 0
      → is_open_for t r k f ≡ true
      → keep (is_open_for t r k) (rows ++ f ∷ []) ≡ f ∷ []
  keep-append [] f h o = rw o refl
  keep-append (g ∷ rows) f h o =
      let (e, rest) = nothing_open g rows h in rw e (keep-append rows f rest o)

  -- An open finding that is inserted where there is none is the one that is found.
  pub find_open_finding-append :
      (rows : List Finding) (f : Finding)
      → open_count t r k rows ≡ 0
      → is_open_for t r k f ≡ true
      → find_open_finding t r k (rows ++ f ∷ []) ≡ some f
  unfolding find_open_finding latest_seen
  find_open_finding-append rows f h o = rw (keep-append rows f h o) refl

  module _ (id : String) (u : Update) (now : ℕ) (same : u.status ≡ none) where
    abbrev after : Finding → Finding
    after f = if is_finding t id f then updated u now f else f

    is_open_for-updated : (f : Finding) → is_open_for t r k (updated u now f) ≡ is_open_for t r k f
    unfolding is_open_for updated
    is_open_for-updated f = rw same refl

    is_open_for-after : (f : Finding) → is_open_for t r k (after f) ≡ is_open_for t r k f
    is_open_for-after f = elim (Bool-cases (is_finding t id f)) [
      | inl e ↦ rw e (is_open_for-updated f)
      | inr e ↦ rw e refl
    ]

    keep-update_rows :
        (rows : List Finding)
        → keep (is_open_for t r k) (update_rows t id u now rows)
          ≡ update_rows t id u now (keep (is_open_for t r k) rows)
    unfolding update_rows
    keep-update_rows [] = refl
    keep-update_rows (f ∷ rows) = elim (Bool-cases (is_open_for t r k f)) [
      | inl e ↦ rw (is_open_for-after f, e) (rw (keep-update_rows rows) refl)
      | inr e ↦ rw (is_open_for-after f, e) (keep-update_rows rows)
    ]

    latest_only :
        (rows : List Finding) (f : Finding)
        → length rows ≤ 1
        → latest_seen rows ≡ some f
        → is_finding t id f ≡ true
        → latest_seen (update_rows t id u now rows) ≡ some (updated u now f)
    unfolding latest_seen update_rows
    latest_only [] f n e m = cc
    latest_only (g ∷ []) f n e m = ground arith
    latest_only (g ∷ h ∷ rows) f n e m = absurd (omega (arith, n))

    -- An update that leaves the status alone updates the finding that is found.
    pub find_open_finding-update_rows :
        (rows : List Finding) (f : Finding)
        → Neat rows
        → find_open_finding t r k rows ≡ some f
        → f.finding_id ≡ id
        → find_open_finding t r k (update_rows t id u now rows) ≡ some (updated u now f)
    unfolding find_open_finding
    find_open_finding-update_rows rows f h found named =
        let (i, o, m) = find_open_finding-parts t r k f rows found in
        rw (keep-update_rows rows)
          (latest_only (keep (is_open_for t r k) rows) f (h.1 t r k) found (rw (← named) m))

is_finding-updated :
    (t id : String) (u : Update) (now : ℕ) (f : Finding)
    → is_finding t id (updated u now f) ≡ is_finding t id f
unfolding is_finding updated
is_finding-updated t id u now f = refl

has_id-In : (f : Finding) (rows : List Finding) → In f rows → has_id f.finding_id rows ≡ true
has_id-In f [] i = absurd i
has_id-In f (g ∷ rows) (inl e) = rw e (rw (eq_refl g.finding_id) refl)
has_id-In f (g ∷ rows) (inr i) = ground (arith, has_id-In f rows i)

module _ (t : String) (u : Update) (now : ℕ) where
  found_first :
      (f : Finding) (rows : List Finding)
      → is_finding t f.finding_id f ≡ true
      → get_finding t f.finding_id (update_rows t f.finding_id u now (f ∷ rows))
        ≡ some (updated u now f)
  unfolding get_finding update_rows
  found_first f rows m = rw m (rw (is_finding-updated t f.finding_id u now f, m) refl)

  other_finding :
      (f g : Finding) (rows : List Finding)
      → has_id g.finding_id rows ≡ false
      → In f rows
      → is_finding t f.finding_id g ≡ false
  unfolding is_finding
  other_finding f g rows fresh i = elim (Bool-cases (str_eq g.finding_id f.finding_id)) [
    | inl e ↦
        let same : g.finding_id ≡ f.finding_id = ground (arith, eq_iff g.finding_id f.finding_id) in
        cc (has_id-In f rows i, fresh, same)
    | inr e ↦ rw e refl
  ]

  -- The row that is updated is read back as updated.
  pub get_finding-update_rows :
      (f : Finding) (rows : List Finding)
      → Unique rows
      → In f rows
      → is_finding t f.finding_id f ≡ true
      → get_finding t f.finding_id (update_rows t f.finding_id u now rows) ≡ some (updated u now f)
  unfolding get_finding update_rows
  get_finding-update_rows f [] h i m = absurd i
  get_finding-update_rows f (g ∷ rows) (fresh, h) (inl same) m = rw (← same) (found_first f rows m)
  get_finding-update_rows f (g ∷ rows) (fresh, h) (inr i) m =
      rw (other_finding f g rows fresh i)
        (rw (other_finding f g rows fresh i) (get_finding-update_rows f rows h i m))

-- A row of the table can be updated.
pub update_finding-In :
    (t : String) (u : Update) (now : ℕ) (f : Finding) (rows : List Finding)
    → In f rows
    → is_finding t f.finding_id f ≡ true
    → update_finding t f.finding_id u now rows ≡ some (update_rows t f.finding_id u now rows)
unfolding update_finding
update_finding-In t u now f rows i m = rw (any-In rows i) refl
  where
    any-In : (rows : List Finding) → In f rows → any (is_finding t f.finding_id) rows ≡ true
    any-In [] i = absurd i
    any-In (g ∷ rows) (inl same) = rw (← same) (rw m refl)
    any-In (g ∷ rows) (inr i) = ground (arith, any-In rows i)

-- A finding with a new identifier can be inserted.
pub insert_finding-new :
    (f : Finding) (rows : List Finding)
    → has_id f.finding_id rows ≡ false
    → insert_finding f rows ≡ some (rows ++ f ∷ [])
unfolding insert_finding
insert_finding-new f rows h = rw h refl
