-- ===== src/Storage/Closing.antt =====
-- Updates of the table `findings` that open nothing, and the closing of an open finding.
use thot_secure.Prelude.{
  ℕ, ◌≤◌, ◌<◌, String, Bool, true, false, none, some, List, [], ◌∷◌, ◌≡◌, ◌⊎◌, inl, inr, refl, sym,
  ◌∙◌, ap, subst, str_eq, eq_iff, not, ◌&&◌, if◌then◌else◌, arith, Bool-cases,
}
use thot_secure.Model.{Finding}
use thot_secure.Storage.Findings.{
  is_finding, get_finding, Update, given, updated, update_rows, is_open_status, is_open_for,
}
use thot_secure.Storage.Open.{open_count, has_id, Unique, Neat, or_false, open_one, open_count-cons}

closing_nothing : (a b : Bool) → (a && b && not true) ≡ false
closing_nothing a b = ground arith

not_open :
    (t r k : String) (f : Finding) → is_open_status f.status ≡ false → is_open_for t r k f ≡ false
unfolding is_open_for
not_open t r k f h = ground arith

-- The finding is one of the rows.
abbrev pub In : Finding → List Finding → Type 0
In f [] = ⊥
In f (g ∷ rows) = (f ≡ g) ⊎ In f rows

-- An update opens no finding that was not open.
abbrev pub reopens : String → String → Update → Finding → Bool
reopens tenant_id id u f =
    is_finding tenant_id id f
    && is_open_status (given u.status f.status)
    && not (is_open_status f.status)

abbrev pub Closes : String → String → Update → List Finding → Type 0
Closes tenant_id id u [] = Unit
Closes tenant_id id u (f ∷ rows) = (reopens tenant_id id u f ≡ false) × Closes tenant_id id u rows

module _ (tenant_id id : String) (u : Update) (now : ℕ) where
  abbrev after : Finding → Finding
  after f = if is_finding tenant_id id f then updated u now f else f

  after-id : (f : Finding) → (after f).finding_id ≡ f.finding_id
  unfolding updated
  after-id f = ground arith

  pub has_id-update_rows :
      (j : String) (rows : List Finding)
      → has_id j (update_rows tenant_id id u now rows) ≡ has_id j rows
  unfolding update_rows
  has_id-update_rows j [] = refl
  has_id-update_rows j (f ∷ rows) = rw (after-id f) (rw (has_id-update_rows j rows) refl)

  Unique-update_rows :
      (rows : List Finding) → Unique rows → Unique (update_rows tenant_id id u now rows)
  unfolding update_rows
  Unique-update_rows [] h = tt
  Unique-update_rows (f ∷ rows) (h, v) =
      (rw (after-id f) (has_id-update_rows f.finding_id rows ∙ h), Unique-update_rows rows v)

  module _ (t r k : String) where
    after_one :
        (f : Finding)
        → reopens tenant_id id u f ≡ false
        → open_one t r k (after f) ≤ open_one t r k f
    unfolding updated is_open_for
    after_one f h = ground arith

    open_count-update_rows :
        (rows : List Finding)
        → Closes tenant_id id u rows
        → open_count t r k (update_rows tenant_id id u now rows) ≤ open_count t r k rows
    unfolding update_rows
    open_count-update_rows [] h = omega arith
    open_count-update_rows (f ∷ rows) (h, c) =
        let ih = open_count-update_rows rows c in
        omega (
          arith,
          ih,
          after_one f h,
          open_count-cons t r k f rows,
          open_count-cons t r k (after f) (update_rows tenant_id id u now rows),
        )

  pub update_rows-Neat :
      (rows : List Finding)
      → Closes tenant_id id u rows
      → Neat rows
      → Neat (update_rows tenant_id id u now rows)
  update_rows-Neat rows c (v, n) = (
    Unique-update_rows rows v,
    λ t r k. omega (arith, open_count-update_rows t r k rows c, n t r k),
  )

  pub Closes-same : u.status ≡ none → (rows : List Finding) → Closes tenant_id id u rows
  Closes-same e [] = tt
  Closes-same e (f ∷ rows) = (ground arith, Closes-same e rows)

  pub Closes-closed :
      (s : String)
      → u.status ≡ some s
      → is_open_status s ≡ false
      → (rows : List Finding) → Closes tenant_id id u rows
  Closes-closed s e h [] = tt
  Closes-closed s e h (f ∷ rows) = (rw e (rw h (ground arith)), Closes-closed s e h rows)

  -- No other row has the identifier of the one that is found.
  Closes-absent : (rows : List Finding) → has_id id rows ≡ false → Closes tenant_id id u rows
  unfolding is_finding
  Closes-absent [] h = tt
  Closes-absent (f ∷ rows) h =
      let (other, rest) = or_false (str_eq f.finding_id id) (has_id id rows) h in
      (rw other refl, Closes-absent rows rest)

  finding_named : (g : Finding) → is_finding tenant_id id g ≡ true → g.finding_id ≡ id
  unfolding is_finding
  finding_named g h = ground (arith, eq_iff g.finding_id id)

  pub Closes-found :
      (f : Finding) (rows : List Finding)
      → Unique rows
      → get_finding tenant_id id rows ≡ some f
      → is_open_status f.status ≡ true
      → Closes tenant_id id u rows
  unfolding get_finding
  Closes-found f [] v h o = tt
  Closes-found f (g ∷ rows) (a, v) h o = elim (Bool-cases (is_finding tenant_id id g)) [
    | inl e ↦
        let same : g ≡ f = ground arith in
        let named : g.finding_id ≡ id = finding_named g e in
        (
          rw (same, o)
              (closing_nothing (is_finding tenant_id id f)
                (is_open_status (given u.status f.status))),
          Closes-absent rows (ap (λ (x : String). has_id x rows) (sym named) ∙ a),
        )
    | inr e ↦ (rw e refl, Closes-found f rows v (ground arith) o)
  ]

  closed_one :
      (t r k s : String) (f : Finding)
      → u.status ≡ some s
      → is_open_status s ≡ false
      → is_finding tenant_id id f ≡ true
      → open_one t r k (after f) ≡ 0
  unfolding updated is_open_for
  closed_one t r k s f e h m =
      let shut : is_open_status (given u.status f.status) ≡ false = rw (e, h) refl in
      rw m (rw (not_open t r k (updated u now f) shut) refl)

  pub open_count-closed :
      (t r k s : String) (f : Finding) (rows : List Finding)
      → u.status ≡ some s
      → is_open_status s ≡ false
      → is_finding tenant_id id f ≡ true
      → is_open_for t r k f ≡ true
      → In f rows
      → open_count t r k (update_rows tenant_id id u now rows) < open_count t r k rows
  unfolding update_rows
  open_count-closed t r k s f [] e h m o i = absurd i
  open_count-closed t r k s f (g ∷ rows) e h m o (inl same) =
      let rest = open_count-update_rows t r k rows (Closes-closed s e h rows) in
      let zero_now = closed_one t r k s f e h m in
      let zero_here : open_one t r k (after g) ≡ 0 =
        subst (λ (x : Finding). open_one t r k (after x) ≡ 0) same zero_now in
      let one_here : open_one t r k g ≡ 1 =
        subst (λ (x : Finding). open_one t r k x ≡ 1) same (rw o refl) in
      omega (
        arith,
        rest,
        zero_here,
        one_here,
        open_count-cons t r k g rows,
        open_count-cons t r k (after g) (update_rows tenant_id id u now rows),
      )
  open_count-closed t r k s f (g ∷ rows) e h m o (inr i) = omega (
    arith,
    open_count-closed t r k s f rows e h m o i,
    after_one t r k g (Closes-closed s e h (g ∷ rows)).0,
    open_count-cons t r k g rows,
    open_count-cons t r k (after g) (update_rows tenant_id id u now rows),
  )
