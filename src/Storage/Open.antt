-- ===== src/Storage/Open.antt =====
-- The open findings of the table `findings`: identifiers stand once, and how an insertion and an
-- update change the number of open findings of a rule and a key.
use thot_secure.Prelude.{
  ℕ, ◌+◌, ◌≤◌, String, Bool, true, false, none, some, List, [], ◌∷◌, ◌++◌, ◌≡◌, inl, inr, refl, ◌∙◌,
  str_eq, eq_iff, any, keep, length, ◌||◌, if◌then◌else◌, arith, Bool-cases,
}
use thot_secure.Model.{Finding}
use thot_secure.Storage.Findings.{insert_finding, is_open_status, is_open_for, latest_seen}

-- How many open findings a rule has for a key.
abbrev pub open_count : String → String → String → List Finding → ℕ
open_count tenant_id rule_id dedup_key rows =
    length (keep (is_open_for tenant_id rule_id dedup_key) rows)

abbrev pub has_id : String → List Finding → Bool
has_id id rows = any (λ r. str_eq r.finding_id id) rows

abbrev pub Unique : List Finding → Type 0
Unique [] = Unit
Unique (f ∷ rows) = (has_id f.finding_id rows ≡ false) × Unique rows

-- No identifier stands twice, and no rule has two open findings for one key.
abbrev pub Neat : List Finding → Type 0
Neat rows = Unique rows × ((t r k : String) → open_count t r k rows ≤ 1)

has_id-append :
    (id : String) (rows : List Finding) (f : Finding)
    → has_id id (rows ++ f ∷ []) ≡ (has_id id rows || str_eq f.finding_id id)
has_id-append id [] f = ground arith
has_id-append id (r ∷ rows) f = ground (arith, has_id-append id rows f)

pub str_eq_sym : (a b : String) → str_eq a b ≡ false → str_eq b a ≡ false
str_eq_sym a b h = ground (arith, eq_iff a b, eq_iff b a)

pub or_false : (a b : Bool) → (a || b) ≡ false → (a ≡ false) × (b ≡ false)
or_false a b h = ground arith

Unique-append :
    (rows : List Finding) (f : Finding)
    → Unique rows
    → has_id f.finding_id rows ≡ false
    → Unique (rows ++ f ∷ [])
Unique-append [] f u h = (refl, tt)
Unique-append (r ∷ rows) f (g, u) h =
    let (other, rest) = or_false (str_eq r.finding_id f.finding_id) (has_id f.finding_id rows) h in
    (
      rw (has_id-append r.finding_id rows f, g) (str_eq_sym r.finding_id f.finding_id other),
      Unique-append rows f u rest,
    )

abbrev pub open_one : String → String → String → Finding → ℕ
open_one t r k f = if is_open_for t r k f then 1 else 0

pub open_count-cons :
    (t r k : String) (f : Finding) (rows : List Finding)
    → open_count t r k (f ∷ rows) ≡ open_one t r k f + open_count t r k rows
open_count-cons t r k f rows = elim (Bool-cases (is_open_for t r k f)) [
  | inl e ↦ rw e (omega arith)
  | inr e ↦ rw e (omega arith)
]

open_count-append :
    (t r k : String) (rows : List Finding) (f : Finding)
    → open_count t r k (rows ++ f ∷ []) ≡ open_count t r k rows + open_one t r k f
open_count-append t r k [] f = open_count-cons t r k f [] ∙ omega arith
open_count-append t r k (g ∷ rows) f = omega (
  arith,
  open_count-append t r k rows f,
  open_count-cons t r k g rows,
  open_count-cons t r k g (rows ++ f ∷ []),
)

-- The tests of an open finding, as equations.
pub is_open_for_parts :
    (t r k : String) (f : Finding)
    → is_open_for t r k f ≡ true
    → (f.tenant_id ≡ t) × (f.rule_id ≡ r) × (f.dedup_key ≡ k) × (is_open_status f.status ≡ true)
unfolding is_open_for
is_open_for_parts t r k f h =
    ground (arith, eq_iff f.tenant_id t, eq_iff f.rule_id r, eq_iff f.dedup_key k)

pub latest_seen-none : (rows : List Finding) → latest_seen rows ≡ none → length rows ≡ 0
unfolding latest_seen
latest_seen-none [] h = refl
latest_seen-none (f ∷ rows) h = ground arith

pub insert_finding-stored :
    (f : Finding) (rows rows' : List Finding)
    → insert_finding f rows ≡ some rows'
    → (has_id f.finding_id rows ≡ false) × (rows' ≡ rows ++ f ∷ [])
unfolding insert_finding
insert_finding-stored f rows rows' h = ground arith

-- A finding without an open one of its rule and key may be inserted.
pub insert_finding-Neat :
    (f : Finding) (rows rows' : List Finding)
    → Neat rows
    → open_count f.tenant_id f.rule_id f.dedup_key rows ≡ 0
    → insert_finding f rows ≡ some rows'
    → Neat rows'
insert_finding-Neat f rows rows' (u, n) free h =
    let (fresh, same) = insert_finding-stored f rows rows' h in
    rw same (
      Unique-append rows f u fresh,
      λ t r k. rw (open_count-append t r k rows f) (elim (Bool-cases (is_open_for t r k f)) [
        | inr e ↦ rw e (let one = n t r k in omega arith)
        | inl e ↦
            let (a, b, c, d) = is_open_for_parts t r k f e in
            let free' : open_count t r k rows ≡ 0 = rw (← a, ← b, ← c) free in rw e (omega arith)
      ]),
    )
