-- ===== src/Tenancy/Rows.antt =====
-- The rows of the table of keys after a write.
use thot_secure.Prelude.{
  ℕ, String, Bool, true, false, Option, none, some, List, [], ◌∷◌, ◌++◌, ◌≡◌, inl, inr, str_eq,
  ◌&&◌, if◌then◌else◌, arith, refl, sym, ap, ◌∙◌, Bool-cases,
}
use thot_secure.Tenancy.Table.{
  ApiKeyRecord, get_api_key, is_active, is_revocable, of_tenant, revoke_api_key, touch_api_key,
}

-- A touched row.
abbrev pub touched : String → ℕ → ApiKeyRecord → ApiKeyRecord
touched id time r = if str_eq r.key_id id then record r { last_used_at = some time } else r

pub get_api_key-touch_api_key :
    (id k : String) (time : ℕ) (rows : List ApiKeyRecord) (r : ApiKeyRecord)
    → get_api_key id rows ≡ some r
    → get_api_key id (touch_api_key k time rows) ≡ some (touched k time r)
unfolding get_api_key touch_api_key
get_api_key-touch_api_key id k time [] r h = cc
get_api_key-touch_api_key id k time (x ∷ rows) r h =
    ground (arith, get_api_key-touch_api_key id k time rows r)

pub get_api_key-append :
    (id : String) (x r : ApiKeyRecord) (rows : List ApiKeyRecord)
    → get_api_key id rows ≡ some r
    → get_api_key id (rows ++ x ∷ []) ≡ some r
unfolding get_api_key
get_api_key-append id x r [] h = cc
get_api_key-append id x r (q ∷ rows) h = ground (arith, get_api_key-append id x r rows)

-- The key is stored, and revoked.
abbrev pub Dead : String → List ApiKeyRecord → Type 0
Dead id rows = (r : ApiKeyRecord) × (get_api_key id rows ≡ some r) × (is_active r ≡ false)

abbrev holds_for : Option String → Option ApiKeyRecord → Bool
holds_for tenant none = true
holds_for tenant (some r) = of_tenant tenant r

middle : (a b c : Bool) → a ≡ true → c ≡ true → (a && b && c) ≡ false → b ≡ false
middle a b c h g f = ground arith

pub revoke_api_key-Dead :
    (id : String) (tenant : Option String) (time : ℕ) (rows : List ApiKeyRecord) (r : ApiKeyRecord)
    → get_api_key id rows ≡ some r
    → of_tenant tenant r ≡ true
    → Dead id (revoke_api_key id tenant time rows).1
unfolding get_api_key revoke_api_key
revoke_api_key-Dead id tenant time [] r h t = cc
revoke_api_key-Dead id tenant time (x ∷ rows) r h t = elim (Bool-cases (str_eq x.key_id id)) [
  | inl e ↦
      let q : some x ≡ some r = sym (rw e refl) ∙ h in
      elim (Bool-cases (is_revocable id tenant x)) [
        | inl f ↦ rw f (record x { revoked_at = some time }, rw e refl, refl)
        | inr f ↦ rw f (
          x,
          rw e refl,
          middle (str_eq x.key_id id) (is_active x) (of_tenant tenant x) e
              (ap (holds_for tenant) q ∙ t) f,
        )
      ]
  | inr e ↦
      let s : get_api_key id (x ∷ rows) ≡ get_api_key id rows = rw e refl in
      let (y, f, g) = revoke_api_key-Dead id tenant time rows r (sym s ∙ h) t in
      elim (Bool-cases (is_revocable id tenant x)) [
        | inl i ↦ rw i (y, rw e f, g)
        | inr i ↦ rw i (y, rw e f, g)
      ]
]

abbrev pub activity : Option ApiKeyRecord → Bool
activity none = false
activity (some r) = is_active r

inactive : (a b c : Bool) → b ≡ false → (a && b && c) ≡ false
inactive a b c h = ground arith

-- A revocation leaves a revoked key as it is.
pub revoke_api_key-keeps :
    (id k : String) (tenant : Option String) (time : ℕ) (rows : List ApiKeyRecord)
    (r : ApiKeyRecord)
    → get_api_key id rows ≡ some r
    → is_active r ≡ false
    → get_api_key id (revoke_api_key k tenant time rows).1 ≡ some r
unfolding get_api_key revoke_api_key
revoke_api_key-keeps id k tenant time [] r h a = cc
revoke_api_key-keeps id k tenant time (x ∷ rows) r h a = elim (Bool-cases (str_eq x.key_id id)) [
  | inl e ↦
      let q : some x ≡ some r = sym (rw e refl) ∙ h in
      let f = inactive (str_eq x.key_id k) (is_active x) (of_tenant tenant x) (ap activity q ∙ a) in
      rw f (rw e q)
  | inr e ↦
      let s : get_api_key id (x ∷ rows) ≡ get_api_key id rows = rw e refl in
      let f = revoke_api_key-keeps id k tenant time rows r (sym s ∙ h) a in
      elim (Bool-cases (is_revocable k tenant x)) [ inl i ↦ rw i (rw e f) | inr i ↦ rw i (rw e f) ]
]

pub touched_active :
    (k : String) (time : ℕ) (r : ApiKeyRecord) → is_active (touched k time r) ≡ is_active r
touched_active k time r = elim (Bool-cases (str_eq r.key_id k)) [
  | inl e ↦ rw e refl
  | inr e ↦ rw e refl
]

pub touched_hash :
    (k : String) (time : ℕ) (r : ApiKeyRecord) → (touched k time r).key_hash ≡ r.key_hash
touched_hash k time r = elim (Bool-cases (str_eq r.key_id k)) [
  | inl e ↦ rw e refl
  | inr e ↦ rw e refl
]
