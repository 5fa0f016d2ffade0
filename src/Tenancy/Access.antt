-- ===== src/Tenancy/Access.antt =====
-- The keys that the cache of the key service vouches for, and what each operation does to them.
use thot_secure.Prelude.{
  ℕ, String, Bool, true, Option, none, some, List, [], ◌∷◌, ◌++◌, ◌+◌, ◌≡◌, ◌⊎◌, inl, inr, str_eq,
  eq_iff, ltb, keep, refl, sym, ap, subst, ◌∙◌, Bool-cases,
}
use thot_secure.Value.{get, put}
use thot_secure.Platform.{Platform}
use thot_secure.Tenancy.Table.{
  ApiKeyRecord, Principal, CacheEntry, KeyService, AuthError, split_key, get_api_key, is_active,
  touch_api_key, auth_cache_ttl, touch_interval, or_now,
}
use thot_secure.Tenancy.Keys.{
  hash_key, principal_of, fail, remember, check_record, check_split, check_key,
}
use thot_secure.Tenancy.Rows.{
  touched, get_api_key-touch_api_key, get_api_key-append, Dead, touched_active, touched_hash,
}

module _ (py : Platform) (pepper : String) where
  touched_principal :
      (k : String) (time : ℕ) (r : ApiKeyRecord)
      → principal_of py pepper (touched k time r) ≡ principal_of py pepper r
  touched_principal k time r = elim (Bool-cases (str_eq r.key_id k)) [
    | inl e ↦ rw e refl
    | inr e ↦ rw e refl
  ]

  -- A stored key that is not revoked has the id and the hash of the presented one, and names the
  -- principal.
  abbrev pub Vouched : List ApiKeyRecord → String → Principal → Type 0
  Vouched rows api_key p =
      (parts : String × String) × (r : ApiKeyRecord) × (split_key api_key ≡ some parts)
      × (get_api_key parts.0 rows ≡ some r)
      × (is_active r ≡ true)
      × (hash_key py pepper api_key ≡ r.key_hash)
      × (p ≡ principal_of py pepper r)

  -- What is true of the stored keys stays so.
  abbrev pub Lasting : List ApiKeyRecord → List ApiKeyRecord → Type 0
  Lasting rows after =
      ((k : String) (p : Principal) → Vouched rows k p → Vouched after k p)
      × ((id : String) → Dead id rows → Dead id after)

  pub Lasting-same : (rows : List ApiKeyRecord) → Lasting rows rows
  Lasting-same rows = (λ k p v. v, λ id d. d)

  pub Lasting-touch_api_key :
      (k : String) (time : ℕ) (rows : List ApiKeyRecord) → Lasting rows (touch_api_key k time rows)
  Lasting-touch_api_key k time rows = (
    λ key p (parts, r, s, g, a, h, q). (
      parts,
      touched k time r,
      s,
      get_api_key-touch_api_key parts.0 k time rows r g,
      touched_active k time r ∙ a,
      h ∙ sym (touched_hash k time r),
      q ∙ sym (touched_principal k time r),
    ),
    λ id (r, g, a). (
      touched k time r,
      get_api_key-touch_api_key id k time rows r g,
      touched_active k time r ∙ a,
    ),
  )

  pub Lasting-append : (x : ApiKeyRecord) (rows : List ApiKeyRecord) → Lasting rows (rows ++ x ∷ [])
  Lasting-append x rows = (
    λ key p (parts, r, s, g, a, h, q).
        (parts, r, s, get_api_key-append parts.0 x r rows g, a, h, q),
    λ id (r, g, a). (r, get_api_key-append id x r rows g, a),
  )

  -- Every entry of the cache is vouched for.
  abbrev pub Trusted : List ApiKeyRecord → List (String × CacheEntry) → Type 0
  Trusted rows [] = Unit
  Trusted rows ((d, e) ∷ cache) =
      ((k : String) × (py.sha256_hexdigest k ≡ d) × Vouched rows k e.principal) × Trusted rows cache

  abbrev or_entry : CacheEntry → Option CacheEntry → CacheEntry
  or_entry x none = x
  or_entry x (some y) = y

  pub Trusted-get :
      (d : String) (e : CacheEntry) (rows : List ApiKeyRecord) (cache : List (String × CacheEntry))
      → Trusted rows cache
      → get d cache ≡ some e
      → (k : String) × (py.sha256_hexdigest k ≡ d) × Vouched rows k e.principal
  unfolding get
  Trusted-get d e rows [] t h = cc
  Trusted-get d e rows ((j, x) ∷ cache) ((k, s, v), t) h = elim (Bool-cases (str_eq j d)) [
    | inl q ↦
        let f : get d ((j, x) ∷ cache) ≡ some x = rw q refl in
        let same : x ≡ e = ap (or_entry x) (sym f ∙ h) in
        (k, s ∙ (eq_iff j d).0 q, subst (λ (y : CacheEntry). Vouched rows k y.principal) same v)
    | inr q ↦
        let f : get d ((j, x) ∷ cache) ≡ get d cache = rw q refl in
        Trusted-get d e rows cache t (sym f ∙ h)
  ]

  pub Trusted-Lasting :
      (rows after : List ApiKeyRecord) (cache : List (String × CacheEntry))
      → Lasting rows after
      → Trusted rows cache
      → Trusted after cache
  Trusted-Lasting rows after [] l t = tt
  Trusted-Lasting rows after ((d, e) ∷ cache) l ((k, s, v), t) =
      ((k, s, l.0 k e.principal v), Trusted-Lasting rows after cache l t)

  pub Trusted-keep :
      (p : String × CacheEntry → Bool) (rows : List ApiKeyRecord)
      (cache : List (String × CacheEntry))
      → Trusted rows cache
      → Trusted rows (keep p cache)
  Trusted-keep p rows [] t = tt
  Trusted-keep p rows ((d, e) ∷ cache) (v, t) = elim (Bool-cases (p (d, e))) [
    | inl f ↦ rw f (v, Trusted-keep p rows cache t)
    | inr f ↦ rw f (Trusted-keep p rows cache t)
  ]

  Trusted-put :
      (k : String) (e : CacheEntry) (rows : List ApiKeyRecord) (cache : List (String × CacheEntry))
      → Trusted rows cache
      → Vouched rows k e.principal
      → Trusted rows (put (py.sha256_hexdigest k) e cache)
  unfolding put
  Trusted-put k e rows [] t v = ((k, refl, v), tt)
  Trusted-put k e rows ((d, x) ∷ cache) (u, t) v =
      elim (Bool-cases (str_eq d (py.sha256_hexdigest k))) [
        | inl q ↦ rw q ((k, sym ((eq_iff d (py.sha256_hexdigest k)).0 q), v), t)
        | inr q ↦ rw q (u, Trusted-put k e rows cache t v)
      ]

  -- What a call may do to the service: the stored keys last, and the cache stays trusted.
  abbrev pub Safe : KeyService → KeyService → Type 0
  Safe s after =
      Lasting s.api_keys after.api_keys
      × (Trusted s.api_keys s.cache → Trusted after.api_keys after.cache)

  -- An answer that names a principal has a stored key behind it.
  abbrev pub Rightful : String → KeyService → AuthError ⊎ Principal → Type 0
  Rightful k s (inl e) = Unit
  Rightful k s (inr p) = Vouched s.api_keys k p

  remember-Safe :
      (k : String) (r : ApiKeyRecord) (now time : ℕ) (s : KeyService)
      → Vouched s.api_keys k (principal_of py pepper r)
      → Safe s (remember py pepper (py.sha256_hexdigest k) r now time s)
  unfolding remember
  remember-Safe k r now time s v =
      let e : CacheEntry = record {
        principal = principal_of py pepper r;
        expires_at = now + auth_cache_ttl;
      } in
      elim (Bool-cases (ltb (or_now (get r.key_id s.touch_seen) + touch_interval) now)) [
        | inr f ↦ rw f (Lasting-same s.api_keys, λ t. Trusted-put k e s.api_keys s.cache t v)
        | inl f ↦
            let l = Lasting-touch_api_key r.key_id time s.api_keys in
            rw f (
              l,
              λ t.
                  Trusted-Lasting s.api_keys (touch_api_key r.key_id time s.api_keys)
                    (put (py.sha256_hexdigest k) e s.cache) l
                    (Trusted-put k e s.api_keys s.cache t v),
            )
      ]

  check_record-Safe :
      (k : String) (parts : String × String) (o : Option ApiKeyRecord) (now time : ℕ)
      (s : KeyService)
      → split_key k ≡ some parts
      → get_api_key parts.0 s.api_keys ≡ o
      → Rightful k s (check_record py pepper k o now time s).0
        × Safe s (check_record py pepper k o now time s).1
  unfolding check_record fail
  check_record-Safe k parts none now time s h g = (tt, (Lasting-same s.api_keys, λ t. t))
  check_record-Safe k parts (some r) now time s h g = elim (Bool-cases (is_active r)) [
    | inr a ↦ rw a (tt, (Lasting-same s.api_keys, λ t. t))
    | inl a ↦ elim (Bool-cases (str_eq (hash_key py pepper k) r.key_hash)) [
      | inr b ↦ rw (a, b) (tt, (Lasting-same s.api_keys, λ t. t))
      | inl b ↦
          let v : Vouched s.api_keys k (principal_of py pepper r) =
            (parts, r, h, g, a, (eq_iff (hash_key py pepper k) r.key_hash).0 b, refl) in
          rw (a, b) (v, remember-Safe k r now time s v)
    ]
  ]

  check_split-Safe :
      (k : String) (o : Option (String × String)) (now time : ℕ) (s : KeyService)
      → split_key k ≡ o
      → Rightful k s (check_split py pepper k o now time s).0
        × Safe s (check_split py pepper k o now time s).1
  unfolding check_split fail
  check_split-Safe k none now time s h = (tt, (Lasting-same s.api_keys, λ t. t))
  check_split-Safe k (some parts) now time s h =
      check_record-Safe k parts (get_api_key parts.0 s.api_keys) now time s h refl

  pub check_key-Safe :
      (k : String) (now time : ℕ) (s : KeyService)
      → Rightful k s (check_key py pepper k now time s).0
        × Safe s (check_key py pepper k now time s).1
  unfolding check_key
  check_key-Safe k now time s = check_split-Safe k (split_key k) now time s refl
