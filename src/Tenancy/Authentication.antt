-- ===== src/Tenancy/Authentication.antt =====
-- Whom `authenticate` lets in, over any sequence of calls of the key service.
use thot_secure.Prelude.{
  ℕ, suc, String, Bool, true, false, Option, none, some, List, [], ◌∷◌, ◌++◌, ◌≡◌, ◌≢◌, ◌⊎◌, inl,
  inr, str_eq, ltb, not, any, keep, arith, refl, sym, ap, subst, ◌∙◌, Bool-cases,
}
use thot_secure.Value.{get, is_in, non_empty, or_empty}
use thot_secure.Platform.{Platform}
use thot_secure.Audit.Defs.{Entry}
use thot_secure.Tenancy.Table.{
  ApiKeyRecord, Principal, CacheEntry, KeyService, AuthError, split_key, get_api_key,
  insert_api_key, of_tenant, revoke_api_key, names_key,
}
use thot_secure.Tenancy.Keys.{
  fail, from_cache, forget, authenticate, invalidate, created, create, revoke_found, revoke,
}
use thot_secure.Tenancy.Rows.{activity, Dead, revoke_api_key-Dead, revoke_api_key-keeps}
use thot_secure.Tenancy.Access.{
  Vouched, Lasting-same, Lasting-append, Trusted, Trusted-get, Trusted-Lasting, Trusted-keep, Safe,
  Rightful, check_key-Safe,
}

module _ (py : Platform) (pepper : String) where
  from_cache-Safe :
      (k : String) (o : Option CacheEntry) (now time : ℕ) (s : KeyService)
      → ((e : CacheEntry) → o ≡ some e → Vouched py pepper s.api_keys k e.principal)
      → Rightful py pepper k s (from_cache py pepper k o now time s).0
        × Safe py pepper s (from_cache py pepper k o now time s).1
  unfolding from_cache forget
  from_cache-Safe k none now time s h = check_key-Safe py pepper k now time s
  from_cache-Safe k (some e) now time s h = elim (Bool-cases (ltb now e.expires_at)) [
    | inl f ↦ rw f (h e refl, (Lasting-same py pepper s.api_keys, λ t. t))
    | inr f ↦
        let p = λ (x : String × CacheEntry). not (str_eq x.0 (py.sha256_hexdigest k)) in
        let s' = record s { cache = keep p s.cache } in
        let (r, (l, u)) = check_key-Safe py pepper k now time s' in
        rw f (r, (l, λ t. u (Trusted-keep py pepper p s.api_keys s.cache t)))
  ]

  authenticate-Safe :
      (k : String) (now time : ℕ) (s : KeyService)
      → ((a b : String) → py.sha256_hexdigest a ≡ py.sha256_hexdigest b → a ≡ b)
      → Trusted py pepper s.api_keys s.cache
      → Rightful py pepper k s (authenticate py pepper (some k) now time s).0
        × Safe py pepper s (authenticate py pepper (some k) now time s).1
  unfolding authenticate fail or_empty
  authenticate-Safe k now time s c t = elim (Bool-cases (non_empty k)) [
    | inr f ↦ rw f (tt, (Lasting-same py pepper s.api_keys, λ u. u))
    | inl f ↦ rw f (
        from_cache-Safe k (get (py.sha256_hexdigest k) s.cache) now time
          (record s { authentications = suc s.authentications })
          (λ e h.
            let (j, q, v) =
              Trusted-get py pepper (py.sha256_hexdigest k) e s.api_keys s.cache t h in
            subst (λ x. Vouched py pepper s.api_keys x e.principal) (c j k q) v))
  ]

  created-Safe :
      (key : String) (entry : Entry) (x : ApiKeyRecord) (s : KeyService)
      → Safe py pepper s (created py pepper key entry s (insert_api_key x s.api_keys)).1
  unfolding insert_api_key
  created-Safe key entry x s = elim (Bool-cases (any (λ r. str_eq r.key_id x.key_id) s.api_keys)) [
    | inl e ↦ rw e (Lasting-same py pepper s.api_keys, λ t. t)
    | inr e ↦
        let l = Lasting-append py pepper x s.api_keys in
        rw e (l, λ t. Trusted-Lasting py pepper s.api_keys (s.api_keys ++ x ∷ []) s.cache l t)
  ]

  create-Safe :
      (tenant_id role label actor actor_role key_id secret : String) (time : ℕ) (s : KeyService)
      → Safe py pepper s
          (create py pepper tenant_id role label actor actor_role key_id secret time s).1
  unfolding create
  create-Safe tenant_id role label actor actor_role key_id secret time s =
      elim (Bool-cases (is_in tenant_id s.tenants)) [
        | inr e ↦ rw e (Lasting-same py pepper s.api_keys, λ t. t)
        | inl e ↦ rw e (created-Safe _ _ _ s)
      ]

  -- After a revocation the cache is empty, and a key that was revoked stays so.
  abbrev Guarded : KeyService → KeyService → Type 0
  Guarded s after =
      ((id : String) → Dead id s.api_keys → Dead id after.api_keys)
      × (Trusted py pepper s.api_keys s.cache → Trusted py pepper after.api_keys after.cache)

  revoke_found-Guarded :
      (k : String) (tenant : Option String) (actor : String) (time : ℕ) (s : KeyService)
      (o : Option ApiKeyRecord)
      → Guarded s (revoke_found py pepper k tenant actor time s o).1
  unfolding revoke_found
  revoke_found-Guarded k tenant actor time s none = (λ id d. d, λ t. t)
  revoke_found-Guarded k tenant actor time s (some r) =
      let rows = (revoke_api_key k tenant time s.api_keys).1 in
      let dead : (id : String) → Dead id s.api_keys → Dead id rows =
        λ id (x, g, a). (x, revoke_api_key-keeps id k tenant time s.api_keys x g a, a) in
      elim (Bool-cases (of_tenant tenant r)) [
        | inr e ↦ rw e (λ id d. d, λ t. t)
        | inl e ↦ elim (Bool-cases (revoke_api_key k tenant time s.api_keys).0) [
          | inl f ↦ rw (e, f) (dead, λ t. tt)
          | inr f ↦ rw (e, f) (dead, λ t. tt)
        ]
      ]

  abbrev is_error : AuthError ⊎ Bool → Bool
  is_error (inl e) = true
  is_error (inr b) = false

  false-true : false ≢ true
  false-true e = ground arith

  revoke_found-Dead :
      (k : String) (tenant : Option String) (actor : String) (time : ℕ) (s : KeyService)
      (done : Bool) (o : Option ApiKeyRecord)
      → get_api_key k s.api_keys ≡ o
      → (revoke_found py pepper k tenant actor time s o).0 ≡ inr done
      → Dead k (revoke_found py pepper k tenant actor time s o).1.api_keys
        × ((revoke_found py pepper k tenant actor time s o).1.cache ≡ [])
  unfolding revoke_found
  revoke_found-Dead k tenant actor time s done none g h = cc
  revoke_found-Dead k tenant actor time s done (some r) g h =
      elim (Bool-cases (of_tenant tenant r)) [
        | inr e ↦
            let f : is_error (revoke_found py pepper k tenant actor time s (some r)).0 ≡ true =
              rw e refl in
            let no : ⊥ = false-true (sym (ap is_error h) ∙ f) in absurd no
        | inl e ↦
            let d = revoke_api_key-Dead k tenant time s.api_keys r g e in
            elim (Bool-cases (revoke_api_key k tenant time s.api_keys).0) [
              | inl f ↦ rw (e, f) (d, refl)
              | inr f ↦ rw (e, f) (d, refl)
            ]
      ]

  abbrev first_part : String → Option (String × String) → String
  first_part id none = id
  first_part id (some parts) = parts.0

  invalidate-Guarded : (o : Option String) (s : KeyService) → Guarded s (invalidate py pepper o s)
  unfolding invalidate
  invalidate-Guarded none s = (λ id d. d, λ t. tt)
  invalidate-Guarded (some id) s = (
    λ id d. d,
    Trusted-keep py pepper (λ (e : String × CacheEntry). not (names_key id e.1.principal.key_id))
        s.api_keys s.cache,
  )

  Guarded-of_Safe : (s after : KeyService) → Safe py pepper s after → Guarded s after
  Guarded-of_Safe s after (l, t) = (l.1, t)

  pub data Request : Type 0 where
    -- key, monotonic time, time of day
    signing_in : Option String → ℕ → ℕ → Request
    -- tenant, role, label, actor, its role, what `new_id` and `token` give, time
    creating : String → String → String → String → String → String → String → ℕ → Request
    -- key id, tenant, actor, time
    revoking : String → Option String → String → ℕ → Request
    invalidating : Option String → Request

  unfoldable pub serve : Request → KeyService → KeyService
  serve (signing_in key now time) s = (authenticate py pepper key now time s).1
  serve (creating tenant role label actor actor_role key_id secret time) s =
      (create py pepper tenant role label actor actor_role key_id secret time s).1
  serve (revoking key_id tenant actor time) s = (revoke py pepper key_id tenant actor time s).1
  serve (invalidating key_id) s = invalidate py pepper key_id s

  abbrev pub serve_all : List Request → KeyService → KeyService
  serve_all [] s = s
  serve_all (r ∷ rs) s = serve_all rs (serve r s)

  module _ (c : (a b : String) → py.sha256_hexdigest a ≡ py.sha256_hexdigest b → a ≡ b) where
    authenticate-Guarded :
        (key : Option String) (now time : ℕ) (s : KeyService)
        → Trusted py pepper s.api_keys s.cache
        → Guarded s (authenticate py pepper key now time s).1
    unfolding authenticate fail or_empty non_empty
    authenticate-Guarded none now time s t = (λ id d. d, λ u. u)
    authenticate-Guarded (some k) now time s t =
        Guarded-of_Safe s (authenticate py pepper (some k) now time s).1
          (authenticate-Safe k now time s c t).1

    serve-Guarded :
        (r : Request) (s : KeyService)
        → Trusted py pepper s.api_keys s.cache
        → Guarded s (serve r s)
    unfolding serve revoke
    serve-Guarded (signing_in key now time) s t = authenticate-Guarded key now time s t
    serve-Guarded (creating tenant role label actor actor_role key_id secret time) s t =
        Guarded-of_Safe s
          (create py pepper tenant role label actor actor_role key_id secret time s).1
          (create-Safe tenant role label actor actor_role key_id secret time s)
    serve-Guarded (revoking key_id tenant actor time) s t =
        revoke_found-Guarded key_id tenant actor time s (get_api_key key_id s.api_keys)
    serve-Guarded (invalidating key_id) s t = invalidate-Guarded key_id s

    serve_all-Guarded :
        (rs : List Request) (s : KeyService)
        → Trusted py pepper s.api_keys s.cache
        → ((id : String) → Dead id s.api_keys → Dead id (serve_all rs s).api_keys)
          × Trusted py pepper (serve_all rs s).api_keys (serve_all rs s).cache
    serve_all-Guarded [] s t = (λ id d. d, t)
    serve_all-Guarded (r ∷ rs) s t =
        let (d, u) = serve-Guarded r s t in
        let (e, v) = serve_all-Guarded rs (serve r s) (u t) in (λ id x. e id (d id x), v)

  -- With a digest free of collisions: after any sequence of calls from an empty cache, at any times,
  -- `authenticate` gives a principal only for a key whose id names a stored key that is not revoked
  -- and has the hash of the presented one, and the tenant and the role are the stored ones.
  pub authenticate-Vouched :
      (rs : List Request) (k : String) (now time : ℕ) (s : KeyService) (p : Principal)
      → ((a b : String) → py.sha256_hexdigest a ≡ py.sha256_hexdigest b → a ≡ b)
      → s.cache ≡ []
      → (authenticate py pepper (some k) now time (serve_all rs s)).0 ≡ inr p
      → Vouched py pepper (serve_all rs s).api_keys k p
  authenticate-Vouched rs k now time s p c e h =
      let t : Trusted py pepper s.api_keys s.cache = rw e tt in
      let (d, u) = serve_all-Guarded c rs s t in
      subst (Rightful py pepper k (serve_all rs s)) h
        (authenticate-Safe k now time (serve_all rs s) c u).0

  -- With a digest free of collisions: a key that was revoked is refused by every later
  -- authentication, in spite of the cache, whatever calls come in between.
  pub revoke-refused :
      (rs : List Request) (id : String) (tenant : Option String) (actor : String) (at now time : ℕ)
      (k secret : String) (s : KeyService) (done : Bool) (p : Principal)
      → ((a b : String) → py.sha256_hexdigest a ≡ py.sha256_hexdigest b → a ≡ b)
      → split_key k ≡ some (id, secret)
      → (revoke py pepper id tenant actor at s).0 ≡ inr done
      → (authenticate py pepper
          (some k)
          now
          time
          (serve_all rs (revoke py pepper id tenant actor at s).1)).0
        ≢ inr p
  unfolding revoke
  revoke-refused rs id tenant actor at now time k secret s done p c q r h =
      let s' = (revoke py pepper id tenant actor at s).1 in
      let (d, e) = revoke_found-Dead id tenant actor at s done (get_api_key id s.api_keys) refl r in
      let (parts, x, f, g, a, i, j) = authenticate-Vouched rs k now time s' p c e h in
      let (y, m, n) = (serve_all-Guarded c rs s' (rw e tt)).0 id d in
      let named : parts.0 ≡ id = ap (first_part id) (sym f ∙ q) in
      let found = ap (λ z. get_api_key z (serve_all rs s').api_keys) (sym named) in
      let same : true ≡ false = sym a ∙ ap activity (sym g ∙ sym found ∙ m) ∙ n in ground (arith)
