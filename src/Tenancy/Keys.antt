-- ===== src/Tenancy/Keys.antt =====
-- The API keys of tenancy/auth.py: `ApiKeyService` with its cache, `build_principal` of
-- tenancy/rbac.py. The monotonic clock and the time of
-- day are two numbers, in milliseconds; the pepper is the secret key of the settings. What `new_id`
-- and `token` return are arguments.
use thot_secure.Prelude.{
  ℕ, suc, String, Bool, true, Option, none, some, List, [], ◌∷◌, ◌+◌, str_eq, ◌⊎◌, inl, inr, ltb,
  not, keep, if◌then◌else◌,
}
use thot_secure.Value.{null, str, get, put, is_in, non_empty, or_empty}
use thot_secure.Platform.{Platform}
use thot_secure.Tenancy.{capabilities_for}
use thot_secure.Detection.Regex.{prefix}
use thot_secure.Audit.Defs.{Entry, append_audit}
use thot_secure.Tenancy.Table.{
  auth_cache_ttl, touch_interval, split_key, without_marks, get_api_key, insert_api_key, is_active,
  of_tenant, revoke_api_key, touch_api_key, or_now, names_key, api_key_of, ApiKeyRecord, Principal,
  CacheEntry, KeyService, AuthError, key_missing, bad_format, unknown_or_revoked, key_invalid,
  tenant_unknown, key_unknown, key_conflict,
}

module _ (py : Platform) (pepper : String) where
  unfoldable pub hash_key : String → String
  hash_key api_key = py.scrypt pepper api_key

  unfoldable pub build_principal : String → String → Option String → String → Principal
  build_principal tenant_id role key_id label = record {
    tenant_id = tenant_id;
    role = role;
    key_id = key_id;
    label = label;
    capabilities = capabilities_for py role;
    authenticated = true;
  }

  abbrev pub principal_of : ApiKeyRecord → Principal
  principal_of r = build_principal r.tenant_id r.role (some r.key_id) r.label

  unfoldable pub fail : AuthError → KeyService → (AuthError ⊎ Principal) × KeyService
  fail e s = (inl e, record s { failures = suc s.failures })

  -- The principal enters the cache, and the key is touched at most once a minute.
  unfoldable pub remember : String → ApiKeyRecord → ℕ → ℕ → KeyService → KeyService
  remember digest r now time s =
      let last_touch = or_now (get r.key_id s.touch_seen) in
      let cached = record s {
        cache =
            put digest (record { principal = principal_of r; expires_at = now + auth_cache_ttl })
              s.cache;
      } in
      if ltb (last_touch + touch_interval) now
      then record cached {
        touch_seen = put r.key_id now s.touch_seen;
        api_keys = touch_api_key r.key_id time s.api_keys;
      }
      else cached

  -- The stored key against the presented one.
  unfoldable pub check_record :
      String → Option ApiKeyRecord → ℕ → ℕ → KeyService → (AuthError ⊎ Principal) × KeyService
  check_record api_key none now time s = fail unknown_or_revoked s
  check_record api_key (some r) now time s =
      if not (is_active r)
      then fail unknown_or_revoked s
      else if not (str_eq (hash_key api_key) r.key_hash)
      then fail key_invalid s
      else (inr (principal_of r), remember (py.sha256_hexdigest api_key) r now time s)

  unfoldable pub check_split :
      String → Option (String × String) → ℕ → ℕ → KeyService → (AuthError ⊎ Principal) × KeyService
  check_split api_key none now time s = fail bad_format s
  check_split api_key (some parts) now time s =
      check_record api_key (get_api_key parts.0 s.api_keys) now time s

  unfoldable pub check_key : String → ℕ → ℕ → KeyService → (AuthError ⊎ Principal) × KeyService
  check_key api_key now time s = check_split api_key (split_key api_key) now time s

  -- self._cache.pop(cache_key, None)
  unfoldable pub forget : String → List (String × CacheEntry) → List (String × CacheEntry)
  forget digest cache = keep (λ (e : String × CacheEntry). not (str_eq e.0 digest)) cache

  unfoldable pub from_cache :
      String → Option CacheEntry → ℕ → ℕ → KeyService → (AuthError ⊎ Principal) × KeyService
  from_cache api_key none now time s = check_key api_key now time s
  from_cache api_key (some e) now time s =
      if ltb now e.expires_at
      then (inr e.principal, s)
      else check_key api_key now time
          (record s { cache = forget (py.sha256_hexdigest api_key) s.cache })

  unfoldable pub authenticate :
      Option String → ℕ → ℕ → KeyService → (AuthError ⊎ Principal) × KeyService
  authenticate api_key now time s =
      let counted = record s { authentications = suc s.authentications } in
      if not (non_empty (or_empty api_key))
      then fail key_missing counted
      else from_cache (or_empty api_key) (get (py.sha256_hexdigest (or_empty api_key)) s.cache) now
          time counted

  -- `invalidate`
  unfoldable pub invalidate : Option String → KeyService → KeyService
  invalidate none s = record s { cache = [] }
  invalidate (some id) s = record s {
    cache = keep (λ (e : String × CacheEntry). not (names_key id e.1.principal.key_id)) s.cache;
  }

  abbrev pub log_entry : Entry → KeyService → KeyService
  log_entry entry s = record s { audit_log = (append_audit py entry s.audit_log).1 }

  -- The new rows, or the conflict.
  abbrev pub created :
      String → Entry → KeyService → Option (List ApiKeyRecord) → (AuthError ⊎ String) × KeyService
  created key entry s none = (inl key_conflict, s)
  created key entry s (some rows) = (inr key, log_entry entry (record s { api_keys = rows }))

  -- The arguments `key_id` and `secret` are what `new_id` and `token` give.
  unfoldable pub create :
      String
      → String
      → String
      → String
      → String
      → String
      → String
      → ℕ
      → KeyService
      → (AuthError ⊎ String) × KeyService
  create tenant_id role label actor actor_role key_id secret time s =
      let key = api_key_of key_id (without_marks secret) in
      let row : ApiKeyRecord = record {
        key_id = key_id;
        tenant_id = tenant_id;
        label = prefix 80 label;
        role = role;
        key_hash = hash_key key;
        key_prefix = prefix 11 key;
        created_at = time;
        last_used_at = none;
        revoked_at = none;
      } in
      let entry : Entry = record {
        ts = time;
        tenant_id = tenant_id;
        actor = actor;
        actor_role = actor_role;
        action = "key.create";
        target = ("type", str "api_key") ∷ ("id", str key_id) ∷ [];
        before = [];
        after = ("key_id", str key_id) ∷ ("role", str role) ∷ ("label", str (prefix 80 label)) ∷ [];
        context = [];
      } in
      if not (is_in tenant_id s.tenants)
      then (inl tenant_unknown, s)
      else created key entry s (insert_api_key row s.api_keys)

  unfoldable pub revoke_found :
      String
      → Option String
      → String
      → ℕ
      → KeyService
      → Option ApiKeyRecord
      → (AuthError ⊎ Bool) × KeyService
  revoke_found key_id tenant_id actor time s none = (inl key_unknown, s)
  revoke_found key_id tenant_id actor time s (some r) =
      let (revoked, rows) = revoke_api_key key_id tenant_id time s.api_keys in
      let cleared = record s { api_keys = rows; cache = [] } in
      let entry : Entry = record {
        ts = time;
        tenant_id = r.tenant_id;
        actor = actor;
        actor_role = "admin";
        action = "key.revoke";
        target = ("type", str "api_key") ∷ ("id", str key_id) ∷ [];
        before = ("revoked_at", null) ∷ [];
        after = ("revoked_at", str (py.isoformat time)) ∷ [];
        context = [];
      } in
      if not (of_tenant tenant_id r)
      then (inl key_unknown, s)
      else (inr revoked, if revoked then log_entry entry cleared else cleared)

  unfoldable pub revoke :
      String → Option String → String → ℕ → KeyService → (AuthError ⊎ Bool) × KeyService
  revoke key_id tenant_id actor time s =
      revoke_found key_id tenant_id actor time s (get_api_key key_id s.api_keys)
