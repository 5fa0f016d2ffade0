-- ===== src/Tenancy/Table.antt =====
-- The data of tenancy/auth.py: the keys and their texts, and the table `api_keys` of
-- storage/store.py.
use Prim.Native.Char.{Char, code}
use Prim.Native.String.{count}
use thot_secure.Prelude.{
  ℕ, String, str_append, Bool, true, false, Option, none, some, List, [], ◌∷◌, ◌++◌, str_eq, ◌==◌,
  ltb, not, any, ◌&&◌, ◌||◌, if◌then◌else◌,
}
use thot_secure.Value.{non_empty, or_empty}
use thot_secure.Audit.Defs.{AuditLog}

pub record ApiKeyRecord : Type 0 where
  pub key_id : String
  pub tenant_id : String
  pub label : String
  pub role : String
  pub key_hash : String
  pub key_prefix : String
  pub created_at : ℕ
  pub last_used_at : Option ℕ
  pub revoked_at : Option ℕ

pub record Principal : Type 0 where
  pub tenant_id : String
  pub role : String
  pub key_id : Option String
  pub label : String
  pub capabilities : List String
  pub authenticated : Bool

pub record CacheEntry : Type 0 where
  pub principal : Principal
  pub expires_at : ℕ

-- `tenants` are the ids of the table of tenants.
pub record KeyService : Type 0 where
  pub tenants : List String
  pub api_keys : List ApiKeyRecord
  pub audit_log : AuditLog
  pub cache : List (String × CacheEntry)
  pub touch_seen : List (String × ℕ)
  pub authentications : ℕ
  pub failures : ℕ

pub data AuthError : Type 0 where
  key_missing bad_format unknown_or_revoked key_invalid : AuthError
  tenant_unknown key_unknown key_conflict : AuthError

abbrev pub auth_cache_ttl : ℕ
auth_cache_ttl = 60000

abbrev pub touch_interval : ℕ
touch_interval = 60000

-- text.split("_")
unfoldable pub split_underscores : String → List String
split_underscores String.[] = "" ∷ []
split_underscores (String.◌∷◌ c s) =
    let rest = split_underscores s in if code c == b'_' then "" ∷ rest else glue c rest
  where
    glue : Char → List String → List String
    glue c [] = String.◌∷◌ c "" ∷ []
    glue c (w ∷ ws) = String.◌∷◌ c w ∷ ws

-- Three parts, the first of them `thot`.
abbrev pub key_parts : List String → Option (String × String)
key_parts (a ∷ b ∷ c ∷ []) =
    if str_eq a "thot" && non_empty b && not (ltb (count c) 16) then some (b, c) else none
key_parts parts = none

unfoldable pub split_key : String → Option (String × String)
split_key api_key = key_parts (split_underscores api_key)

-- text.replace("-", "").replace("_", "")
unfoldable pub without_marks : String → String
without_marks String.[] = ""
without_marks (String.◌∷◌ c s) =
    let rest = without_marks s in
    if code c == b'-' || code c == b'_' then rest else String.◌∷◌ c rest

unfoldable pub get_api_key : String → List ApiKeyRecord → Option ApiKeyRecord
get_api_key key_id [] = none
get_api_key key_id (r ∷ rows) = if str_eq r.key_id key_id then some r else get_api_key key_id rows

-- none for ConflictError: the key_id is the primary key.
unfoldable pub insert_api_key : ApiKeyRecord → List ApiKeyRecord → Option (List ApiKeyRecord)
insert_api_key record_ rows =
    if any (λ r. str_eq r.key_id record_.key_id) rows then none else some (rows ++ record_ ∷ [])

abbrev pub is_active : ApiKeyRecord → Bool
is_active r = elim r.revoked_at [ none ↦ true | some t ↦ false ]

-- if tenant_id: sql += " AND tenant_id = ?"
abbrev pub of_tenant : Option String → ApiKeyRecord → Bool
of_tenant tenant_id r =
    not (non_empty (or_empty tenant_id)) || str_eq r.tenant_id (or_empty tenant_id)

abbrev pub is_revocable : String → Option String → ApiKeyRecord → Bool
is_revocable key_id tenant_id r = str_eq r.key_id key_id && is_active r && of_tenant tenant_id r

-- The rows, and whether one was changed.
unfoldable pub revoke_api_key :
    String → Option String → ℕ → List ApiKeyRecord → Bool × List ApiKeyRecord
revoke_api_key key_id tenant_id time [] = (false, [])
revoke_api_key key_id tenant_id time (r ∷ rows) =
    let (done, rest) = revoke_api_key key_id tenant_id time rows in
    if is_revocable key_id tenant_id r
    then (true, record r { revoked_at = some time } ∷ rest)
    else (done, r ∷ rest)

unfoldable pub touch_api_key : String → ℕ → List ApiKeyRecord → List ApiKeyRecord
touch_api_key key_id time [] = []
touch_api_key key_id time (r ∷ rows) =
    (if str_eq r.key_id key_id then record r { last_used_at = some time } else r)
    ∷ touch_api_key key_id time rows

abbrev pub or_now : Option ℕ → ℕ
or_now none = 0
or_now (some t) = t

abbrev pub names_key : String → Option String → Bool
names_key id none = false
names_key id (some k) = str_eq k id

abbrev pub api_key_of : String → String → String
api_key_of key_id secret = str_append "thot_" (str_append key_id (str_append "_" secret))
