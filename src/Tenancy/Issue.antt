-- ===== src/Tenancy/Issue.antt =====
-- The keys that `create` gives, before `authenticate`.
use Prim.Native.Char.{code}
use Prim.Native.String.{count}
use text.Mathlib.TextLemmas.{cons-append, nil-append, append_assoc, append-eq-nil_iff}
use thot_secure.Prelude.{
  ℕ, suc, String, str_append, Bool, true, false, none, some, List, [], ◌∷◌, ◌++◌, ◌≡◌, inl, inr,
  str_eq, eq_iff, eq_refl, ◌==◌, ltb, any, ◌||◌, arith, refl, ap, ◌∙◌, Bool-cases,
}
use thot_secure.Value.{get, is_in, non_empty, or_empty}
use thot_secure.Platform.{Platform}
use thot_secure.Net.{has_char}
use thot_secure.Detection.Regex.{prefix}
use thot_secure.Tenancy.Table.{
  ApiKeyRecord, KeyService, split_underscores, split_key, without_marks, get_api_key,
  insert_api_key, api_key_of, key_parts, is_active,
}
use thot_secure.Tenancy.Keys.{
  hash_key, build_principal, principal_of, check_record, check_split, check_key, from_cache,
  authenticate, create,
}

apart : (a b : Bool) → (a || b) ≡ false → (a ≡ false) × (b ≡ false)
apart a b h = ground arith

under : (t : String) → split_underscores (str_append "_" t) ≡ "" ∷ split_underscores t
unfolding split_underscores
under t =
    ap split_underscores
      (cons-append "_" "" t ∙ ap (λ (x : String). String.◌∷◌ "_" x) (nil-append t))

split_underscores_plain : (s : String) → has_char b'_' s ≡ false → split_underscores s ≡ s ∷ []
unfolding split_underscores has_char
split_underscores_plain String.[] h = refl
split_underscores_plain (String.◌∷◌ c s) h =
    let (e, f) = apart (code c == b'_') (has_char b'_' s) h in
    rw (e, split_underscores_plain s f) refl

split_underscores-str_append :
    (s t : String)
    → has_char b'_' s ≡ false
    → split_underscores (str_append s (str_append "_" t)) ≡ s ∷ split_underscores t
unfolding split_underscores has_char
split_underscores-str_append String.[] t h = rw (nil-append (str_append "_" t)) (under t)
split_underscores-str_append (String.◌∷◌ c s) t h =
    let (e, f) = apart (code c == b'_') (has_char b'_' s) h in
    rw (cons-append c s (str_append "_" t)) (rw (e, split_underscores-str_append s t f) refl)

has_char-without_marks : (s : String) → has_char b'_' (without_marks s) ≡ false
unfolding without_marks has_char
has_char-without_marks String.[] = refl
has_char-without_marks (String.◌∷◌ c s) = elim (Bool-cases (code c == b'_')) [
  | inl f ↦ elim (Bool-cases (code c == b'-')) [
    | inl e ↦ rw e (has_char-without_marks s)
    | inr e ↦ rw (e, f) (has_char-without_marks s)
  ]
  | inr f ↦ elim (Bool-cases (code c == b'-')) [
    | inl e ↦ rw e (has_char-without_marks s)
    | inr e ↦ rw (e, f) (rw f (has_char-without_marks s))
  ]
]

-- A key in the format of `create` is split into its id and its secret.
split_key-api_key_of :
    (id secret : String)
    → has_char b'_' id ≡ false
    → has_char b'_' secret ≡ false
    → non_empty id ≡ true
    → ltb (count secret) 16 ≡ false
    → split_key (api_key_of id secret) ≡ some (id, secret)
unfolding split_key has_char
split_key-api_key_of id secret h k n l =
    let rest = str_append id (str_append "_" secret) in
    let parts : split_underscores (api_key_of id secret) ≡ "thot" ∷ id ∷ secret ∷ [] =
      ap split_underscores (append_assoc "thot" "_" rest)
      ∙ split_underscores-str_append "thot" rest refl
      ∙ ap (λ ws. "thot" ∷ ws)
          (split_underscores-str_append id secret h
            ∙ ap (λ ws. id ∷ ws) (split_underscores_plain secret k)) in
    ap key_parts parts ∙ rw (n, l) refl

get_api_key-last :
    (x : ApiKeyRecord) (rows : List ApiKeyRecord)
    → any (λ r. str_eq r.key_id x.key_id) rows ≡ false
    → get_api_key x.key_id (rows ++ x ∷ []) ≡ some x
unfolding get_api_key
get_api_key-last x [] h = rw (eq_refl x.key_id) refl
get_api_key-last x (r ∷ rows) h =
    let (e, f) = apart (str_eq r.key_id x.key_id) (any (λ q. str_eq q.key_id x.key_id) rows) h in
    rw e (get_api_key-last x rows f)

non_empty-api_key_of : (id secret : String) → non_empty (api_key_of id secret) ≡ true
unfolding non_empty
non_empty-api_key_of id secret = elim (Bool-cases (str_eq (api_key_of id secret) "")) [
  | inr e ↦ rw e refl
  | inl e ↦
      let (a, b) = append-eq-nil_iff.0 ((eq_iff (api_key_of id secret) "").0 e) in
      let no : false ≡ true = ap (λ x. str_eq x "") a in rw e no
]

module _ (py : Platform) (pepper : String) where
  check_key-row :
      (k : String) (parts : String × String) (r : ApiKeyRecord) (now time : ℕ) (s : KeyService)
      → split_key k ≡ some parts
      → get_api_key parts.0 s.api_keys ≡ some r
      → is_active r ≡ true
      → hash_key py pepper k ≡ r.key_hash
      → (check_key py pepper k now time s).0 ≡ inr (principal_of py pepper r)
  unfolding check_key check_split check_record
  check_key-row k parts r now time s h g a e = rw (h, g, a, e, eq_refl r.key_hash) refl

  authenticate-row :
      (k : String) (parts : String × String) (r : ApiKeyRecord) (now time : ℕ) (s : KeyService)
      → non_empty k ≡ true
      → get (py.sha256_hexdigest k) s.cache ≡ none
      → split_key k ≡ some parts
      → get_api_key parts.0 s.api_keys ≡ some r
      → is_active r ≡ true
      → hash_key py pepper k ≡ r.key_hash
      → (authenticate py pepper (some k) now time s).0 ≡ inr (principal_of py pepper r)
  unfolding authenticate from_cache or_empty
  authenticate-row k parts r now time s n c h g a e =
      rw (n, c)
        (check_key-row k parts r now time (record s { authentications = suc s.authentications }) h g
          a e)

  -- Creation for a known tenant, with a new id free of underscores and a secret of at least 16
  -- characters besides dashes and underscores, gives a key; if the cache does not know its digest,
  -- the next authentication with it gives the tenant and the role it was made for.
  pub create-authenticate :
      (tenant_id role label actor actor_role key_id secret : String) (time now later : ℕ)
      (s : KeyService)
      → is_in tenant_id s.tenants ≡ true
      → any (λ r. str_eq r.key_id key_id) s.api_keys ≡ false
      → has_char b'_' key_id ≡ false
      → non_empty key_id ≡ true
      → ltb (count (without_marks secret)) 16 ≡ false
      → get (py.sha256_hexdigest (api_key_of key_id (without_marks secret))) s.cache ≡ none
      → let made = create py pepper tenant_id role label actor actor_role key_id secret time s in
        let key = api_key_of key_id (without_marks secret) in
        (made.0 ≡ inr key)
        × ((authenticate py pepper (some key) now later made.1).0
            ≡ inr (build_principal py pepper tenant_id role (some key_id) (prefix 80 label)))
  unfolding create insert_api_key
  create-authenticate tenant_id role label actor actor_role key_id secret time now later s t f u n l
        c =
      let key = api_key_of key_id (without_marks secret) in
      rw (t, f)
        (
          refl,
          authenticate-row key (key_id, without_marks secret) _ now later _
              (non_empty-api_key_of key_id (without_marks secret)) c
              (split_key-api_key_of key_id (without_marks secret) u (has_char-without_marks secret)
                n l)
              (get_api_key-last _ s.api_keys f) refl refl,
        )
