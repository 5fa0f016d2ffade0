-- ===== src/Tests/KeyCases.antt =====
-- One key, presented twice and then revoked.
use thot_secure.Prelude.{String, true, none, some, [], ◌∷◌, ◌≡◌, ◌≢◌, inr, refl}
use thot_secure.Value.{get, put, is_in, non_empty, or_empty}
use thot_secure.Audit.Defs.{empty_log}
use thot_secure.Tenancy.Table.{
  ApiKeyRecord, KeyService, split_underscores, split_key, get_api_key, revoke_api_key,
  touch_api_key, without_marks, api_key_of,
}
use thot_secure.Tenancy.Keys.{
  hash_key, build_principal, principal_of, remember, check_record, check_split, check_key,
  from_cache, authenticate, revoke_found, revoke, create,
}
use thot_secure.Tenancy.Authentication.{
  Request, signing_in, serve, serve_all, authenticate-Vouched, revoke-refused,
}
use thot_secure.Tenancy.Access.{Vouched}
use thot_secure.Tenancy.Issue.{create-authenticate}
use thot_secure.Net.{has_char}
use thot_secure.Detection.Regex.{prefix}
use thot_secure.Tests.Toy.{toy}

abbrev key : String
key = "thot_K1_0123456789abcdef"

abbrev row : ApiKeyRecord
row = record {
  key_id = "K1";
  tenant_id = "acme";
  label = "ci";
  role = "analyst";
  key_hash = "thot_K1_0123456789abcdef";
  key_prefix = "thot_K1_012";
  created_at = 0;
  last_used_at = none;
  revoked_at = none;
}

abbrev service : KeyService
service = record {
  tenants = "acme" ∷ [];
  api_keys = row ∷ [];
  audit_log = empty_log;
  cache = [];
  touch_seen = [];
  authentications = 0;
  failures = 0;
}

abbrev sign_in : Request toy "pepper"
sign_in = signing_in (some key) 100000 5

accepted_again :
    (authenticate toy "pepper"
      (some key)
      100001
      6
      (serve_all toy "pepper" (sign_in ∷ []) service)).0
    ≡ inr (principal_of toy "pepper" row)
unfolding authenticate serve from_cache check_key check_split check_record remember hash_key
    split_key split_underscores get_api_key touch_api_key get put non_empty or_empty
accepted_again = refl

authenticate-Vouched_example :
    Vouched toy "pepper"
      (serve_all toy "pepper" (sign_in ∷ []) service).api_keys
      key
      (principal_of toy "pepper" row)
authenticate-Vouched_example =
    authenticate-Vouched toy "pepper" (sign_in ∷ []) key 100001 6 service
      (principal_of toy "pepper" row) (λ a b h. h) refl accepted_again

key_parts_of_key : split_key key ≡ some ("K1", "0123456789abcdef")
unfolding split_key split_underscores non_empty
key_parts_of_key = refl

revoked : (revoke toy "pepper" "K1" none "cli" 9 service).0 ≡ inr true
unfolding revoke revoke_found get_api_key revoke_api_key non_empty or_empty
revoked = refl

revoke-refused_example :
    (authenticate toy "pepper"
      (some key)
      100002
      10
      (serve_all toy "pepper" (sign_in ∷ []) (revoke toy "pepper" "K1" none "cli" 9 service).1)).0
    ≢ inr (principal_of toy "pepper" row)
revoke-refused_example =
    revoke-refused toy "pepper" (sign_in ∷ []) "K1" none "cli" 9 100002 10 key "0123456789abcdef"
      service true (principal_of toy "pepper" row) (λ a b h. h) key_parts_of_key revoked

create-authenticate_example :
    ((create toy "pepper" "acme" "admin" "ops" "cli" "admin" "K2" "abcdefghijklmnop-q" 3 service).0
      ≡ inr (api_key_of "K2" (without_marks "abcdefghijklmnop-q")))
    × ((authenticate toy "pepper"
          (some (api_key_of "K2" (without_marks "abcdefghijklmnop-q")))
          7
          8
          (create toy "pepper" "acme" "admin" "ops" "cli" "admin" "K2" "abcdefghijklmnop-q" 3
            service).1).0
        ≡ inr (build_principal toy "pepper" "acme" "admin" (some "K2") (prefix 80 "ops")))
unfolding is_in has_char non_empty without_marks get
create-authenticate_example =
    create-authenticate toy "pepper" "acme" "admin" "ops" "cli" "admin" "K2" "abcdefghijklmnop-q" 3
      7 8 service refl refl refl refl refl refl
