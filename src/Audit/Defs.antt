-- ===== src/Audit/Defs.antt =====
-- The hash chain of the audit log: audit/hashchain.py, `verify` of audit/chain.py, and
-- `append_audit` and the audit part of `purge` of storage/store.py. The rows of the table are a
-- list in the order of `seq`; times count milliseconds.
use thot_secure.Prelude.{
  ℕ, ◌+◌, ◌*◌, String, str_append, Bool, true, false, Option, none, some, List, [], ◌∷◌, ◌++◌,
  str_eq, ltb, not, ◌&&◌, keep, if◌then◌else◌,
}
use thot_secure.Value.{Dict}
use thot_secure.Platform.{Platform}

pub record AuditRecord : Type 0 where
  pub seq : ℕ
  pub ts : ℕ
  pub tenant_id : String
  pub actor : String
  pub actor_role : String
  pub action : String
  pub target : Dict
  pub before : Dict
  pub after : Dict
  pub context : Dict
  pub prev_hash : String
  pub hash : String

-- The arguments of `append_audit`.
pub record Entry : Type 0 where
  pub ts : ℕ
  pub tenant_id : String
  pub actor : String
  pub actor_role : String
  pub action : String
  pub target : Dict
  pub before : Dict
  pub after : Dict
  pub context : Dict

abbrev pub genesis_hash : String
genesis_hash = "sha256:genesis"

abbrev pub hash_prefix : String
hash_prefix = "sha256:"

-- "|".join(parts)
unfoldable pub join_bar : List String → String
join_bar [] = ""
join_bar (p ∷ []) = p
join_bar (p ∷ q ∷ ps) = str_append p (str_append "|" (join_bar (q ∷ ps)))

-- Why `verify_record` refuses: the link to the record before, or the content.
pub data Reason : Type 0 where
  chain_broken content_modified : Reason

pub record VerifyResult : Type 0 where
  pub valid : Bool
  pub records : ℕ
  pub broken_at : Option ℕ
  pub reason : Option Reason

-- The table `audit_log`; `next_seq` is the AUTOINCREMENT counter.
pub record AuditLog : Type 0 where
  pub rows : List AuditRecord
  pub next_seq : ℕ

abbrev pub empty_log : AuditLog
empty_log = record { rows = []; next_seq = 1 }

-- SELECT hash FROM audit_log ORDER BY seq DESC LIMIT 1, or GENESIS_HASH
unfoldable pub last_hash : String → List AuditRecord → String
last_hash h [] = h
last_hash h (r ∷ rs) = last_hash r.hash rs

-- What the caller's filter counts.
unfoldable pub counts_for : Option String → AuditRecord → ℕ
counts_for none r = 0
counts_for (some t) r = if not (str_eq t "") && str_eq r.tenant_id t then 1 else 0

unfoldable pub total_for : Option String → ℕ → ℕ → ℕ
total_for none counted total = total
total_for (some t) counted total = if str_eq t "" then total else counted

module _ (py : Platform) where
  -- The joined text that is hashed.
  unfoldable pub payload : AuditRecord → String → String
  payload r prev = join_bar (
      py.str_int r.seq
      ∷ py.isoformat r.ts
      ∷ r.tenant_id
      ∷ r.actor
      ∷ r.actor_role
      ∷ r.action
      ∷ py.json_dumps r.target
      ∷ py.json_dumps r.before
      ∷ py.json_dumps r.after
      ∷ prev
      ∷ [])

  unfoldable pub record_fingerprint : AuditRecord → String → String
  record_fingerprint r prev = str_append hash_prefix (py.sha256_hexdigest (payload r prev))

  unfoldable pub verify_record : AuditRecord → String → Bool × Option Reason
  verify_record r expected =
      if not (str_eq r.prev_hash expected)
      then (false, some chain_broken)
      else if not (str_eq (record_fingerprint r expected) r.hash)
      then (false, some content_modified)
      else (true, none)

  -- The loop of `AuditChain.verify`.
  unfoldable pub verify_from : Option String → String → ℕ → ℕ → List AuditRecord → VerifyResult
  verify_from tenant expected counted total [] = record {
    valid = true;
    records = total_for tenant counted total;
    broken_at = none;
    reason = none;
  }
  verify_from tenant expected counted total (r ∷ rs) =
      let (valid, reason) = verify_record r expected in
      let rest = verify_from tenant r.hash (counted + counts_for tenant r) (total + 1) rs in
      if valid
      then rest
      else record { valid = false; records = total + 1; broken_at = some r.seq; reason = reason }

  unfoldable pub verify : Option String → AuditLog → VerifyResult
  verify tenant log = verify_from tenant genesis_hash 0 0 log.rows

  -- The row that `append_audit` inserts, with the hash that its UPDATE writes.
  unfoldable pub new_row : Entry → AuditLog → AuditRecord
  new_row e log =
      let prev = last_hash genesis_hash log.rows in
      let row : AuditRecord = record {
        seq = log.next_seq;
        ts = e.ts;
        tenant_id = e.tenant_id;
        actor = e.actor;
        actor_role = e.actor_role;
        action = e.action;
        target = e.target;
        before = e.before;
        after = e.after;
        context = e.context;
        prev_hash = prev;
        hash = "";
      } in
      record row { hash = record_fingerprint row prev }

  unfoldable pub append_audit : Entry → AuditLog → AuditRecord × AuditLog
  append_audit e log =
      let row = new_row e log in
      (row, record { rows = log.rows ++ row ∷ []; next_seq = log.next_seq + 1 })

-- ts < utcnow() - timedelta(days=retention_days), in milliseconds
unfoldable pub is_expired : ℕ → ℕ → AuditRecord → Bool
is_expired retention_days now r = ltb (r.ts + retention_days * 86400000) now

-- The audit part of `Store.purge`: DELETE FROM audit_log WHERE ts < cutoff, unless the
-- retention is ten years or more.
unfoldable pub purge_audit : ℕ → ℕ → AuditLog → AuditLog
purge_audit retention_days now log =
    if ltb retention_days 3650
    then record log { rows = keep (λ r. not (is_expired retention_days now r)) log.rows }
    else log
