-- ===== src/Tests/AuditCases.antt =====
-- The audit chain on two records.
use mathlib.Core.Bool.{false≢true}
use thot_secure.Prelude.{
  ℕ, String, true, false, none, some, List, [], ◌∷◌, ◌++◌, ◌≡◌, ◌≢◌, ◌↔◌, refl, eq_iff, arith,
}
use thot_secure.Audit.Defs.{
  AuditRecord, Entry, AuditLog, empty_log, genesis_hash, join_bar, last_hash, payload,
  record_fingerprint, verify_record, verify_from, verify, new_row, append_audit, is_expired,
  purge_audit,
}
use thot_secure.Audit.Chain.{Chained, Numbered, append_all, verify-iff-Chained, append_all-verify}
use thot_secure.Audit.Tamper.{FirstBreak, verify-FirstBreak, verify_modified, verify_deleted}
use thot_secure.Audit.Limits.{verify-purge_audit}
use thot_secure.Tests.Toy.{toy, constant_hash}

abbrev entry : String → ℕ → Entry
entry actor ts = record {
  ts = ts;
  tenant_id = "acme";
  actor = actor;
  actor_role = "admin";
  action = "key.create";
  target = [];
  before = [];
  after = [];
  context = [];
}

abbrev two_entries : List Entry
two_entries = entry "alice" 0 ∷ entry "bob" 99999999999 ∷ []

abbrev two : AuditLog
two = append_all toy two_entries empty_log

abbrev first : AuditRecord
first = new_row toy (entry "alice" 0) empty_log

abbrev second : AuditRecord
second = new_row toy (entry "bob" 99999999999) (append_audit toy (entry "alice" 0) empty_log).1

abbrev forged : AuditRecord
forged = record first { actor = "mallory" }

verify-iff-Chained_example :
    ((verify toy none two).valid ≡ true) ↔ Chained toy genesis_hash two.rows
verify-iff-Chained_example = verify-iff-Chained toy none two

append_all-verify_example :
    ((verify toy (some "acme") two).valid ≡ true) × Numbered toy 1 two.rows two.next_seq
append_all-verify_example = append_all-verify toy (some "acme") two_entries

abbrev forged_log : AuditLog
forged_log = record { rows = forged ∷ second ∷ []; next_seq = 3 }

forged_invalid : (verify toy none forged_log).valid ≡ false
unfolding verify verify_from verify_record record_fingerprint payload join_bar new_row append_audit
    last_hash
forged_invalid = refl

verify-FirstBreak_example :
    FirstBreak toy genesis_hash 0 forged_log.rows (verify toy none forged_log)
verify-FirstBreak_example = verify-FirstBreak toy none forged_log forged_invalid

two-Chained : Chained toy genesis_hash ([] ++ first ∷ second ∷ [])
unfolding record_fingerprint payload join_bar new_row append_audit last_hash
two-Chained = (refl, refl, (refl, refl, tt))

payload-forged :
    payload toy forged (last_hash genesis_hash []) ≢ payload toy first (last_hash genesis_hash [])
unfolding payload join_bar new_row last_hash
payload-forged e = false≢true ((eq_iff _ _).1 e)

verify_modified_example :
    (verify toy none (record { rows = [] ++ forged ∷ second ∷ []; next_seq = 3 })).valid ≡ false
verify_modified_example =
    verify_modified toy (λ a b e. e) none 3 [] [] first forged second two-Chained payload-forged

hash_first : first.hash ≢ first.prev_hash
unfolding record_fingerprint payload join_bar new_row last_hash
hash_first e = false≢true ((eq_iff _ _).1 e)

verify_deleted_example :
    (verify toy none (record { rows = [] ++ second ∷ []; next_seq = 3 })).valid ≡ false
verify_deleted_example = verify_deleted toy none 3 [] [] first second two-Chained hash_first

abbrev old_two : AuditLog
old_two = append_all constant_hash two_entries empty_log

abbrev old_first : AuditRecord
old_first = new_row constant_hash (entry "alice" 0) empty_log

abbrev old_second : AuditRecord
old_second =
    new_row constant_hash (entry "bob" 99999999999)
      (append_audit constant_hash (entry "alice" 0) empty_log).1

old_rows : old_two.rows ≡ [] ++ old_first ∷ old_second ∷ []
unfolding append_audit
old_rows = refl

expired_first : is_expired 365 99999999999 old_first ≡ true
unfolding is_expired new_row
expired_first = refl

fresh_second : is_expired 365 99999999999 old_second ≡ false
unfolding is_expired new_row
fresh_second = refl

verify-purge_audit_example :
    (verify constant_hash none (purge_audit 365 99999999999 old_two)).valid ≡ false
verify-purge_audit_example =
    verify-purge_audit constant_hash (λ a e. false≢true ((eq_iff "0" "genesis").1 e)) none 365
      99999999999 old_two [] [] old_first old_second
      (append_all-verify constant_hash none two_entries).0 old_rows (omega arith) refl expired_first
      fresh_second
