-- ===== src/Audit/Limits.antt =====
-- What `verify` does not see: fields that the fingerprint leaves out, texts that the separator
-- runs together, a table cut at its end; and the retention purge, which verification refuses.
use text.Mathlib.TextLemmas.{append_assoc, append_cancel_left}
use thot_secure.Prelude.{
  ℕ, ◌+◌, ◌<◌, String, str_append, Bool, true, false, Option, List, [], ◌∷◌, ◌++◌, ◌≡◌, ◌≢◌, refl,
  sym, ◌∙◌, not, keep, all, map, arith,
}
use thot_secure.Value.{Dict}
use thot_secure.Platform.{Platform}
use thot_secure.Audit.Defs.{
  AuditRecord, AuditLog, genesis_hash, hash_prefix, counts_for, join_bar, payload,
  record_fingerprint, verify_record, verify_from, verify, is_expired, purge_audit,
}
use thot_secure.Audit.Chain.{Chained-append, verify-iff-Chained}
use thot_secure.Audit.Tamper.{not-Chained-verify}

abbrev pub rewrite_context : (Dict → Dict) → AuditRecord → AuditRecord
rewrite_context f r = record r { context = f r.context }

module _ (py : Platform) where
  verify_from_context :
      (f : Dict → Dict) (t : Option String) (prev : String) (c n : ℕ) (rs : List AuditRecord)
      → verify_from py t prev c n (map (rewrite_context f) rs) ≡ verify_from py t prev c n rs
  unfolding verify_from verify_record record_fingerprint payload counts_for
  verify_from_context f t prev c n [] = refl
  verify_from_context f t prev c n (r ∷ rs) =
      ground (arith, verify_from_context f t r.hash (c + counts_for t r) (n + 1) rs)

  -- Rewriting the context of every record, by any function, changes nothing that `verify` reports.
  pub verify_context :
      (f : Dict → Dict) (t : Option String) (log : AuditLog)
      → verify py t (record log { rows = map (rewrite_context f) log.rows }) ≡ verify py t log
  unfolding verify
  verify_context f t log = verify_from_context f t genesis_hash 0 0 log.rows

  -- Two different records have one fingerprint: part of the actor's text can be moved, with a
  -- separator, to the role.
  pub fingerprint_separator :
      (a b c : String) (r : AuditRecord) (prev : String)
      → record_fingerprint py
          (record r { actor = str_append a (str_append "|" b); actor_role = c })
          prev
        ≡ record_fingerprint py
            (record r { actor = a; actor_role = str_append b (str_append "|" c) })
            prev
  unfolding record_fingerprint payload join_bar
  fingerprint_separator a b c r prev = simp append_assoc

  -- The newest records of a valid table can be removed: the rest still verifies.
  pub verify_truncated :
      (t : Option String) (n : ℕ) (log : AuditLog) (kept cut : List AuditRecord)
      → log.rows ≡ kept ++ cut
      → (verify py t log).valid ≡ true
      → (verify py t (record { rows = kept; next_seq = n })).valid ≡ true
  verify_truncated t n log kept cut e ok =
      let whole = rw e at ((verify-iff-Chained py t log).0 ok) in
      (verify-iff-Chained py t (record { rows = kept; next_seq = n })).1
        ((Chained-append py genesis_hash kept cut).0 whole).0

keep-all_dropped :
    {A : Type 0} (p : A → Bool) (xs ys : List A)
    → all p xs ≡ true
    → keep (λ x. not (p x)) (xs ++ ys) ≡ keep (λ x. not (p x)) ys
keep-all_dropped p [] ys h = refl
keep-all_dropped p (x ∷ xs) ys h = ground (arith, keep-all_dropped p xs ys)

module _ (py : Platform) where
  rows-purge_audit :
      (days now : ℕ) (log : AuditLog) (old new : List AuditRecord) (o s : AuditRecord)
      → log.rows ≡ old ++ o ∷ s ∷ new
      → days < 3650
      → all (is_expired days now) old ≡ true
      → is_expired days now o ≡ true
      → is_expired days now s ≡ false
      → (purge_audit days now log).rows ≡ s ∷ keep (λ r. not (is_expired days now r)) new
  unfolding purge_audit
  rows-purge_audit days now log old new o s rows short expired oldest fresh =
      ground (arith, keep-all_dropped (is_expired days now) old (o ∷ s ∷ new))

  -- A retention purge that deletes the oldest records of a valid table and keeps a later one
  -- leaves a table that does not verify, whenever the configured retention is below ten years.
  pub verify-purge_audit :
      ((a : String) → py.sha256_hexdigest a ≢ "genesis")
      → (t : Option String) (days now : ℕ) (log : AuditLog) (old new : List AuditRecord)
        (o s : AuditRecord)
      → (verify py t log).valid ≡ true
      → log.rows ≡ old ++ o ∷ s ∷ new
      → days < 3650
      → all (is_expired days now) old ≡ true
      → is_expired days now o ≡ true
      → is_expired days now s ≡ false
      → (verify py t (purge_audit days now log)).valid ≡ false
  unfolding record_fingerprint
  verify-purge_audit no_genesis t days now log old new o s ok rows short expired oldest fresh =
      not-Chained-verify py t (purge_audit days now log) λ bad.
        let whole = rw rows at ((verify-iff-Chained py t log).0 ok) in
        let chain = ((Chained-append py genesis_hash old (o ∷ s ∷ new)).0 whole).1 in
        let left =
          rw (rows-purge_audit days now log old new o s rows short expired oldest fresh) at bad in
        no_genesis _ (append_cancel_left hash_prefix _ _ (chain.1 ∙ sym chain.2.0 ∙ left.0))
