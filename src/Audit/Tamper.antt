-- ===== src/Audit/Tamper.antt =====
-- What `verify` says of a table that was changed behind its back: where it stops and why, and
-- the changes that it always finds.
use thot_secure.Prelude.{
  ℕ, ◌+◌, String, true, false, Option, some, List, [], ◌∷◌, ◌++◌, ◌≡◌, ◌≢◌, inl, inr, refl, sym,
  ◌∙◌, ap, str_eq, arith, length, Bool-cases, if◌then◌else◌,
}
use text.Mathlib.TextLemmas.{append_cancel_left}
use thot_secure.Platform.{Platform}
use thot_secure.Audit.Defs.{
  AuditRecord, AuditLog, VerifyResult, Reason, chain_broken, content_modified, genesis_hash,
  hash_prefix, last_hash, counts_for, payload, record_fingerprint, verify_record, verify_from,
  verify,
}
use thot_secure.Audit.Chain.{Chained, Chained-append, verify_record_lem, verify-iff-Chained}

-- The reason for the first record that does not fit.
abbrev pub first_reason : AuditRecord → String → Reason
first_reason r prev = if str_eq r.prev_hash prev then content_modified else chain_broken

module _ (py : Platform) where
  -- The records before the first break, the record that breaks and those after it.
  pub record FirstBreak (prev : String) (n : ℕ) (rs : List AuditRecord) (v : VerifyResult)
      : Type 0 where
    pub intact : List AuditRecord
    pub broken : AuditRecord
    pub later : List AuditRecord
    pub split : rs ≡ intact ++ broken ∷ later
    pub intact_chained : Chained py prev intact
    pub at : v.broken_at ≡ some broken.seq
    pub counted : v.records ≡ n + length intact + 1
    pub reason : v.reason ≡ some (first_reason broken (last_hash prev intact))

  refused_reason :
      (r : AuditRecord) (prev : String)
      → (verify_record py r prev).0 ≡ false
      → (verify_record py r prev).1 ≡ some (first_reason r prev)
  unfolding verify_record
  refused_reason r prev h = ground arith

  verify_from_refused :
      (t : Option String) (prev : String) (c n : ℕ) (r : AuditRecord) (rs : List AuditRecord)
      → (verify_record py r prev).0 ≡ false
      → verify_from py t prev c n (r ∷ rs) ≡ record {
        valid = false;
        records = n + 1;
        broken_at = some r.seq;
        reason = some (first_reason r prev);
      }
  unfolding verify_from
  verify_from_refused t prev c n r rs h = rw (h, refused_reason r prev h)

  verify_from_accepted :
      (t : Option String) (prev : String) (c n : ℕ) (r : AuditRecord) (rs : List AuditRecord)
      → (verify_record py r prev).0 ≡ true
      → verify_from py t prev c n (r ∷ rs) ≡ verify_from py t r.hash (c + counts_for t r) (n + 1) rs
  unfolding verify_from
  verify_from_accepted t prev c n r rs h = rw h

  verify_from_nil :
      (t : Option String) (prev : String) (c n : ℕ) → (verify_from py t prev c n []).valid ≡ true
  unfolding verify_from
  verify_from_nil t prev c n = refl

  -- One more intact record in front.
  FirstBreak-cons :
      (prev : String) (n : ℕ) (r : AuditRecord) (rs : List AuditRecord) (v : VerifyResult)
      → (verify_record py r prev).0 ≡ true
      → FirstBreak r.hash (n + 1) rs v
      → FirstBreak prev n (r ∷ rs) v
  unfolding last_hash
  FirstBreak-cons prev n r rs v ok b =
      let link = (verify_record_lem py r prev).0 ok in
      record {
        intact = r ∷ b.intact;
        broken = b.broken;
        later = b.later;
        split = ap (λ (l : List AuditRecord). r ∷ l) b.split;
        intact_chained = (link.0, link.1, b.intact_chained);
        at = b.at;
        counted = omega (arith, b.counted);
        reason = b.reason;
      }

  FirstBreak-verify_from :
      (t : Option String) (prev : String) (c n : ℕ) (rs : List AuditRecord)
      → (verify_from py t prev c n rs).valid ≡ false
      → FirstBreak prev n rs (verify_from py t prev c n rs)
  unfolding last_hash
  FirstBreak-verify_from t prev c n [] h = cc (verify_from_nil t prev c n)
  FirstBreak-verify_from t prev c n (r ∷ rs) h = elim (Bool-cases (verify_record py r prev).0) [
    | inl ok ↦
        let e = verify_from_accepted t prev c n r rs ok in
        rw e (
          FirstBreak-cons prev n r rs _ ok
            (FirstBreak-verify_from t r.hash (c + counts_for t r) (n + 1) rs (rw e at h)))
    | inr refused ↦ rw (verify_from_refused t prev c n r rs refused) (record {
      intact = [];
      broken = r;
      later = rs;
      split = refl;
      intact_chained = tt;
      at = refl;
      counted = omega arith;
      reason = refl;
    })
  ]

  -- A verification that fails stops at the first record that breaks the chain: all records before
  -- it are chained, `records` counts them and the broken one, and the reason is a broken link if
  -- the record does not name the hash before it, modified content otherwise.
  pub verify-FirstBreak :
      (t : Option String) (log : AuditLog)
      → (verify py t log).valid ≡ false
      → FirstBreak genesis_hash 0 log.rows (verify py t log)
  unfolding verify
  verify-FirstBreak t log h = FirstBreak-verify_from t genesis_hash 0 0 log.rows h

  pub not-Chained-verify :
      (t : Option String) (log : AuditLog)
      → ¬ Chained py genesis_hash log.rows
      → (verify py t log).valid ≡ false
  not-Chained-verify t log h = elim (Bool-cases (verify py t log).valid) [
    | inl ok ↦ absurd (h ((verify-iff-Chained py t log).0 ok))
    | inr e ↦ e
  ]

  -- With a hash free of collisions, a record replaced by one of another payload is found as soon
  -- as one record follows it, even if its hash is computed anew for the new content.
  pub verify_modified :
      ((a b : String) → py.sha256_hexdigest a ≡ py.sha256_hexdigest b → a ≡ b)
      → (t : Option String) (next : ℕ) (pre post : List AuditRecord) (r r' s : AuditRecord)
      → Chained py genesis_hash (pre ++ r ∷ s ∷ post)
      → payload py r' (last_hash genesis_hash pre) ≢ payload py r (last_hash genesis_hash pre)
      → (verify py t (record { rows = pre ++ r' ∷ s ∷ post; next_seq = next })).valid ≡ false
  unfolding record_fingerprint
  verify_modified inj t next pre post r r' s ok differs =
      not-Chained-verify t (record { rows = pre ++ r' ∷ s ∷ post; next_seq = next })
        λ bad.
          let old = ((Chained-append py genesis_hash pre (r ∷ s ∷ post)).0 ok).1 in
          let new = ((Chained-append py genesis_hash pre (r' ∷ s ∷ post)).0 bad).1 in
          differs (
            inj _ _
              (append_cancel_left hash_prefix _ _ (new.1 ∙ sym new.2.0 ∙ old.2.0 ∙ sym old.1)))

  -- A record taken out of the middle is found, if its hash is not that of the record before it.
  pub verify_deleted :
      (t : Option String) (next : ℕ) (pre post : List AuditRecord) (r s : AuditRecord)
      → Chained py genesis_hash (pre ++ r ∷ s ∷ post)
      → r.hash ≢ r.prev_hash
      → (verify py t (record { rows = pre ++ s ∷ post; next_seq = next })).valid ≡ false
  verify_deleted t next pre post r s ok fresh =
      not-Chained-verify t (record { rows = pre ++ s ∷ post; next_seq = next })
        λ bad.
          let old = ((Chained-append py genesis_hash pre (r ∷ s ∷ post)).0 ok).1 in
          let new = ((Chained-append py genesis_hash pre (s ∷ post)).0 bad).1 in
          fresh (sym old.2.0 ∙ new.0 ∙ sym old.0)
