-- ===== src/Audit/Chain.antt =====
-- What a valid chain is, independently of the verification loop, and that the writer keeps it.
use thot_secure.Prelude.{
  ℕ, ◌+◌, String, true, Option, List, [], ◌∷◌, ◌++◌, ◌≡◌, refl, ◌↔◌, inl, inr, eq_iff, arith,
  Bool-cases,
}
use thot_secure.Platform.{Platform}
use thot_secure.Audit.Defs.{
  AuditRecord, Entry, AuditLog, empty_log, genesis_hash, last_hash, counts_for, payload,
  record_fingerprint, verify_record, verify_from, verify, new_row, append_audit,
}

module _ (py : Platform) where
  -- Each record names the hash of the one before it, and carries its own fingerprint.
  abbrev pub Chained : String → List AuditRecord → Type 0
  Chained prev [] = Unit {0}
  Chained prev (r ∷ rs) =
      (r.prev_hash ≡ prev) × (record_fingerprint py r prev ≡ r.hash) × Chained r.hash rs

  pub verify_record_lem :
      (r : AuditRecord) (prev : String)
      → ((verify_record py r prev).0 ≡ true)
        ↔ ((r.prev_hash ≡ prev) × (record_fingerprint py r prev ≡ r.hash))
  unfolding verify_record
  verify_record_lem r prev =
      ground (arith, eq_iff r.prev_hash prev, eq_iff (record_fingerprint py r prev) r.hash)

  verify_from-Chained :
      (t : Option String) (prev : String) (c n : ℕ) (rs : List AuditRecord)
      → Chained prev rs
      → (verify_from py t prev c n rs).valid ≡ true
  unfolding verify_from
  verify_from-Chained t prev c n [] h = refl
  verify_from-Chained t prev c n (r ∷ rs) h =
      rw ((verify_record_lem r prev).1 (h.0, h.1))
        (verify_from-Chained t r.hash (c + counts_for t r) (n + 1) rs h.2)

  Chained-verify_from :
      (t : Option String) (prev : String) (c n : ℕ) (rs : List AuditRecord)
      → (verify_from py t prev c n rs).valid ≡ true
      → Chained prev rs
  unfolding verify_from
  Chained-verify_from t prev c n [] h = tt
  Chained-verify_from t prev c n (r ∷ rs) h = elim (Bool-cases (verify_record py r prev).0) [
    | inl e ↦
        let link = (verify_record_lem r prev).0 e in
        let rest = Chained-verify_from t r.hash (c + counts_for t r) (n + 1) rs (ground arith) in
        (link.0, link.1, rest)
    | inr e ↦ cc
  ]

  -- Verification succeeds exactly on the tables whose rows are chained from the genesis hash,
  -- whatever the tenant filter.
  pub verify-iff-Chained :
      (t : Option String) (log : AuditLog)
      → ((verify py t log).valid ≡ true) ↔ Chained genesis_hash log.rows
  unfolding verify
  verify-iff-Chained t log = (
    Chained-verify_from t genesis_hash 0 0 log.rows,
    verify_from-Chained t genesis_hash 0 0 log.rows,
  )

  -- A chain is a chain up to any record, and goes on from the hash of that record.
  pub Chained-append :
      (prev : String) (xs ys : List AuditRecord)
      → Chained prev (xs ++ ys) ↔ (Chained prev xs × Chained (last_hash prev xs) ys)
  unfolding last_hash
  Chained-append prev [] ys = (λ h. (tt, h), λ h. h.1)
  Chained-append prev (x ∷ xs) ys = (
    λ h. (
      (h.0, h.1, ((Chained-append x.hash xs ys).0 h.2).0),
      ((Chained-append x.hash xs ys).0 h.2).1,
    ),
    λ h. (h.0.0, h.0.1, (Chained-append x.hash xs ys).1 (h.0.2, h.1)),
  )

  pub new_row-Chained :
      (e : Entry) (log : AuditLog)
      → Chained (last_hash genesis_hash log.rows) (new_row py e log ∷ [])
  unfolding new_row record_fingerprint payload
  new_row-Chained e log = (refl, refl, tt)

  pub append_audit-Chained :
      (e : Entry) (log : AuditLog)
      → Chained genesis_hash log.rows
      → Chained genesis_hash (append_audit py e log).1.rows
  unfolding append_audit
  append_audit-Chained e log h =
      (Chained-append genesis_hash log.rows (new_row py e log ∷ [])).1 (h, new_row-Chained e log)

  -- The rows have the sequence numbers n, n + 1, …, and the counter follows the last.
  abbrev pub Numbered : ℕ → List AuditRecord → ℕ → Type 0
  Numbered n [] next = next ≡ n
  Numbered n (r ∷ rs) next = (r.seq ≡ n) × Numbered (n + 1) rs next

  Numbered-append :
      (n next : ℕ) (rs : List AuditRecord) (r : AuditRecord)
      → Numbered n rs next
      → r.seq ≡ next
      → Numbered n (rs ++ r ∷ []) (next + 1)
  Numbered-append n next [] r h e = omega arith
  Numbered-append n next (x ∷ rs) r h e = (h.0, Numbered-append (n + 1) next rs r h.1 e)

  -- The table after a list of writes.
  abbrev pub append_all : List Entry → AuditLog → AuditLog
  append_all [] log = log
  append_all (e ∷ es) log = append_all es (append_audit py e log).1

  pub append_all-Chained :
      (es : List Entry) (log : AuditLog)
      → Chained genesis_hash log.rows
      → Chained genesis_hash (append_all es log).rows
  append_all-Chained [] log h = h
  append_all-Chained (e ∷ es) log h =
      append_all-Chained es (append_audit py e log).1 (append_audit-Chained e log h)

  append_all-Numbered :
      (es : List Entry) (log : AuditLog)
      → Numbered 1 log.rows log.next_seq
      → Numbered 1 (append_all es log).rows (append_all es log).next_seq
  unfolding append_audit new_row
  append_all-Numbered [] log h = h
  append_all-Numbered (e ∷ es) log h =
      append_all-Numbered es (append_audit py e log).1
        (Numbered-append 1 log.next_seq log.rows (new_row py e log) h refl)

  -- A table that only `append_audit` has written verifies, and its rows have the sequence
  -- numbers 1, 2, 3, … with no gap.
  pub append_all-verify :
      (t : Option String) (es : List Entry)
      → let log = append_all es empty_log in
        ((verify py t log).valid ≡ true) × Numbered 1 log.rows log.next_seq
  append_all-verify t es = (
    (verify-iff-Chained t (append_all es empty_log)).1 (append_all-Chained es empty_log tt),
    append_all-Numbered es empty_log refl,
  )
