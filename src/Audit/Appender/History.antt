-- ===== src/Audit/Appender/History.antt =====
-- Runs of Append (internal/store/postgres/audit_appender.go) and VerifyChain of what they leave.
use oneops.Base.{
  ℕ, ◌-◌, ◌^◌, ◌≡◌, refl, ap, ◌∙◌, inl, inr, Bool, true, false, none, List, [], ◌∷◌, Text,
  filter-and, All, arith, length, ◌&&◌,
}
use oneops.Base.Sorting.{sort_by, Ascending, sort_by-Ascending}
use oneops.Domain.Errors.{Result, ok, err, Result-cases}
use oneops.Domain.AuditTypes.{AuditEvent, VerifyResult}
use oneops.Audit.Hash.{
  genesis_prev_hash, chain_hash, check_hash_input, int64_next, below_one, EventHashInput,
}
use oneops.Audit.Verifier.{hash_input_of, verify_chain}
use oneops.Audit.Verifier.Chains.{Links, Chain}
use oneops.Audit.Verifier.Decides.{verify_chain-decides}
use oneops.Audit.Resolve.{AppendInput}
use oneops.Audit.Tables.{AuditTables, in_chain, seq_le, int64_le, verify_range_reader}
use oneops.Audit.Appender.{audit_store, append_tx, append, append_all}
use oneops.Audit.Appender.Sealed.{rows, append_tx-Appended}
use oneops.Audit.Appender.Consistency.{Consistent, Appended-Consistent}

-- math.MaxInt64
abbrev pub max_int64 : ℕ
max_int64 = 2 ^ 63 - 1

abbrev in_range : AuditEvent → Bool
in_range e = int64_le 1 e.seq && int64_le e.seq max_int64

abbrev pub empty_tables : AuditTables
empty_tables = record { events = []; heads = [] }

module _ (sha256 : Text → Text) where
  chain_hash-seq :
      (e : EventHashInput) (h : Text) {x : Text}
      → chain_hash sha256 e h ≡ ok x
      → below_one e.seq ≡ false
  unfolding chain_hash check_hash_input
  chain_hash-seq e h p = ground arith

  pub Links-below_one :
      (s : ℕ) (h : Text) (e : AuditEvent) → Links sha256 s h e → below_one e.seq ≡ false
  unfolding hash_input_of
  Links-below_one s h e l = chain_hash-seq (hash_input_of e) e.prev_hash l.2

  Chain-in_range :
      (xs : List AuditEvent) (s : ℕ) (h : Text)
      → Chain sha256 s h xs
      → All (λ e. in_range e ≡ true) xs
  Chain-in_range [] s h c = tt
  Chain-in_range (e ∷ xs) s h c =
      (ground (arith, Links-below_one s h e c.0), Chain-in_range xs (int64_next s) e.this_hash c.1)

  Chain-Ascending :
      (xs : List AuditEvent) (s : ℕ) (h : Text) → Chain sha256 s h xs → Ascending seq_le xs
  Chain-Ascending [] s h c = tt
  Chain-Ascending (e ∷ []) s h c = tt
  Chain-Ascending (e ∷ f ∷ xs) s h c =
      let a = Links-below_one s h e c.0 in
      let b = Links-below_one (int64_next s) e.this_hash f c.1.0 in
      let p = c.0.0 in
      let q = c.1.0.0 in (ground arith, Chain-Ascending (f ∷ xs) (int64_next s) e.this_hash c.1)

  -- The reader streams the rows of a consistent chain as they stand.
  reader-rows :
      (c : Text) (t : AuditTables)
      → Consistent sha256 t
      → verify_range_reader c 1 max_int64 t ≡ record { events = rows c t; failure = none }
  unfolding verify_range_reader
  reader-rows c t k =
      ap (λ (l : List AuditEvent). record { events = l; failure = none })
        (ap (sort_by seq_le) (
            filter-and (in_chain c) in_range t.events
              (Chain-in_range (rows c t) 1 genesis_prev_hash (k.chain c)))
          ∙ sort_by-Ascending seq_le (rows c t)
              (Chain-Ascending (rows c t) 1 genesis_prev_hash (k.chain c)))

  -- In consistent tables every chain verifies, event by event up to its last.
  pub Consistent-verifies :
      (c : Text) (t : AuditTables)
      → Consistent sha256 t
      → (res : VerifyResult) × (verify_chain sha256 c (verify_range_reader c 1 max_int64 t)
          ≡ ok res)
        × (res.is_ok ≡ true)
        × (res.checked ≡ length (rows c t))
  Consistent-verifies c t k =
      let (res, got, d) = verify_chain-decides sha256 c (rows c t) in
      let good = d.exact.1 (k.chain c) in
      (res, ap (verify_chain sha256 c) (reader-rows c t k) ∙ got, good, d.counts good)

  module _ (jsonb_ok : Text → Bool) where
    append-Consistent :
        (begun committed : Result (Unit {0})) (e : AppendInput) (t : AuditTables)
        → Consistent sha256 t
        → Consistent sha256 (append sha256 (audit_store jsonb_ok) begun committed e t).1
    unfolding append
    append-Consistent (err x) committed e t k = k
    append-Consistent (ok b) (err y) e t k =
        elim (Result-cases (append_tx sha256 (audit_store jsonb_ok) e t)) [
          | inl (done, got) ↦ rw got k
          | inr (x, got) ↦ rw got k
        ]
    append-Consistent (ok b) (ok b') e t k =
        elim (Result-cases (append_tx sha256 (audit_store jsonb_ok) e t)) [
          | inl ((event, u), got) ↦ rw got (
              Appended-Consistent sha256 jsonb_ok e t u event
                (append_tx-Appended sha256 jsonb_ok e t u event got) k)
          | inr (x, got) ↦ rw got k
        ]

    append_all-Consistent :
        (calls : List (Result (Unit {0}) × Result (Unit {0}) × AppendInput)) (t : AuditTables)
        → Consistent sha256 t
        → Consistent sha256 (append_all sha256 (audit_store jsonb_ok) calls t)
    unfolding append_all
    append_all-Consistent [] t k = k
    append_all-Consistent ((begun, committed, e) ∷ calls) t k =
        append_all-Consistent calls (append sha256 (audit_store jsonb_ok) begun committed e t).1
          (append-Consistent begun committed e t k)

    -- After any run of `Append` calls on empty tables, whatever fails on the way, `VerifyChain` of
    -- any chain reports success and counts every row of the chain.
    pub append_all-verifies :
        (calls : List (Result (Unit {0}) × Result (Unit {0}) × AppendInput)) (c : Text)
        → let t = append_all sha256 (audit_store jsonb_ok) calls empty_tables in
          (res : VerifyResult) × (verify_chain sha256 c (verify_range_reader c 1 max_int64 t)
            ≡ ok res)
          × (res.is_ok ≡ true)
          × (res.checked ≡ length (rows c t))
    append_all-verifies calls c =
        Consistent-verifies c (append_all sha256 (audit_store jsonb_ok) calls empty_tables) (
          append_all-Consistent calls empty_tables
            (record { chain = λ d. tt; next = λ d. refl; last = λ d. refl }))
