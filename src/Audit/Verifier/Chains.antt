-- ===== src/Audit/Verifier/Chains.antt =====
-- Hash chains as a predicate, and the loop of VerifyRange (internal/audit/verifier.go) against it.
use oneops.Base.{
  ℕ, ◌+◌, ◌≡◌, refl, ap, ◌≢◌, ◌⊎◌, inl, inr, true, false, none, some, List, [], ◌∷◌, ◌++◌, Text,
  text_eq, text_eq_iff, ◌==◌, ==_iff, if◌then◌else◌, length, Bool-cases, arith, ◌∙◌,
}
use oneops.Domain.Errors.{Result, ok, err}
use oneops.Domain.AuditTypes.{
  AuditEvent, VerifyResult, BreakReason, sequence_gap, sequence_duplicate, prev_hash_mismatch,
  this_hash_mismatch, hash_input_invalid,
}
use oneops.Audit.Hash.{chain_hash, int64_lt, int64_next}
use oneops.Audit.Verifier.{Progress, hash_input_of, set_break, check_hash, on_event, run_stream}

-- The sequence number and the hash that a chain from `s` and `h` hands to its next event.
abbrev pub next_seq : ℕ → List AuditEvent → ℕ
next_seq s [] = s
next_seq s (e ∷ es) = next_seq (int64_next s) es

abbrev pub last_hash : Text → List AuditEvent → Text
last_hash h [] = h
last_hash h (e ∷ es) = last_hash e.this_hash es

abbrev pub last_seq : ℕ → List AuditEvent → ℕ
last_seq s [] = s
last_seq s (e ∷ es) = last_seq e.seq es

module _ (sha256 : Text → Text) where
  -- An event that continues a chain whose next sequence number is `s` and whose last hash is `h`.
  abbrev pub Links : ℕ → Text → AuditEvent → Type 0
  Links s h e =
      (e.seq ≡ s)
      × (e.prev_hash ≡ h)
      × (chain_hash sha256 (hash_input_of e) e.prev_hash ≡ ok e.this_hash)

  -- A hash chain that starts at `s` after the hash `h`.
  abbrev pub Chain : ℕ → Text → List AuditEvent → Type 0
  Chain s h [] = Unit
  Chain s h (e ∷ es) = Links s h e × Chain (int64_next s) e.this_hash es

  abbrev at : VerifyResult → Text → ℕ → Progress
  at r h s = record { result = r; exp_prev = some h; exp_seq = s }

  abbrev counted : AuditEvent → VerifyResult → VerifyResult
  counted e r = record r { checked = r.checked + 1; head_seq = e.seq; head_hash = e.this_hash }

  check_hash_cases :
      (e : AuditEvent) (r : VerifyResult) (h : Text) (s : ℕ) (c : Result Text)
      → r.first_break ≡ none
      → ((c ≡ ok e.this_hash)
          × (check_hash sha256 e (at r h s) c
              ≡ (at (counted e r) e.this_hash (int64_next e.seq), false)))
        ⊎ ((c ≢ ok e.this_hash)
            × (reason : BreakReason) × (check_hash sha256 e (at r h s) c
                ≡ (at (record r { first_break = some (e.seq, reason) }) h s, true)))
  unfolding check_hash set_break
  check_hash_cases e r h s (err x) b = inr ((λ p. cc), hash_input_invalid, ground arith)
  check_hash_cases e r h s (ok got) b = elim (Bool-cases (text_eq got e.this_hash)) [
    | inl p ↦ inl (ap ok ((text_eq_iff got e.this_hash).0 p), rw p)
    | inr p ↦
        inr
          ((λ q. ground (arith, (text_eq_iff got e.this_hash).1)), this_hash_mismatch, ground arith)
  ]

  -- An event either continues the chain and is counted, or does not and is the break.
  event_cases :
      (e : AuditEvent) (r : VerifyResult) (h : Text) (s : ℕ)
      → r.first_break ≡ none
      → (Links s h e
          × (on_event sha256 e (at r h s) ≡ (at (counted e r) e.this_hash (int64_next s), false)))
        ⊎ ((¬ Links s h e)
            × (reason : BreakReason) × (on_event sha256 e (at r h s)
                ≡ (at (record r { first_break = some (e.seq, reason) }) h s, true)))
  unfolding on_event
  event_cases e r h s b = elim (Bool-cases (e.seq == s)) [
    | inr p ↦ inr (
      (λ l. ground arith),
      (if int64_lt e.seq s then sequence_duplicate else sequence_gap),
      ground arith,
    )
    | inl p ↦ elim (Bool-cases (text_eq e.prev_hash h)) [
      | inr q ↦
          inr ((λ l. cc (q, (text_eq_iff e.prev_hash h).1 l.1)), prev_hash_mismatch, ground arith)
      | inl q ↦
          elim (check_hash_cases e r h s (chain_hash sha256 (hash_input_of e) e.prev_hash) b) [
            | inl (c, step) ↦ inl (
              ((==_iff e.seq s).0 p, (text_eq_iff e.prev_hash h).0 q, c),
              rw (p, q) (step ∙ cc ((==_iff e.seq s).0 p)),
            )
            | inr (c, reason, step) ↦ inr ((λ l. c l.2), reason, rw (p, q) step)
          ]
    ]
  ]

  -- The stream is a chain, and the result counts it and holds its head.
  pub record Intact (s : ℕ) (h : Text) (es : List AuditEvent) (r q : VerifyResult) : Type 0 where
    pub chain : Chain s h es
    pub no_break : q.first_break ≡ none
    pub checked : q.checked ≡ r.checked + length es
    pub head_seq : q.head_seq ≡ last_seq r.head_seq es

  -- `before` is a chain, `at` does not continue it, and the result names `at`.
  pub record Broken (s : ℕ) (h : Text) (es : List AuditEvent) (r q : VerifyResult) : Type 0 where
    pub before : List AuditEvent
    pub culprit : AuditEvent
    pub after : List AuditEvent
    pub split : es ≡ before ++ culprit ∷ after
    pub chain : Chain s h before
    pub unlinked : ¬ Links (next_seq s before) (last_hash h before) culprit
    pub reason : BreakReason
    pub found : q.first_break ≡ some (culprit.seq, reason)
    pub checked : q.checked ≡ r.checked + length before

  pub run_stream-verdict :
      (es : List AuditEvent) (r : VerifyResult) (h : Text) (s : ℕ)
      → r.first_break ≡ none
      → (p : Progress) × (run_stream sha256 es none (at r h s) ≡ ok p)
        × (Intact s h es r p.result ⊎ Broken s h es r p.result)
  unfolding run_stream
  run_stream-verdict [] r h s b = (
    at r h s,
    refl,
    inl (record { chain = tt; no_break = b; checked = omega arith; head_seq = refl }),
  )
  run_stream-verdict (e ∷ es) r h s b = elim (event_cases e r h s b) [
    | inr (bad, reason, step) ↦ (
      at (record r { first_break = some (e.seq, reason) }) h s,
      rw step,
      inr (record {
        before = [];
        culprit = e;
        after = es;
        split = refl;
        chain = tt;
        unlinked = bad;
        reason = reason;
        found = refl;
        checked = omega arith;
      }),
    )
    | inl (good, step) ↦
        let (p, run, verdict) = run_stream-verdict es (counted e r) e.this_hash (int64_next s) b in
        (
          p,
          rw step run,
          elim verdict [
            | inl i ↦ inl (record {
              chain = (good, i.chain);
              no_break = i.no_break;
              checked = omega (arith, i.checked);
              head_seq = i.head_seq;
            })
            | inr x ↦ inr (record {
              before = e ∷ x.before;
              culprit = x.culprit;
              after = x.after;
              split = ap (λ (l : List AuditEvent). e ∷ l) x.split;
              chain = (good, x.chain);
              unlinked = x.unlinked;
              reason = x.reason;
              found = x.found;
              checked = omega (arith, x.checked);
            })
          ],
        )
  ]
