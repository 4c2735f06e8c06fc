-- ===== src/Audit/Verifier/Decides.antt =====
-- VerifyChain of internal/audit/verifier.go against hash chains.
use oneops.Base.{
  ℕ, ◌≡◌, refl, ap, ◌⊎◌, inl, inr, ◌↔◌, true, false, none, List, [], ◌∷◌, ◌++◌, Text, length, arith,
  sym, subst, ◌∙◌, All, map,
}
use oneops.Domain.Errors.{ok}
use oneops.Domain.AuditTypes.{AuditEvent, VerifyResult}
use oneops.Audit.Hash.{genesis_prev_hash, int64_next}
use oneops.Audit.Hash.Binding.{Collision, Fits, chain_hash-binding}
use oneops.Audit.Verifier.{
  Progress, hash_input_of, run_stream, verify_range, verify_chain, blank_result, start_progress,
  finish,
}
use oneops.Audit.Verifier.Chains.{
  Links, Chain, next_seq, last_hash, last_seq, Intact, Broken, run_stream-verdict,
}

finish_keeps :
    (p : Progress)
    → ((finish p).first_break ≡ p.result.first_break) × ((finish p).checked ≡ p.result.checked)
finish_keeps p = ground arith

module _ (sha256 : Text → Text) where
  -- `res` is the result of a verified stream: it is right about it, and complete.
  pub record Decided (es : List AuditEvent) (res : VerifyResult) : Type 0 where
    pub exact : (res.is_ok ≡ true) ↔ Chain sha256 1 genesis_prev_hash es
    pub counts : res.is_ok ≡ true → res.checked ≡ length es
    pub head : res.is_ok ≡ true → res.head_seq ≡ last_seq 0 es

  -- A chain has no event that does not continue it.
  not-Chain-split :
      (s : ℕ) (h : Text) (before after : List AuditEvent) (e : AuditEvent)
      → (¬ Links sha256 (next_seq s before) (last_hash h before) e)
      → ¬ Chain sha256 s h (before ++ e ∷ after)
  not-Chain-split s h [] after e bad c = bad c.0
  not-Chain-split s h (x ∷ before) after e bad c =
      not-Chain-split (int64_next s) x.this_hash before after e bad c.1

  run_result :
      (chain_id : Text) (es : List AuditEvent) (p : Progress)
      → run_stream sha256 es none (start_progress chain_id 1) ≡ ok p
      → verify_chain sha256 chain_id (record { events = es; failure = none }) ≡ ok (finish p)
  unfolding verify_chain
  run_result chain_id es p run = rw (run, verify_range)

  Intact-Decided :
      (chain_id : Text) (es : List AuditEvent) (p : Progress)
      → Intact sha256 1 genesis_prev_hash es (blank_result chain_id) p.result
      → Decided es (finish p)
  Intact-Decided chain_id es p i = record {
    exact = ((λ _. i.chain), (λ _. ground (arith, i.no_break)));
    counts = λ _. ground (arith, i.checked, i.no_break);
    head = λ _. ground (arith, i.head_seq, i.no_break);
  }

  Broken-Decided :
      (chain_id : Text) (es : List AuditEvent) (p : Progress)
      → Broken sha256 1 genesis_prev_hash es (blank_result chain_id) p.result
      → Decided es (finish p)
  Broken-Decided chain_id es p x =
      let failed : (finish p).is_ok ≡ false = ground (arith, x.found) in
      let broken : ¬ Chain sha256 1 genesis_prev_hash es = λ c.
        not-Chain-split 1 genesis_prev_hash x.before x.after x.culprit x.unlinked
          (subst (Chain sha256 1 genesis_prev_hash) x.split c) in
      record {
        exact = ((λ q. cc (failed, q)), (λ c. absurd (broken c)));
        counts = λ q. cc (failed, q);
        head = λ q. cc (failed, q);
      }

  -- A stream that ends without a failure gets a result: its verdict is true exactly if the stream
  -- is a hash chain from sequence 1 and the genesis hash, and then it counts every event and its
  -- head is the last one.
  pub verify_chain-decides :
      (chain_id : Text) (es : List AuditEvent)
      → (res : VerifyResult) × (verify_chain sha256 chain_id
            (record { events = es; failure = none })
          ≡ ok res)
        × Decided es res
  verify_chain-decides chain_id es =
      let (p, run, verdict) =
        run_stream-verdict sha256 es (blank_result chain_id) genesis_prev_hash 1 refl in
      (
        finish p,
        run_result chain_id es p run,
        elim verdict [
          | inl i ↦ Intact-Decided chain_id es p i
          | inr x ↦ Broken-Decided chain_id es p x
        ],
      )

  -- If the verdict is false, the result names an event of the stream that does not continue the
  -- chain, what stands before that event is a chain, and as many events are counted.
  pub verify_chain-first_break :
      (chain_id : Text) (es : List AuditEvent) {res : VerifyResult}
      → verify_chain sha256 chain_id (record { events = es; failure = none }) ≡ ok res
      → res.is_ok ≡ false
      → Broken sha256 1 genesis_prev_hash es (blank_result chain_id) res
  verify_chain-first_break chain_id es {res} got bad =
      let (p, run, verdict) =
        run_stream-verdict sha256 es (blank_result chain_id) genesis_prev_hash 1 refl in
      let same : finish p ≡ res = cc (got, run_result chain_id es p run) in
      elim verdict [
        | inl i ↦
            let good : (finish p).is_ok ≡ true = ground (arith, i.no_break) in
            absurd (cc (good, same, bad))
        | inr x ↦ record {
          before = x.before;
          culprit = x.culprit;
          after = x.after;
          split = x.split;
          chain = x.chain;
          unlinked = x.unlinked;
          reason = x.reason;
          found =
              ap (λ (r : VerifyResult). r.first_break) (sym same) ∙ (finish_keeps p).0 ∙ x.found;
          checked =
              ap (λ (r : VerifyResult). r.checked) (sym same) ∙ (finish_keeps p).1 ∙ x.checked;
        }
      ]

  -- Chains of one length, from one sequence number, with one last hash, hold the same hashed fields
  -- event by event, or SHA-256 has a collision. In all events of both, each text is shorter than 2^32
  -- bytes, and the sequence number and the time are 64-bit patterns.
  pub Chain-binding :
      (es fs : List AuditEvent) (s : ℕ) (g h : Text)
      → All (λ e. Fits (hash_input_of e)) es
      → All (λ e. Fits (hash_input_of e)) fs
      → Chain sha256 s g es
      → Chain sha256 s h fs
      → length es ≡ length fs
      → last_hash g es ≡ last_hash h fs
      → ((map hash_input_of es ≡ map hash_input_of fs) × (g ≡ h)) ⊎ Collision sha256
  Chain-binding [] [] s g h fe ff ce cf l last = inl (refl, last)
  Chain-binding [] (f ∷ fs) s g h fe ff ce cf l last = absurd (omega arith)
  Chain-binding (e ∷ es) [] s g h fe ff ce cf l last = absurd (omega arith)
  Chain-binding (e ∷ es) (f ∷ fs) s g h fe ff ce cf l last =
      elim (Chain-binding es fs (int64_next s) e.this_hash f.this_hash fe.1 ff.1 ce.1 cf.1
        (omega arith) last) [
          | inr c ↦ inr c
          | inl (rest, this) ↦
              elim (chain_hash-binding sha256 (hash_input_of e) (hash_input_of f) e.prev_hash
                f.prev_hash fe.0 ff.0 (ce.0.2 ∙ ap ok this) cf.0.2) [
                  | inr c ↦ inr c
                  | inl (fields, prev) ↦ inl (cc, cc (ce.0.1, cf.0.1, prev))
                ]
        ]
