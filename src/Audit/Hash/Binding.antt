-- ===== src/Audit/Hash/Binding.antt =====
-- ChainHash of internal/audit/hash.go and its framing, with collisions of SHA-256 explicit.
use oneops.Base.{
  ℕ, ◌^◌, ◌<◌, ◌≡◌, ◌≢◌, sym, ◌∙◌, ◌⊎◌, inl, inr, [], ◌++◌, Text, length, append_inj, arith,
  text_eq, text_eq_iff, Bool-cases, append-nil,
}
use oneops.Domain.Errors.{ok}
use oneops.Audit.Hash.{
  EventHashInput, write_uint64, write_len_prefixed, hash_fields, check_hash_input, chain_hash,
}

-- Two inputs of a hash function with one value.
abbrev pub Collision : (Text → Text) → Type 0
Collision sha256 = (a : Text) × (b : Text) × (a ≢ b) × (sha256 a ≡ sha256 b)

pub write_uint64_inj :
    (v w : ℕ) (r s : Text)
    → v < 2 ^ 64
    → w < 2 ^ 64
    → write_uint64 v ++ r ≡ write_uint64 w ++ s
    → (v ≡ w) × (r ≡ s)
unfolding write_uint64
write_uint64_inj v w r s hv hw e = ground arith

pub write_len_prefixed_inj :
    (a b r s : Text)
    → length a < 2 ^ 32
    → length b < 2 ^ 32
    → write_len_prefixed a ++ r ≡ write_len_prefixed b ++ s
    → (a ≡ b) × (r ≡ s)
unfolding write_len_prefixed
write_len_prefixed_inj a b r s ha hb e =
    let same : length a ≡ length b = ground arith in append_inj a b r s same (cc)

-- Each field of the input fits its width: int64 patterns, and lengths that a uint32 holds.
pub record Fits (e : EventHashInput) : Type 0 where
  pub seq : e.seq < 2 ^ 64
  pub nanos : e.occurred_at_unix_nanos < 2 ^ 64
  pub chain_id : length e.chain_id < 2 ^ 32
  pub event_id : length e.event_id < 2 ^ 32
  pub operation : length e.operation < 2 ^ 32
  pub actor : length e.actor < 2 ^ 32
  pub payload : length e.payload_canonical < 2 ^ 32

-- The frame of the fields determines the fields, where each fits its width.
pub hash_fields_inj :
    (d e : EventHashInput) → Fits d → Fits e → hash_fields d ≡ hash_fields e → d ≡ e
unfolding hash_fields
hash_fields_inj d e fd fe same =
    let a = write_len_prefixed_inj d.chain_id e.chain_id _ _ fd.chain_id fe.chain_id same in
    let b = write_uint64_inj d.seq e.seq _ _ fd.seq fe.seq a.1 in
    let c = write_len_prefixed_inj d.event_id e.event_id _ _ fd.event_id fe.event_id b.1 in
    let o = write_len_prefixed_inj d.operation e.operation _ _ fd.operation fe.operation c.1 in
    let t = write_len_prefixed_inj d.actor e.actor _ _ fd.actor fe.actor o.1 in
    let n =
      write_uint64_inj d.occurred_at_unix_nanos e.occurred_at_unix_nanos _ _ fd.nanos fe.nanos
        t.1 in
    let p =
      write_len_prefixed_inj d.payload_canonical e.payload_canonical [] [] fd.payload fe.payload
        (simp append-nil n.1) in
    λ i. record {
      chain_id = a.0 i;
      seq = b.0 i;
      event_id = c.0 i;
      operation = o.0 i;
      actor = t.0 i;
      occurred_at_unix_nanos = n.0 i;
      payload_canonical = p.0 i;
    }

module _ (sha256 : Text → Text) where
  -- A hash function maps unequal inputs apart, or it has a collision.
  pub sha256_inj : (a b : Text) → sha256 a ≡ sha256 b → (a ≡ b) ⊎ Collision sha256
  sha256_inj a b h = elim (Bool-cases (text_eq a b)) [
    | inl e ↦ inl ((text_eq_iff a b).0 e)
    | inr e ↦ inr (a, b, (λ p. cc (e, (text_eq_iff a b).1 p)), h)
  ]

  -- What a successful chain hash is, and that its previous hash had 32 bytes.
  pub chain_hash-ok :
      (e : EventHashInput) (prev : Text) {h : Text}
      → chain_hash sha256 e prev ≡ ok h
      → (length prev ≡ 32) × (h ≡ sha256 (prev ++ sha256 (hash_fields e)))
  unfolding chain_hash check_hash_input
  chain_hash-ok e prev h = ground arith

  -- Two events with one chain hash have the same hashed fields and the same previous hash, or
  -- SHA-256 has a collision. In both, each text is shorter than 2^32 bytes, and the sequence number
  -- and the time are 64-bit patterns.
  pub chain_hash-binding :
      (d e : EventHashInput) (prev prev' : Text) {h : Text}
      → Fits d
      → Fits e
      → chain_hash sha256 d prev ≡ ok h
      → chain_hash sha256 e prev' ≡ ok h
      → ((d ≡ e) × (prev ≡ prev')) ⊎ Collision sha256
  chain_hash-binding d e prev prev' fd fe hd he =
      let (ld, vd) = chain_hash-ok d prev hd in
      let (le, ve) = chain_hash-ok e prev' he in
      elim (sha256_inj _ _ (sym vd ∙ ve)) [
        | inr c ↦ inr c
        | inl q ↦
            let (p, f) = append_inj prev prev' _ _ (ld ∙ sym le) q in
            elim (sha256_inj _ _ f) [ inr c ↦ inr c | inl g ↦ inl (hash_fields_inj d e fd fe g, p) ]
      ]
