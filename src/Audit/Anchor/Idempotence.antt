-- ===== src/Audit/Anchor/Idempotence.antt =====
-- PublishAnchor and NewAnchor of internal/audit/anchor.go on two calls.
use oneops.Base.{
  ℕ, ◌^◌, ◌<◌, ◌≡◌, sym, ◌∙◌, ◌⊎◌, inl, inr, true, none, [], Text, text_eq_refl, find-append, arith,
  length, append-nil, Option-cases,
}
use mathlib.Core.List.{append_cancel_left}
use oneops.Domain.Errors.{ok, Result-cases}
use oneops.Audit.Hash.{write_len_prefixed, hex}
use oneops.Audit.Hash.Binding.{Collision, write_len_prefixed_inj, write_uint64_inj, sha256_inj}
use oneops.Audit.Hash.EventIds.{IsBytes, hex_inj}
use oneops.Audit.Anchor.{
  AnchorRequest, AnchorResult, Publisher, has_id, anchor_payload, validate_anchor_request,
  new_anchor, publish_anchor, publish_built, entry_for, anchor_domain_tag,
}

module _ (sha256 : Text → Text) where
  built_twice :
      (res : AnchorResult) (p : Publisher) {a : AnchorResult}
      → (publish_built sha256 p (ok res)).0 ≡ ok a
      → let q = (publish_built sha256 p (ok res)).1 in
        publish_built sha256 q (ok res) ≡ (ok (record a { already_published = true }), q)
  unfolding publish_built
  built_twice res p h = elim (Option-cases (entry_for sha256 p res)) [
    | inl new ↦
        let again = find-append (has_id res.anchor_id) p.published (res.anchor_id, res) in
        ground (arith, new, again, text_eq_refl res.anchor_id, h)
    | inr (old, found) ↦ ground (arith, found, h)
  ]

  -- If a head is published twice, the second call succeeds, returns the same record marked as
  -- published before, and leaves the publisher as the first call did.
  pub publish_twice :
      (req : AnchorRequest) (p : Publisher) {a : AnchorResult}
      → (publish_anchor sha256 none req p).0 ≡ ok a
      → let q = (publish_anchor sha256 none req p).1 in
        publish_anchor sha256 none req q ≡ (ok (record a { already_published = true }), q)
  unfolding publish_anchor
  publish_twice req p h = elim (Result-cases (new_anchor sha256 req)) [
    | inl (res, built) ↦ rw built (built_twice res p (rw built at h))
    | inr (x, failed) ↦ absurd (cc (rw failed at h))
  ]

  new_anchor-id :
      (req : AnchorRequest) {a : AnchorResult}
      → new_anchor sha256 req ≡ ok a
      → a.anchor_id ≡ hex (sha256 (anchor_payload req.chain_id req.head_seq req.head_hash))
  unfolding new_anchor
  new_anchor-id req h = ground arith

  new_anchor-hash :
      (req : AnchorRequest) {a : AnchorResult}
      → new_anchor sha256 req ≡ ok a
      → length req.head_hash ≡ 32
  unfolding new_anchor validate_anchor_request
  new_anchor-hash req h = ground arith

  anchor_payload_inj :
      (c d : Text) (n m : ℕ) (g h : Text)
      → length c < 2 ^ 32
      → length d < 2 ^ 32
      → n < 2 ^ 64
      → m < 2 ^ 64
      → length g < 2 ^ 32
      → length h < 2 ^ 32
      → anchor_payload c n g ≡ anchor_payload d m h
      → (c ≡ d) × (n ≡ m) × (g ≡ h)
  unfolding anchor_payload
  anchor_payload_inj c d n m g h lc ld ln lm lg lh e =
      let rest = append_cancel_left (write_len_prefixed anchor_domain_tag) _ _ e in
      let a = write_len_prefixed_inj c d _ _ lc ld rest in
      let b = write_uint64_inj n m _ _ ln lm a.1 in
      let f = write_len_prefixed_inj g h [] [] lg lh (simp append-nil b.1) in (a.0, b.0, f.0)

  -- Two anchors with one id are of the same chain, sequence number and head hash, or SHA-256 has a
  -- collision. The hash function returns bytes, and ids and numbers fit their widths.
  pub anchor_id-binding :
      ((x : Text) → IsBytes (sha256 x))
      → (r s : AnchorRequest) {a b : AnchorResult} → length r.chain_id < 2 ^ 32
      → length s.chain_id < 2 ^ 32
      → r.head_seq < 2 ^ 64
      → s.head_seq < 2 ^ 64
      → new_anchor sha256 r ≡ ok a
      → new_anchor sha256 s ≡ ok b
      → a.anchor_id ≡ b.anchor_id
      → ((r.chain_id ≡ s.chain_id) × (r.head_seq ≡ s.head_seq) × (r.head_hash ≡ s.head_hash))
        ⊎ Collision sha256
  anchor_id-binding bytes r s lr ls nr ns ha hb same =
      let lg = new_anchor-hash r ha in
      let lh = new_anchor-hash s hb in
      let ids = sym (new_anchor-id r ha) ∙ same ∙ new_anchor-id s hb in
      elim (sha256_inj sha256 _ _ (hex_inj _ _ (bytes _) (bytes _) ids)) [
        | inl e ↦ inl (
            anchor_payload_inj r.chain_id s.chain_id r.head_seq s.head_seq r.head_hash s.head_hash
              lr ls nr ns (omega arith) (omega arith) e)
        | inr c ↦ inr c
      ]
