-- ===== src/Audit/Hash/EventIds.antt =====
-- DeriveEventID of internal/audit/eventid.go, with collisions of SHA-256 explicit.
use oneops.Base.{
  ◌^◌, ◌<◌, ◌≡◌, refl, ◌⊎◌, inl, inr, [], ◌∷◌, ◌++◌, Text, length, arith, All, append-nil,
}
use mathlib.Core.List.{append_cancel_left}
use oneops.Domain.Errors.{ok}
use oneops.Audit.Hash.{
  write_len_prefixed, derive_event_id, hex, event_id_prefix, event_id_domain_tag,
}
use oneops.Audit.Hash.Binding.{Collision, write_len_prefixed_inj, sha256_inj}

abbrev pub IsBytes : Text → Type 0
IsBytes = All (λ b. b < 256)

pub hex_inj : (s t : Text) → IsBytes s → IsBytes t → hex s ≡ hex t → s ≡ t
unfolding hex
hex_inj [] [] hs ht e = refl
hex_inj [] (b ∷ t) hs ht e = cc
hex_inj (a ∷ s) [] hs ht e = cc
hex_inj (a ∷ s) (b ∷ t) hs ht e =
    let same : a ≡ b = ground arith in cc (same, hex_inj s t hs.1 ht.1 (cc))

module _ (sha256 : Text → Text) (bytes : (x : Text) → IsBytes (sha256 x)) where
  -- Two operation ids with one event id are equal, or SHA-256 has a collision. Both are shorter than
  -- 2^32 bytes, and the hash function returns bytes.
  pub derive_event_id_inj :
      (a b : Text) {id : Text}
      → length a < 2 ^ 32
      → length b < 2 ^ 32
      → derive_event_id sha256 a ≡ ok id
      → derive_event_id sha256 b ≡ ok id
      → (a ≡ b) ⊎ Collision sha256
  unfolding derive_event_id
  derive_event_id_inj a b {id} ha hb pa pb =
      let tag = write_len_prefixed event_id_domain_tag in
      let same : event_id_prefix ++ hex (sha256 (tag ++ write_len_prefixed a))
          ≡ event_id_prefix ++ hex (sha256 (tag ++ write_len_prefixed b)) =
        ground arith in
      let sums = hex_inj _ _ (bytes _) (bytes _) (append_cancel_left event_id_prefix _ _ same) in
      elim (sha256_inj sha256 _ _ sums) [
        | inr c ↦ inr c
        | inl e ↦
            let framed = append_cancel_left tag _ _ e in
            inl (write_len_prefixed_inj a b [] [] ha hb (simp append-nil framed)).0
      ]
