-- ===== src/Events/Dispatcher/Signing.antt =====
-- Sign and Verify of internal/events/sign.go, with collisions of the MAC explicit.
use oneops.Base.{
  arith, ℕ, ◌<◌, ◌^◌, ◌≡◌, ◌≢◌, refl, sym, ◌⊎◌, inl, inr, true, [], ◌∷◌, ◌++◌, Text, text_eq_iff,
  All,
}
use oneops.Audit.Hash.{hex}
use oneops.Audit.Hash.EventIds.{IsBytes, hex_inj}
use oneops.Audit.Hash.Binding.{Collision, sha256_inj}
use oneops.Events.World.{Env, delivery_id}
use oneops.Events.Dispatcher.{Wire, signed_message, sign, verify}

-- No byte is a full stop.
abbrev pub DotFree : Text → Type 0
DotFree = All (λ b. b ≢ 46)

dot_inj : (a b r s : Text) → DotFree a → DotFree b → a ++ 46 ∷ r ≡ b ++ 46 ∷ s → (a ≡ b) × (r ≡ s)
dot_inj [] [] r s f g e = (refl, cc)
dot_inj [] (y ∷ b) r s f g e = absurd (g.0 (cc))
dot_inj (x ∷ a) [] r s f g e = absurd (f.0 (cc))
dot_inj (x ∷ a) (y ∷ b) r s f g e =
    let tails : a ++ 46 ∷ r ≡ b ++ 46 ∷ s = cc in
    let (p, q) = dot_inj a b r s f.1 g.1 tails in (cc, q)

hex-DotFree : (s : Text) → DotFree (hex s)
unfolding hex
hex-DotFree [] = tt
hex-DotFree (b ∷ s) = ((λ e. ground (arith, e)), ((λ e. ground (arith, e)), hex-DotFree s))

-- The ids that newDeliveryID makes have no full stop.
pub delivery_id-DotFree : (env : Env) (n : ℕ) → DotFree (delivery_id env n)
delivery_id-DotFree env n = (
  (λ e. absurd (omega (arith, e))),
  (
    (λ e. absurd (omega (arith, e))),
    (
      (λ e. absurd (omega (arith, e))),
      ((λ e. absurd (omega (arith, e))), hex-DotFree (env.random n)),
    ),
  ),
)

module _ (wire : Wire) (dot_free : (n : ℕ) → DotFree (wire.format_int n))
    (inj : (m n : ℕ)
      → m < 2 ^ 64
      → n < 2 ^ 64
      → wire.format_int m ≡ wire.format_int n
      → m ≡ n) where
  signed_message_inj :
      (t u : ℕ) (a b p q : Text)
      → t < 2 ^ 64
      → u < 2 ^ 64
      → DotFree a
      → DotFree b
      → signed_message wire t a p ≡ signed_message wire u b q
      → (t ≡ u) × (a ≡ b) × (p ≡ q)
  unfolding signed_message
  signed_message_inj t u a b p q lt lu f g e =
      let (stamps, rest) =
        dot_inj (wire.format_int t) (wire.format_int u) (a ++ 46 ∷ p) (b ++ 46 ∷ q) (dot_free t)
          (dot_free u) e in
      let (ids, bodies) = dot_inj a b p q f g rest in (inj t u lt lu stamps, ids, bodies)

  -- Under one secret, a signature made for one timestamp, delivery id and payload verifies for no
  -- others, unless the MAC has a collision. Neither of the two delivery ids has a full stop. The MAC
  -- gives bytes; a timestamp is an int64, whose decimal form is its own and has no full stop.
  pub verify-sign :
      (bytes : (k m : Text) → IsBytes (wire.hmac k m)) (secret : Text) (t u : ℕ) (a b p q : Text)
      → t < 2 ^ 64
      → u < 2 ^ 64
      → DotFree a
      → DotFree b
      → verify wire secret u b q (sign wire secret t a p) ≡ true
      → ((t ≡ u) × (a ≡ b) × (p ≡ q)) ⊎ Collision (wire.hmac secret)
  unfolding verify sign
  verify-sign bytes secret t u a b p q lt lu f g v =
      let sent = signed_message wire t a p in
      let checked = signed_message wire u b q in
      let macs : wire.hmac secret sent ≡ wire.hmac secret checked =
        hex_inj (wire.hmac secret sent) (wire.hmac secret checked) (bytes secret sent)
          (bytes secret checked)
          (sym
            ((text_eq_iff (hex (wire.hmac secret checked)) (hex (wire.hmac secret sent))).0 v)) in
      elim (sha256_inj (wire.hmac secret) sent checked macs) [
        | inl same ↦ inl (signed_message_inj t u a b p q lt lu f g same)
        | inr c ↦ inr c
      ]
