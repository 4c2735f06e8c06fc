-- ===== src/Events/Dispatcher/Backoff.antt =====
-- The delay before a retry (`backoff` of internal/events/dispatcher.go).
use oneops.Base.{
  ℕ, zero, suc, ◌+◌, ◌-◌, ◌*◌, ◌%◌, ◌^◌, ◌<◌, ◌≤◌, ◌≡◌, ◌⊎◌, refl, ap, sym, ◌∙◌, inl, inr, Bool,
  true, false, ◌&&◌, ◌||◌, leb, ltb, ◌==◌, ==_iff, Bool-cases, arith, if◌then◌else◌,
}
use native.Mathlib.Nat.{mul-le-mul}
use native.Mathlib.Omega.{pow_step}
use oneops.Audit.Hash.{int64_lt, below_one}
use oneops.Events.Dispatcher.{DispatcherConfig, dispatcher_defaults, backoff}

-- The delay for a shifted base that wrapped to `b`, with the greatest delay `m`.
abbrev capped : ℕ → ℕ → ℕ
capped m b = if below_one b || int64_lt m b then m else b

capped-Bounded :
    (m b : ℕ) → b < 2 ^ 64 → m < 2 ^ 63 → below_one m ≡ false → (1 ≤ capped m b) × (capped m b ≤ m)
capped-Bounded m b l k p = ground arith

capped-exact : (m b : ℕ) → 1 ≤ b → b ≤ m → m < 2 ^ 63 → capped m b ≡ b
capped-exact m b l k p = ground arith

pow_pos : (k : ℕ) → 1 ≤ 2 ^ k
pow_pos zero = omega arith
pow_pos (suc k) = omega (arith, pow_step 2 k, pow_pos k)

mul_pos : (a b : ℕ) → 1 ≤ a → 1 ≤ b → 1 ≤ a * b
mul_pos a b p q = mul-le-mul p q

-- With positive settings, a delay is positive and at most the greatest one; and either the doubled base
-- is over that, or the delay is exactly the base doubled once per earlier retry.
pub backoff-Bounded :
    (c : DispatcherConfig) (retry : ℕ)
    → c.max_backoff < 2 ^ 63
    → below_one c.max_backoff ≡ false
    → 1 ≤ c.base_backoff
    → (1 ≤ backoff c retry)
      × (backoff c retry ≤ c.max_backoff)
      × ((c.max_backoff < c.base_backoff * 2 ^ (retry - 1))
          ⊎ (backoff c retry ≡ c.base_backoff * 2 ^ (retry - 1)))
unfolding backoff
backoff-Bounded c retry small positive base =
    let p = c.base_backoff * 2 ^ (retry - 1) in
    let b = p % 2 ^ 64 in
    let (low, high) = capped-Bounded c.max_backoff b (omega arith) small positive in
    (
      low,
      high,
      elim (Bool-cases (leb p c.max_backoff)) [
        | inl e ↦
            let fits : p ≤ c.max_backoff = ground (arith, e) in
            let some_delay : 1 ≤ p =
              mul_pos c.base_backoff (2 ^ (retry - 1)) base (pow_pos (retry - 1)) in
            let same : b ≡ p = omega (arith, fits, small) in
            inr (
              capped-exact c.max_backoff b (omega (arith, same, some_delay))
                (omega (arith, same, fits)) small
              ∙ same)
        | inr e ↦ inl (ground (arith, e))
      ],
    )

-- Zero settings, which stand for the defaults.
abbrev pub unset : DispatcherConfig
unset = record { batch_limit = 0; base_backoff = 0; max_backoff = 0 }

abbrev pub least : ℕ → ℕ → ℕ
least a b = if leb a b then a else b

abbrev default_base : ℕ
default_base = 5000000000

abbrev default_max : ℕ
default_max = 3600000000000

agrees : ℕ → Bool
agrees k =
    capped default_max (default_base * 2 ^ k % 2 ^ 64) == least (default_base * 2 ^ k) default_max

all_agree : ℕ → Bool
unfolding agrees
all_agree zero = true
all_agree (suc k) = agrees k && all_agree k

first_agree : all_agree 55 ≡ true
unfolding all_agree agrees
first_agree = refl

all_agree-below : (n k : ℕ) → all_agree n ≡ true → k < n → agrees k ≡ true
unfolding all_agree
all_agree-below zero k h l = absurd (omega arith)
all_agree-below (suc n) k h l = elim (Bool-cases (k == n)) [
  | inl e ↦ rw ((==_iff k n).0 e) (ground (arith, h))
  | inr e ↦ all_agree-below n k (ground (arith, h)) (ground (arith, e, l))
]

pow_split : (j : ℕ) → 2 ^ (j + 55) ≡ 2 ^ j * 2 ^ 55
pow_split zero = refl
pow_split (suc j) =
    let count : suc j + 55 ≡ suc (j + 55) = omega arith in
    ap (λ (n : ℕ). 2 ^ n) count ∙ omega (arith, pow_step 2 (j + 55), pow_step 2 j, pow_split j)

agrees-after : (j : ℕ) → agrees (j + 55) ≡ true
unfolding agrees
agrees-after j =
    let a = 2 ^ j in
    let shifted : 2 ^ (j + 55) ≡ a * 2 ^ 55 = pow_split j in
    let some_bit = pow_pos j in
    let wraps : default_base * 2 ^ (j + 55) % 2 ^ 64 ≡ 0 = omega (arith, shifted) in
    let large : default_max < default_base * 2 ^ (j + 55) = omega (arith, shifted, some_bit) in
    rw wraps (ground (arith, large))

agrees-always : (k : ℕ) → agrees k ≡ true
agrees-always k = elim (Bool-cases (ltb k 55)) [
  | inl e ↦ all_agree-below 55 k first_agree (ground (arith, e))
  | inr e ↦ let back : k - 55 + 55 ≡ k = ground (arith, e) in rw (sym back) (agrees-after (k - 55))
]

-- With the default settings the delay is five seconds, doubled for each earlier retry, or one hour if
-- that is less, for every retry count: the 64-bit shift never shows.
pub backoff-default :
    (retry : ℕ)
    → backoff (dispatcher_defaults unset) retry ≡ least (5000000000 * 2 ^ (retry - 1)) 3600000000000
unfolding backoff dispatcher_defaults agrees
backoff-default retry =
    (==_iff (capped default_max (default_base * 2 ^ (retry - 1) % 2 ^ 64))
        (least (default_base * 2 ^ (retry - 1)) default_max)).0
      (agrees-always (retry - 1))
