-- ===== src/Domain/Errors.antt =====
-- internal/domain/errors.go and the sentinel errors of the other packages as one type, and
-- computations that may return one. What errors.New and fmt.Errorf build is `message`.
use oneops.Base.{◌≡◌, refl, Bool, true, false, ◌⊎◌, inl, inr, String, Text}
use oneops.Domain.Enums.{Operation, Lifecycle}

pub data Error : Type 0 where
  -- domain
  not_found conflict version_mismatch : Error
  validation : String → String → Error
  -- audit
  empty_chain_id empty_event_id empty_operation empty_actor empty_payload invalid_seq : Error
  prev_hash_len empty_operation_id missing_occurred_at invalid_head_seq head_hash_len : Error
  chain_not_verified empty_canonical_input : Error
  -- governance
  transition : Operation → Lifecycle → String → Error
  unsupported_operation : Operation → Error
  has_dependents : Error
  -- authority: kind, object, detail
  inconsistent : String → Text → Error
  -- a cancelled context
  cancelled : Error
  message : String → Error
  -- a failure of the database, the network or a library, by its text
  external : Text → Error

pub data Result {ℓ} (Value : Type ℓ) : Type ℓ where
  ok : Value → Result Value
  err : Error → Result Value

-- `if bad { return e }`
abbrev pub reject_if : Bool → Error → Result (Unit {0})
reject_if true x = err x
reject_if false x = ok tt

-- `v, err := …; if err != nil { return err }`, and the same where there is no value.
module _ {ℓ κ} {A : Type ℓ} {B : Type κ} where
  infixl 5 ◌>>=◌
  abbrev pub ◌>>=◌ : Result A → (A → Result B) → Result B
  ok v >>= next = next v
  err x >>= next = err x

  pub >>=-eq-ok :
      (m : Result A) (next : A → Result B) {out : B}
      → (m >>= next) ≡ ok out
      → (v : A) × (m ≡ ok v) × (next v ≡ ok out)
  >>=-eq-ok (ok v) next h = (v, refl, h)
  >>=-eq-ok (err x) next h = cc

module _ {ℓ} {A : Type ℓ} where
  infixl 5 ◌>>◌
  abbrev pub ◌>>◌ : Result (Unit {0}) → Result A → Result A
  check >> rest = check >>= λ _. rest

  pub Result-cases : (r : Result A) → ((v : A) × (r ≡ ok v)) ⊎ ((x : Error) × (r ≡ err x))
  Result-cases (ok v) = inl (v, refl)
  Result-cases (err x) = inr (x, refl)

  pub ok_inj : {a b : A} → ◌≡◌ {A = Result A} (ok a) (ok b) → a ≡ b
  ok_inj e = cc
