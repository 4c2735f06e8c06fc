-- ===== src/Governance/Transition/Lifetimes.antt =====
-- planTransition (internal/governance/transition.go) with the checks of domain.ConfigObject, over runs.
use oneops.Base.{◌≡◌, ◌≢◌, refl, sym, ◌∙◌, ◌↔◌, Bool, true, false, not, ◌&&◌, arith}
use oneops.Domain.Enums.{
  Lifecycle, withdrawn, Authority, active, RetentionClass, current_baseline, Operation,
  ratification, approval, extension, suspension, deprecation, withdrawal, archiving, deletion,
  valid_lifecycle, valid_retention, valid_authority, no_authority,
}
use oneops.Domain.Errors.{ok}
use oneops.Domain.Objects.{ConfigObject, validate_object, is_baseline, is_historical}
use oneops.Governance.Transition.{Command, Plan, planned, plan_transition}

-- The withdrawal of an object that is in force in the current baseline.
abbrev pub WithdrawsBaseline : Operation → ConfigObject → Type 0
WithdrawsBaseline op obj =
    (op ≡ withdrawal) × (obj.authority ≡ active) × (obj.retention_class ≡ current_baseline)

abbrev with : ConfigObject → Lifecycle → RetentionClass → Authority → ConfigObject
with obj l r a = record obj { lifecycle = l; retention_class = r; authority = a }

abbrev unknown_authority : Authority → Bool
unknown_authority a = not (no_authority a) && not (valid_authority a)

-- What the checks of the three dimensions have found.
record ValidDimensions (obj : ConfigObject) : Type 0 where
  lifecycle : valid_lifecycle obj.lifecycle ≡ true
  retention : valid_retention obj.retention_class ≡ true
  authority : unknown_authority obj.authority ≡ false
  coherent : (is_baseline obj.retention_class && is_historical obj.authority) ≡ false

validate_object-dimensions :
    (obj : ConfigObject) → validate_object obj ≡ ok tt → ValidDimensions obj
unfolding validate_object
validate_object-dimensions obj v = ground arith

-- Valid new dimensions leave the check across them.
validate_object-with :
    (obj : ConfigObject) (l : Lifecycle) (r : RetentionClass) (a : Authority)
    → validate_object obj ≡ ok tt
    → valid_lifecycle l ≡ true
    → valid_retention r ≡ true
    → unknown_authority a ≡ false
    → (validate_object (with obj l r a) ≡ ok tt) ↔ ((is_baseline r && is_historical a) ≡ false)
unfolding validate_object
validate_object-with obj l r a v vl vr va = ((λ h. ground arith), (λ h. ground arith))

planned-coherent :
    (op : Operation) (obj : ConfigObject) (cmd : Command) (p : Plan)
    → ValidDimensions obj
    → plan_transition op obj cmd ≡ ok p
    → p.remove ≡ false
    → ((is_baseline p.retention && is_historical p.authority) ≡ false)
      ↔ (¬ WithdrawsBaseline op obj)
unfolding plan_transition
planned-coherent ratification obj cmd p v h r = ((λ q w. ground arith), (λ n. ground arith))
planned-coherent approval obj cmd p v h r = ((λ q w. ground arith), (λ n. ground arith))
planned-coherent extension obj cmd p v h r = ((λ q w. ground arith), (λ n. ground arith))
planned-coherent suspension obj cmd p v h r = ((λ q w. ground arith), (λ n. ground arith))
planned-coherent deprecation obj cmd p v h r = ((λ q w. ground arith), (λ n. ground arith))
planned-coherent withdrawal obj cmd p v h r = ((λ q w. ground arith), (λ n. ground (arith, n)))
planned-coherent archiving obj cmd p v h r = ((λ q w. ground arith), (λ n. ground arith))
planned-coherent deletion obj cmd p v h r = ((λ q w. ground arith), (λ n. ground arith))
planned-coherent _ obj cmd p v h r = cc

record Known (p : Plan) : Type 0 where
  lifecycle : valid_lifecycle p.lifecycle ≡ true
  retention : valid_retention p.retention ≡ true
  authority : unknown_authority p.authority ≡ false

planned-Known :
    (op : Operation) (obj : ConfigObject) (cmd : Command) (p : Plan)
    → ValidDimensions obj
    → plan_transition op obj cmd ≡ ok p
    → p.remove ≡ false
    → Known p
unfolding plan_transition valid_lifecycle valid_retention valid_authority no_authority
planned-Known ratification obj cmd p v h r = ground arith
planned-Known approval obj cmd p v h r = ground arith
planned-Known extension obj cmd p v h r = ground arith
planned-Known suspension obj cmd p v h r = ground arith
planned-Known deprecation obj cmd p v h r = ground arith
planned-Known withdrawal obj cmd p v h r = ground arith
planned-Known archiving obj cmd p v h r = ground arith
planned-Known deletion obj cmd p v h r = ground arith
planned-Known _ obj cmd p v h r = cc

-- An operation that is planned on an object that validates, and that keeps it, gives an object that
-- validates, but for the withdrawal of an active current-baseline object, and that one gives an object
-- that does not.
pub plan_transition-valid :
    (op : Operation) (obj : ConfigObject) (cmd : Command) (p : Plan)
    → validate_object obj ≡ ok tt
    → plan_transition op obj cmd ≡ ok p
    → p.remove ≡ false
    → (validate_object (planned obj p) ≡ ok tt) ↔ (¬ WithdrawsBaseline op obj)
plan_transition-valid op obj cmd p v h r =
    let d = validate_object-dimensions obj v in
    let k = planned-Known op obj cmd p d h r in
    let a =
      validate_object-with obj p.lifecycle p.retention p.authority v k.lifecycle k.retention
        k.authority in
    let b = planned-coherent op obj cmd p d h r in ((λ q. b.0 (a.0 q)), (λ n. a.1 (b.1 n)))

-- Objects that an object becomes by planned operations that keep it.
pub data Evolves (obj : ConfigObject) : ConfigObject → Type 0 where
  start : Evolves obj obj
  step :
      {o : ConfigObject} (op : Operation) (cmd : Command) (p : Plan)
      → Evolves obj o
      → plan_transition op o cmd ≡ ok p
      → p.remove ≡ false
      → Evolves obj (planned o p)

plan_withdrawn :
    (op : Operation) (obj : ConfigObject) (cmd : Command) (p : Plan)
    → obj.lifecycle ≡ withdrawn
    → obj.authority ≢ active
    → plan_transition op obj cmd ≡ ok p
    → p.remove ≡ false
    → (p.lifecycle ≡ withdrawn) × (p.authority ≡ obj.authority)
unfolding plan_transition
plan_withdrawn ratification obj cmd p w a h r = ground arith
plan_withdrawn approval obj cmd p w a h r = ground arith
plan_withdrawn extension obj cmd p w a h r = ground arith
plan_withdrawn suspension obj cmd p w a h r = ground arith
plan_withdrawn deprecation obj cmd p w a h r = ground (arith, a)
plan_withdrawn withdrawal obj cmd p w a h r = ground arith
plan_withdrawn archiving obj cmd p w a h r = ground arith
plan_withdrawn deletion obj cmd p w a h r = ground arith
plan_withdrawn _ obj cmd p w a h r = cc

-- A withdrawn object that is not active stays withdrawn, with the authority that it has, under any
-- run of operations that does not remove it.
pub Evolves-withdrawn :
    (obj o : ConfigObject)
    → obj.lifecycle ≡ withdrawn
    → obj.authority ≢ active
    → Evolves obj o
    → (o.lifecycle ≡ withdrawn) × (o.authority ≡ obj.authority)
Evolves-withdrawn obj o w a start = (w, refl)
Evolves-withdrawn obj o w a (step {o = prev} op cmd p before h r) =
    let (wp, ap') = Evolves-withdrawn obj prev w a before in
    let (wn, an) = plan_withdrawn op prev cmd p wp (λ e. a (sym ap' ∙ e)) h r in (wn, an ∙ ap')
