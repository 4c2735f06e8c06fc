-- ===== src/Governance/Transition/Laws.antt =====
-- planTransition (internal/governance/transition.go) over all operations.
use oneops.Base.{◌≡◌, ◌≢◌, refl, ◌⊎◌, inl, inr, ◌↔◌, true, false, some, text_eq_iff, arith}
use oneops.Domain.Enums.{
  working_material, Operation, ratification, approval, extension, replacement, suspension,
  deprecation, withdrawal, archiving, historical_preservation, deletion, baseline_freeze, amendment,
  extends,
}
use oneops.Domain.Errors.{ok, err, unsupported_operation}
use oneops.Domain.Objects.{ConfigObject}
use oneops.Governance.Transition.{Command, Plan, EdgeSpec, plan_transition, is_archival_retention}

-- The operations that the engine does not support.
abbrev pub Unsupported : Operation → Type 0
Unsupported replacement = Unit
Unsupported historical_preservation = Unit
Unsupported baseline_freeze = Unit
Unsupported amendment = Unit
Unsupported (Operation.other s) = Unit
Unsupported _ = ⊥

-- An operation is refused as unsupported exactly if it is Replacement, Historical Preservation,
-- Baseline Freeze, Amendment or none of the twelve, whatever the object and the command.
pub plan_transition-Unsupported :
    (op : Operation) (obj : ConfigObject) (cmd : Command)
    → (plan_transition op obj cmd ≡ err (unsupported_operation op)) ↔ Unsupported op
unfolding plan_transition
plan_transition-Unsupported ratification obj cmd = ((λ h. ground arith), (λ x. absurd x))
plan_transition-Unsupported approval obj cmd = ((λ h. ground arith), (λ x. absurd x))
plan_transition-Unsupported extension obj cmd = ((λ h. ground arith), (λ x. absurd x))
plan_transition-Unsupported suspension obj cmd = ((λ h. ground arith), (λ x. absurd x))
plan_transition-Unsupported deprecation obj cmd = ((λ h. ground arith), (λ x. absurd x))
plan_transition-Unsupported withdrawal obj cmd = ((λ h. ground arith), (λ x. absurd x))
plan_transition-Unsupported archiving obj cmd = ((λ h. ground arith), (λ x. absurd x))
plan_transition-Unsupported deletion obj cmd = ((λ h. ground arith), (λ x. absurd x))
plan_transition-Unsupported _ obj cmd = ((λ h. tt), (λ h. refl))

-- The effects that an operation may have.
pub record Effects (op : Operation) (obj : ConfigObject) (cmd : Command) (p : Plan) : Type 0 where
  -- only Deletion removes, and it removes working material alone
  pub removes : p.remove ≡ true → (op ≡ deletion) × (obj.retention_class ≡ working_material)
  -- only Extension records an edge, from the successor to the object
  pub relates :
      (e : EdgeSpec)
      → p.edge ≡ some e
      → (op ≡ extension)
        × (e ≡ record { from = cmd.successor_id; to = cmd.cfg_id; kind = extends })
        × (cmd.successor_id ≢ cmd.cfg_id)
  -- Extension, Suspension, Deprecation and Archiving leave the authority alone
  pub authority :
      p.remove ≡ false
      → p.authority ≢ obj.authority
      → (op ≡ ratification) ⊎ ((op ≡ approval) ⊎ (op ≡ withdrawal))
  -- Ratification and Archiving alone change the retention class
  pub retention :
      p.remove ≡ false
      → p.retention ≢ obj.retention_class
      → (op ≡ ratification) ⊎ ((op ≡ archiving) × (is_archival_retention p.retention ≡ true))

-- An operation that is planned has the effects of its kind and no others: only Deletion removes, only
-- Extension records an edge, only Ratification, Approval and Withdrawal change the authority, and only
-- Ratification and Archiving change the retention class.
pub plan_transition-Effects :
    (op : Operation) (obj : ConfigObject) (cmd : Command) (p : Plan)
    → plan_transition op obj cmd ≡ ok p
    → Effects op obj cmd p
unfolding plan_transition
plan_transition-Effects ratification obj cmd p h = record {
  removes = λ r. ground arith;
  relates = λ e r. ground arith;
  authority = λ r n. inl refl;
  retention = λ r n. inl refl;
}
plan_transition-Effects approval obj cmd p h = record {
  removes = λ r. ground arith;
  relates = λ e r. ground arith;
  authority = λ r n. inr (inl refl);
  retention = λ r n. ground arith;
}
plan_transition-Effects extension obj cmd p h = record {
  removes = λ r. ground arith;
  relates = λ e r.
      (refl, ground arith, λ same. ground (arith, text_eq_iff cmd.successor_id cmd.cfg_id, same));
  authority = λ r n. ground arith;
  retention = λ r n. ground arith;
}
plan_transition-Effects suspension obj cmd p h = record {
  removes = λ r. ground arith;
  relates = λ e r. ground arith;
  authority = λ r n. ground arith;
  retention = λ r n. ground arith;
}
plan_transition-Effects deprecation obj cmd p h = record {
  removes = λ r. ground arith;
  relates = λ e r. ground arith;
  authority = λ r n. ground arith;
  retention = λ r n. ground arith;
}
plan_transition-Effects withdrawal obj cmd p h = record {
  removes = λ r. ground arith;
  relates = λ e r. ground arith;
  authority = λ r n. inr (inr refl);
  retention = λ r n. ground arith;
}
plan_transition-Effects archiving obj cmd p h = record {
  removes = λ r. ground arith;
  relates = λ e r. ground arith;
  authority = λ r n. ground arith;
  retention = λ r n. ground arith;
}
plan_transition-Effects deletion obj cmd p h = record {
  removes = λ r. ground arith;
  relates = λ e r. ground arith;
  authority = λ r n. ground arith;
  retention = λ r n. ground arith;
}
plan_transition-Effects _ obj cmd p h = cc
