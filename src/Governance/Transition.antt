-- ===== src/Governance/Transition.antt =====
-- internal/governance/transition.go: the effect of each configuration operation on an object, and
-- `Command` of engine.go.
pub mod Laws
pub mod Lifetimes
use oneops.Base.{
  ℕ, Bool, true, false, not, ◌&&◌, ◌||◌, Option, none, some, Text, text_eq, is_empty, if◌then◌else◌,
  [],
}
use oneops.Domain.Enums.{
  Lifecycle, draft, in_review, ratified, approved, suspended, deprecated, withdrawn, Authority,
  active, historical, non_normative, RetentionClass, current_baseline, historical_record,
  superseded_plan, historical_evidence, audit_record, working_material, EdgeKind, extends,
  Operation, ratification, approval, extension, suspension, deprecation, withdrawal, archiving,
  deletion,
}
use oneops.Domain.Errors.{
  Result, ok, err, transition, unsupported_operation, reject_if, ◌>>=◌, ◌>>◌,
}
use oneops.Domain.Objects.{ConfigObject}
use oneops.Domain.Errors.{Error}
use oneops.Base.{String}

pub record Command : Type 0 where
  pub operation : Operation
  pub cfg_id : Text
  pub actor : Text
  pub operation_id : Text
  -- 0 asks for no check
  pub expected_row_version : ℕ
  pub target_retention : RetentionClass
  pub successor_id : Text

pub record EdgeSpec : Type 0 where
  pub from : Text
  pub to : Text
  pub kind : EdgeKind

pub record Plan : Type 0 where
  pub lifecycle : Lifecycle
  pub retention : RetentionClass
  pub authority : Authority
  pub remove : Bool
  pub edge : Option EdgeSpec

-- The object with the dimensions of a plan.
abbrev pub planned : ConfigObject → Plan → ConfigObject
planned obj p = record obj {
  lifecycle = p.lifecycle;
  retention_class = p.retention;
  authority = p.authority;
}

abbrev pub is_draft_or_review : Lifecycle → Bool
is_draft_or_review draft = true
is_draft_or_review in_review = true
is_draft_or_review _ = false

abbrev pub is_withdrawn : Lifecycle → Bool
is_withdrawn withdrawn = true
is_withdrawn _ = false

abbrev pub is_suspended : Lifecycle → Bool
is_suspended suspended = true
is_suspended _ = false

abbrev pub is_active : Authority → Bool
is_active active = true
is_active _ = false

abbrev pub is_working_material : RetentionClass → Bool
is_working_material working_material = true
is_working_material _ = false

-- `isArchivalRetention`
abbrev pub is_archival_retention : RetentionClass → Bool
is_archival_retention historical_record = true
is_archival_retention historical_evidence = true
is_archival_retention audit_record = true
is_archival_retention superseded_plan = true
is_archival_retention _ = false

-- `invalid`
abbrev invalid : Operation → ConfigObject → String → Error
invalid op obj reason = transition op obj.lifecycle reason

abbrev dimensions : Lifecycle → RetentionClass → Authority → Plan
dimensions lifecycle retention authority = record {
  lifecycle = lifecycle;
  retention = retention;
  authority = authority;
  remove = false;
  edge = none;
}

-- `planTransition`
unfoldable pub plan_transition : Operation → ConfigObject → Command → Result Plan
plan_transition ratification obj cmd = do
  reject_if (not (is_draft_or_review obj.lifecycle))
      (invalid ratification obj "requires draft or in_review")
  ok (dimensions ratified current_baseline active)
plan_transition approval obj cmd = do
  reject_if (not (is_draft_or_review obj.lifecycle))
      (invalid approval obj "requires draft or in_review")
  ok (dimensions approved obj.retention_class active)
plan_transition extension obj cmd = do
  reject_if (is_empty cmd.successor_id) (invalid extension obj "successor_id is required")
  reject_if (text_eq cmd.successor_id cmd.cfg_id)
      (invalid extension obj "an object cannot extend itself")
  ok (record {
    lifecycle = obj.lifecycle;
    retention = obj.retention_class;
    authority = obj.authority;
    remove = false;
    edge = some (record { from = cmd.successor_id; to = cmd.cfg_id; kind = extends });
  })
plan_transition suspension obj cmd = do
  reject_if (is_withdrawn obj.lifecycle || is_suspended obj.lifecycle)
      (invalid suspension obj "already terminal or suspended")
  ok (dimensions suspended obj.retention_class obj.authority)
plan_transition deprecation obj cmd = do
  reject_if (not (is_active obj.authority))
      (invalid deprecation obj "only active artifacts may be deprecated")
  ok (dimensions deprecated obj.retention_class active)
plan_transition withdrawal obj cmd = do
  reject_if (is_withdrawn obj.lifecycle) (invalid withdrawal obj "already withdrawn")
  ok (
      dimensions withdrawn obj.retention_class
        (if is_active obj.authority then historical else non_normative))
plan_transition archiving obj cmd = do
  reject_if (not (is_archival_retention cmd.target_retention))
      (invalid archiving obj "target_retention must be an archival class")
  ok (dimensions obj.lifecycle cmd.target_retention obj.authority)
plan_transition deletion obj cmd = do
  reject_if (not (is_working_material obj.retention_class))
      (invalid deletion obj "only working_material may be deleted")
  ok (record {
    lifecycle = Lifecycle.other [];
    retention = RetentionClass.other [];
    authority = Authority.other [];
    remove = true;
    edge = none;
  })
plan_transition op obj cmd = err (unsupported_operation op)
