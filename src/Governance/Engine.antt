-- ===== src/Governance/Engine.antt =====
-- internal/governance/engine.go: one operation in one transaction. The ports act on a state S: inside
-- a transaction each call passes the state on, and an error drops it, which is the deferred rollback.
pub mod Atomicity
use oneops.Base.{
  ℕ, Bool, true, false, not, ◌&&◌, Option, none, some, List, [], Text, is_empty, ◌==◌, ltb,
  if◌then◌else◌,
}
use oneops.Domain.Enums.{Lifecycle, RetentionClass, Authority, EdgeKind, Operation, valid_operation}
use oneops.Domain.Errors.{
  Error, Result, ok, err, version_mismatch, has_dependents, message, reject_if, ◌>>=◌, ◌>>◌,
}
use oneops.Domain.Objects.{ConfigObject, validate_object}
use oneops.Domain.AuditTypes.{AuditEvent, EventInput, audit_chain_id}
use oneops.Audit.Resolve.{AppendInput, Json, resolve}
use oneops.Governance.Transition.{Command, EdgeSpec, Plan, planned, plan_transition}

-- `Command.validate`
unfoldable pub validate_command : Command → Result (Unit {0})
validate_command c = do
  reject_if (is_empty c.cfg_id) (message "governance: cfg_id is required")
  reject_if (is_empty c.actor) (message "governance: actor is required")
  reject_if (not (valid_operation c.operation)) (message "governance: unknown operation")

-- `Result` of the engine.
pub record Outcome : Type 0 where
  pub operation : Operation
  pub cfg_id : Text
  pub actor : Text
  pub occurred_at : ℕ
  pub new_lifecycle : Lifecycle
  pub new_retention : RetentionClass
  pub new_authority : Authority
  pub removed : Bool
  pub row_version : ℕ
  pub successor_id : Text

-- The ports `Store` with the transaction's ends, `Authorizer` and `Auditor`, the clock, and
-- json.Marshal of the audit payload.
pub record Ports (S : Type 0) : Type 0 where
  pub begin : S → Result S
  pub commit : S → Result S
  pub get_for_update : Text → S → Result ConfigObject
  pub apply_dimensions : Text → ℕ → Lifecycle → RetentionClass → Authority → S → Result (ℕ × S)
  pub count_dependents : Text → S → Result ℕ
  pub remove_object : Text → ℕ → S → Result S
  pub record_edge : Text → Text → EdgeKind → S → Result S
  pub authorize : Operation → Text → ConfigObject → Result (Unit {0})
  pub append_audit : AppendInput → S → Result (AuditEvent × S)
  pub now : ℕ
  pub marshal : Outcome → Result Text

-- `AllowAllAuthorizer`
abbrev pub allow_all : Operation → Text → ConfigObject → Result (Unit {0})
allow_all op actor obj = ok tt

abbrev pub new_outcome : Command → ℕ → Outcome
new_outcome cmd now = record {
  operation = cmd.operation;
  cfg_id = cmd.cfg_id;
  actor = cmd.actor;
  occurred_at = now;
  new_lifecycle = Lifecycle.other [];
  new_retention = RetentionClass.other [];
  new_authority = Authority.other [];
  removed = false;
  row_version = 0;
  successor_id = [];
}

module _ {S : Type 0} (ports : Ports S) where
  -- The branch of `Execute` that removes the object.
  unfoldable pub apply_removal : Command → ConfigObject → Outcome → S → Result (Outcome × S)
  apply_removal cmd obj res s = do
    n ← ports.count_dependents cmd.cfg_id s
    reject_if (ltb 0 n) has_dependents
    removed ← ports.remove_object cmd.cfg_id obj.row_version s
    ok (record res { removed = true }, removed)

  -- The branch that writes the dimensions, behind the checks of the resulting object.
  unfoldable pub apply_update : Command → ConfigObject → Plan → Outcome → S → Result (Outcome × S)
  apply_update cmd obj p res s = do
    validate_object (planned obj p)
    written ←
        ports.apply_dimensions cmd.cfg_id obj.row_version p.lifecycle p.retention p.authority s
    ok (
      record res {
        new_lifecycle = p.lifecycle;
        new_retention = p.retention;
        new_authority = p.authority;
        row_version = written.0;
      },
      written.1,
    )

  unfoldable pub apply_plan : Command → ConfigObject → Plan → Outcome → S → Result (Outcome × S)
  unfolding apply_removal apply_update
  apply_plan cmd obj p res s =
      if p.remove then apply_removal cmd obj res s else apply_update cmd obj p res s

  -- The relational effect: the edge of an extension.
  unfoldable pub apply_edge : Option EdgeSpec → Outcome → S → Result (Outcome × S)
  apply_edge none res s = ok (res, s)
  apply_edge (some e) res s = do
    recorded ← ports.record_edge e.from e.to e.kind s
    ok (record res { successor_id = e.from }, recorded)

  module _ (json : Json) (sha256 : Text → Text) where
    -- The audit emission: payload, `audit.Resolve`, `AppendTx`.
    unfoldable pub emit_audit : Command → Outcome → S → Result S
    emit_audit cmd res s = do
      payload ← ports.marshal res
      input ←
          resolve json sha256
            (record {
              chain_id = audit_chain_id res.cfg_id;
              operation_id = cmd.operation_id;
              operation = res.operation;
              payload = payload;
            })
            res.actor res.occurred_at
      appended ← ports.append_audit input s
      ok appended.1

    -- The body of `Execute` between begin and commit.
    unfoldable pub stage : Command → S → Result (Outcome × S)
    stage cmd s = do
      obj ← ports.get_for_update cmd.cfg_id s
      reject_if
          (not (cmd.expected_row_version == 0) && not (obj.row_version == cmd.expected_row_version))
          version_mismatch
      ports.authorize cmd.operation cmd.actor obj
      p ← plan_transition cmd.operation obj cmd
      applied ← apply_plan cmd obj p (new_outcome cmd ports.now) s
      related ← apply_edge p.edge applied.0 applied.1
      audited ← emit_audit cmd related.0 related.1
      ok (related.0, audited)

    unfoldable pub transact : Command → S → Result (Outcome × S)
    transact cmd s = do
      validate_command cmd
      begun ← ports.begin s
      staged ← stage cmd begun
      committed ← ports.commit staged.1
      ok (staged.0, committed)

    abbrev settle : S → Result (Outcome × S) → Result Outcome × S
    settle s (ok (res, s')) = (ok res, s')
    settle s (err x) = (err x, s)

    -- `Execute`
    unfoldable pub execute : Command → S → Result Outcome × S
    execute cmd s = settle s (transact cmd s)
