-- ===== src/Domain/AuditTypes.antt =====
-- internal/domain/audit.go and audit_chain.go: the audit event, its request and the verify result.
-- An int64 is its 64-bit pattern. A time is its nanoseconds since Go's zero time, which is 0.
use oneops.Base.{ℕ, Bool, Option, Text, is_empty, not, ◌||◌}
use oneops.Domain.Enums.{Operation, valid_operation}
use oneops.Domain.Errors.{Result, validation, reject_if, ◌>>◌}

pub record EventInput : Type 0 where
  pub chain_id : Text
  pub operation_id : Text
  pub operation : Operation
  pub payload : Text

-- `EventInput.Validate`; the argument is json.Valid.
unfoldable pub validate_input : (Text → Bool) → EventInput → Result (Unit {0})
validate_input json_valid e = do
  reject_if (is_empty e.chain_id) (validation "chain_id" "must not be empty")
  reject_if (is_empty e.operation_id) (validation "operation_id" "must not be empty")
  reject_if (not (valid_operation e.operation))
      (validation "operation" "unknown configuration operation")
  reject_if (is_empty e.payload || not (json_valid e.payload))
      (validation "payload" "must be well-formed JSON")

pub record AuditEvent : Type 0 where
  pub chain_id : Text
  pub seq : ℕ
  pub event_id : Text
  pub operation_id : Text
  pub operation : Operation
  pub actor : Text
  pub payload_canonical : Text
  pub prev_hash : Text
  pub this_hash : Text
  pub occurred_at : ℕ

-- `FirstBreakSeq` is nil exactly if `first_break` is none; it comes with `BreakReason`.
pub data BreakReason : Type 0 where
  sequence_gap sequence_duplicate prev_hash_mismatch this_hash_mismatch : BreakReason
  hash_input_invalid : BreakReason

pub record VerifyResult : Type 0 where
  pub chain_id : Text
  pub is_ok : Bool
  pub checked : ℕ
  pub head_seq : ℕ
  pub head_hash : Text
  pub first_break : Option (ℕ × BreakReason)

-- `AuditChainID`
abbrev pub audit_chain_id : Text → Text
audit_chain_id cfg_id = cfg_id
