-- ===== src/Policy/Types.antt =====
-- internal/policy/policy.go. RetryCount and MaxRetries are int64 patterns; a zero time is 0. What
-- encoding/json decodes is a JsonValue, in which a number or a composite is the text that json.Marshal
-- writes for it.
use oneops.Base.{
  ℕ, Bool, true, false, not, ◌&&◌, Option, none, some, List, [], ◌∷◌, Text, codes, text_eq, mem,
  is_empty, if◌then◌else◌, StringMap, get_or_empty,
}
use oneops.Domain.Enums.{operation_text}
use oneops.Domain.AuditTypes.{AuditEvent}

pub data JsonValue : Type 0 where
  string_value : Text → JsonValue
  bool_value : Bool → JsonValue
  number_value : Text → JsonValue
  composite_value : Text → JsonValue

pub record PolicyEvent : Type 0 where
  pub event_id : Text
  pub operation_id : Text
  pub operation : Text
  pub actor : Text
  pub cfg_id : Text
  pub seq : ℕ
  pub occurred_at : ℕ
  pub metadata : StringMap

-- `stringify`
unfoldable pub stringify : JsonValue → Text
stringify (string_value t) = t
stringify (bool_value b) = if b then codes "true" else codes "false"
stringify (number_value t) = t
stringify (composite_value t) = t

unfoldable pub stringify_all : List (Text × JsonValue) → StringMap
unfolding stringify
stringify_all [] = []
stringify_all ((k, v) ∷ pv) = (k, stringify v) ∷ stringify_all pv

abbrev metadata_of : Option (List (Text × JsonValue)) → StringMap
metadata_of none = []
metadata_of (some pv) = stringify_all pv

-- `eventFrom`; the argument is json.Unmarshal into a map.
unfoldable pub policy_event_from :
    (Text → Option (List (Text × JsonValue))) → AuditEvent → PolicyEvent
unfolding stringify_all
policy_event_from unmarshal a = record {
  event_id = a.event_id;
  operation_id = a.operation_id;
  operation = operation_text a.operation;
  actor = a.actor;
  cfg_id = a.chain_id;
  seq = a.seq;
  occurred_at = a.occurred_at;
  metadata =
      if is_empty a.payload_canonical then [] else metadata_of (unmarshal a.payload_canonical);
}

pub record Condition : Type 0 where
  pub operations : List Text
  pub resources : List Text
  pub actors : List Text
  pub metadata : StringMap

-- The loop over the metadata of a condition.
unfoldable pub metadata_matches : StringMap → StringMap → Bool
metadata_matches [] m = true
metadata_matches ((k, v) ∷ wanted) m =
    if not (text_eq (get_or_empty k m) v) then false else metadata_matches wanted m

-- `Condition.Matches`
unfoldable pub condition_matches : Condition → PolicyEvent → Bool
unfolding metadata_matches
condition_matches c ev =
    if not (is_empty c.operations) && not (mem ev.operation c.operations)
    then false
    else (if not (is_empty c.resources) && not (mem ev.cfg_id c.resources)
        then false
        else (if not (is_empty c.actors) && not (mem ev.actor c.actors)
            then false
            else metadata_matches c.metadata ev.metadata))

pub record ActionSpec : Type 0 where
  pub action_type : Text
  pub config : Text

pub record Policy : Type 0 where
  pub id : Text
  pub name : Text
  pub enabled : Bool
  pub condition : Condition
  pub action : ActionSpec
  pub max_retries : ℕ
  pub created_at : ℕ
  pub updated_at : ℕ

pub data ExecutionStatus : Type 0 where
  exec_pending exec_running exec_succeeded exec_failed exec_dead_letter : ExecutionStatus
  other_exec : Text → ExecutionStatus

unfoldable pub exec_status_text : ExecutionStatus → Text
exec_status_text exec_pending = codes "pending"
exec_status_text exec_running = codes "running"
exec_status_text exec_succeeded = codes "succeeded"
exec_status_text exec_failed = codes "failed"
exec_status_text exec_dead_letter = codes "dead_letter"
exec_status_text (other_exec t) = t

pub record Execution : Type 0 where
  pub id : Text
  pub policy_id : Text
  pub event : PolicyEvent
  pub status : ExecutionStatus
  pub retry_count : ℕ
  pub error : Text
  pub started_at : ℕ
  pub ended_at : ℕ
  pub next_attempt_at : ℕ
  pub created_at : ℕ
