-- ===== src/Events/Types.antt =====
-- internal/events/events.go and the job type of consume_ports.go. RetryCount and MaxRetries are int64
-- patterns; HTTP status codes and counts are natural numbers; a zero time.Time is 0.
use oneops.Base.{ℕ, Bool, true, false, not, ◌&&◌, List, Text, codes, mem, is_empty, if◌then◌else◌}
use oneops.Domain.Enums.{operation_text}
use oneops.Domain.AuditTypes.{AuditEvent}

pub data DeliveryStatus : Type 0 where
  pending delivered failed dead_letter : DeliveryStatus
  other : Text → DeliveryStatus

unfoldable pub status_text : DeliveryStatus → Text
status_text pending = codes "pending"
status_text delivered = codes "delivered"
status_text failed = codes "failed"
status_text dead_letter = codes "dead_letter"
status_text (other t) = t

pub record Webhook : Type 0 where
  pub id : Text
  pub url : Text
  pub secret : Text
  pub enabled : Bool
  pub operations : List Text
  pub resources : List Text
  pub max_retries : ℕ
  pub created_at : ℕ
  pub updated_at : ℕ

pub record Event : Type 0 where
  pub chain_id : Text
  pub seq : ℕ
  pub event_id : Text
  pub operation_id : Text
  pub operation : Text
  pub actor : Text
  pub cfg_id : Text
  pub occurred_at : ℕ

-- `contains`
abbrev pub contains : List Text → Text → Bool
contains xs x = mem x xs

-- `Webhook.Matches`
unfoldable pub matches : Webhook → Event → Bool
matches w ev =
    if not w.enabled
    then false
    else (if not (is_empty w.operations) && not (contains w.operations ev.operation)
        then false
        else (if not (is_empty w.resources) && not (contains w.resources ev.cfg_id)
            then false
            else true))

-- `eventFrom`
abbrev pub event_from : AuditEvent → Event
event_from a = record {
  chain_id = a.chain_id;
  seq = a.seq;
  event_id = a.event_id;
  operation_id = a.operation_id;
  operation = operation_text a.operation;
  actor = a.actor;
  cfg_id = a.chain_id;
  occurred_at = a.occurred_at;
}

pub record Delivery : Type 0 where
  pub id : Text
  pub webhook_id : Text
  pub event : Event
  pub status : DeliveryStatus
  pub retry_count : ℕ
  pub last_status_code : ℕ
  pub last_attempt : ℕ
  pub next_attempt_at : ℕ
  pub created_at : ℕ

pub data ReplayJobStatus : Type 0 where
  job_pending job_running job_completed job_failed : ReplayJobStatus
  other_job : Text → ReplayJobStatus

unfoldable pub job_status_text : ReplayJobStatus → Text
job_status_text job_pending = codes "pending"
job_status_text job_running = codes "running"
job_status_text job_completed = codes "completed"
job_status_text job_failed = codes "failed"
job_status_text (other_job t) = t

pub record ReplayJob : Type 0 where
  pub id : Text
  pub webhook_id : Text
  pub from_time : ℕ
  pub to_time : ℕ
  pub delivery_ids : List Text
  pub status : ReplayJobStatus
  pub events_replayed : ℕ
  pub error : Text
  pub created_at : ℕ
  pub updated_at : ℕ
