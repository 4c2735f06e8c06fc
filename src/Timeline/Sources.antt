-- ===== src/Timeline/Sources.antt =====
-- The port Source of internal/timeline/timeline.go, and internal/store/postgres/timeline_store.go over
-- the tables of audit events and webhooks. The rows of policy_execution are those that it reads, in the
-- order of their insertion; a NULL time is 0.
use oneops.Base.{
  ℕ, Bool, Option, none, some, List, Text, text_eq, text_le, mem, map, filter, find, take,
  if◌then◌else◌,
}
use oneops.Base.Sorting.{sort_by}
use oneops.Domain.Enums.{operation_text}
use oneops.Domain.Errors.{Result, ok}
use oneops.Domain.AuditTypes.{AuditEvent}
use oneops.Audit.Tables.{AuditTables, int64_le, seq_le, in_chain}
use oneops.Events.Types.{Delivery, ReplayJob, status_text, job_status_text}
use oneops.Events.Tables.{EventTables}
use oneops.Timeline.Entries.{AuditRow, DeliveryRow, ReplayRow, PolicyRow}

-- The port `Source`; an absent row is `none`.
pub record Source : Type 0 where
  pub audit_by_event_id : Text → Result (List AuditRow)
  pub audit_by_chain : Text → ℕ → Result (List AuditRow)
  pub deliveries_by_event_ids : List Text → Result (List DeliveryRow)
  pub policy_executions_by_event_ids : List Text → Result (List PolicyRow)
  pub replay_job : Text → Result (Option ReplayRow)
  pub policy_execution : Text → Result (Option PolicyRow)

abbrev pub audit_row : AuditEvent → AuditRow
audit_row e = record {
  chain_id = e.chain_id;
  seq = e.seq;
  event_id = e.event_id;
  operation_id = e.operation_id;
  operation = operation_text e.operation;
  actor = e.actor;
  occurred_at = e.occurred_at;
}

-- ORDER BY chain_id, seq
abbrev by_chain_and_seq : AuditEvent → AuditEvent → Bool
by_chain_and_seq a b =
    if text_eq a.chain_id b.chain_id then int64_le a.seq b.seq else text_le a.chain_id b.chain_id

-- `AuditByEventID`
unfoldable pub audit_by_event_id : AuditTables → Text → List AuditRow
audit_by_event_id t event_id =
    map audit_row (sort_by by_chain_and_seq (filter (λ e. text_eq e.event_id event_id) t.events))

-- `AuditByChain`
unfoldable pub audit_by_chain : AuditTables → Text → ℕ → List AuditRow
audit_by_chain t chain_id limit =
    map audit_row (take limit (sort_by seq_le (filter (in_chain chain_id) t.events)))

abbrev pub delivery_row : Delivery → DeliveryRow
delivery_row d = record {
  id = d.id;
  webhook_id = d.webhook_id;
  event_id = d.event.event_id;
  status = status_text d.status;
  status_code = d.last_status_code;
  last_attempt = d.last_attempt;
  created_at = d.created_at;
}

-- `DeliveriesByEventIDs`
unfoldable pub deliveries_by_event_ids : EventTables → List Text → List DeliveryRow
deliveries_by_event_ids t ids =
    map delivery_row (filter (λ d. mem d.event.event_id ids) t.deliveries)

-- `PolicyExecutionsByEventIDs`
unfoldable pub policy_executions_by_event_ids : List PolicyRow → List Text → List PolicyRow
policy_executions_by_event_ids rows ids = filter (λ p. mem p.event_id ids) rows

abbrev pub replay_row : ReplayJob → ReplayRow
replay_row j = record {
  id = j.id;
  webhook_id = j.webhook_id;
  status = job_status_text j.status;
  events_replayed = j.events_replayed;
  created_at = j.created_at;
  updated_at = j.updated_at;
}

abbrev found_replay : Option ReplayJob → Option ReplayRow
found_replay none = none
found_replay (some j) = some (replay_row j)

-- `TimelineStore` fills the port.
unfoldable pub timeline_store : AuditTables → EventTables → List PolicyRow → Source
unfolding audit_by_event_id audit_by_chain deliveries_by_event_ids policy_executions_by_event_ids
timeline_store audit events executions = record {
  audit_by_event_id = λ id. ok (audit_by_event_id audit id);
  audit_by_chain = λ id limit. ok (audit_by_chain audit id limit);
  deliveries_by_event_ids = λ ids. ok (deliveries_by_event_ids events ids);
  policy_executions_by_event_ids = λ ids. ok (policy_executions_by_event_ids executions ids);
  replay_job = λ id. ok (found_replay (find (λ j. text_eq j.id id) events.jobs));
  policy_execution = λ id. ok (find (λ p. text_eq p.id id) executions);
}
