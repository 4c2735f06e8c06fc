-- ===== src/Events/Tables.antt =====
-- internal/store/postgres/webhook_store.go and webhook_consume_store.go over the tables of
-- 20260724000001_webhooks.sql and 20260725000001_webhook_replay.sql. A table is the list of its rows in
-- the order of insertion, which is that of `created_at`. `at` is the database's now(). A timestamptz
-- holds microseconds. An int column holds what the program puts there, so retry counts do not wrap.
use oneops.Base.{
  ℕ, Bool, not, ◌&&◌, ◌||◌, Option, none, some, List, [], ◌∷◌, ◌++◌, Text, codes, text_eq, ◌==◌,
  leb, ltb, if◌then◌else◌, length, filter, any, find, take, map, is_empty, mem,
}
use mathlib.Core.List.{reverse}
use oneops.Base.Sorting.{sort_by}
use oneops.Domain.Errors.{Result, ok, err, conflict, not_found, external}
use oneops.Audit.Appender.{truncate_micros}
use oneops.Audit.Tables.{int64_le}
use oneops.Events.Types.{
  Webhook, Delivery, DeliveryStatus, pending, status_text, ReplayJob, job_status_text,
}

-- A row of webhook_cursor without `updated_at`.
pub record Cursor : Type 0 where
  pub chain_id : Text
  pub last_seq : ℕ

pub record EventTables : Type 0 where
  pub hooks : List Webhook
  pub deliveries : List Delivery
  pub cursors : List Cursor
  pub jobs : List ReplayJob

abbrev pub is_hook : Text → Webhook → Bool
is_hook id w = text_eq w.id id

-- `Create`
unfoldable pub create_webhook : ℕ → Webhook → EventTables → Result EventTables
create_webhook at w t =
    if any (is_hook w.id) t.hooks
    then err conflict
    else ok (record t { hooks = t.hooks ++ record w { created_at = at; updated_at = at } ∷ [] })

-- `Get`
unfoldable pub get_webhook : Text → EventTables → Result Webhook
get_webhook id t = elim (find (is_hook id) t.hooks) [ none ↦ err not_found | some w ↦ ok w ]

-- `List`
unfoldable pub list_webhooks : EventTables → List Webhook
list_webhooks t = t.hooks

-- `ListEnabled`
unfoldable pub list_enabled : EventTables → List Webhook
list_enabled t = filter (λ w. w.enabled) t.hooks

-- `Update`
unfoldable pub update_webhook : ℕ → Webhook → EventTables → Result EventTables
update_webhook at w t =
    if any (is_hook w.id) t.hooks
    then ok (record t {
      hooks =
          map
            (λ r.
              if is_hook w.id r then record w { created_at = r.created_at; updated_at = at } else r)
            t.hooks;
    })
    else err not_found

-- `Delete`
unfoldable pub delete_webhook : Text → EventTables → Result EventTables
delete_webhook id t =
    if any (is_hook id) t.hooks
    then ok (record t { hooks = filter (λ r. not (is_hook id r)) t.hooks })
    else err not_found

abbrev pub is_delivery : Text → Delivery → Bool
is_delivery id d = text_eq d.id id

-- What `Enqueue` inserts for a delivery.
abbrev pub enqueued_row : ℕ → Delivery → Delivery
enqueued_row at d = record d {
  retry_count = 0;
  last_status_code = 0;
  last_attempt = 0;
  next_attempt_at = truncate_micros d.next_attempt_at;
  created_at = at;
}

-- One INSERT of the batch, ON CONFLICT (id) DO NOTHING.
unfoldable pub insert_delivery : ℕ → Delivery → List Delivery → List Delivery
insert_delivery at d rows =
    if any (is_delivery d.id) rows then rows else rows ++ enqueued_row at d ∷ []

-- `Enqueue`: the batch is one transaction.
unfoldable pub enqueue_rows : ℕ → List Delivery → List Delivery → List Delivery
unfolding insert_delivery
enqueue_rows at [] rows = rows
enqueue_rows at (d ∷ ds) rows = enqueue_rows at ds (insert_delivery at d rows)

unfoldable pub enqueue : ℕ → List Delivery → EventTables → EventTables
unfolding enqueue_rows
enqueue at ds t = record t { deliveries = enqueue_rows at ds t.deliveries }

abbrev pub is_due : ℕ → Delivery → Bool
is_due now d =
    (text_eq (status_text d.status) (codes "pending")
      || text_eq (status_text d.status) (codes "failed"))
    && leb d.next_attempt_at now

abbrev pub due_order : Delivery → Delivery → Bool
due_order a b = leb a.next_attempt_at b.next_attempt_at

-- `ClaimDue`
unfoldable pub claim_due : ℕ → ℕ → EventTables → List Delivery
claim_due now limit t =
    take limit (sort_by due_order (filter (is_due (truncate_micros now)) t.deliveries))

-- What `MarkResult` makes of a row; a zero time is NULL, and a NULL next attempt keeps the old one.
abbrev pub marked : DeliveryStatus → ℕ → ℕ → ℕ → ℕ → Delivery → Delivery
marked status retry code last next d = record d {
  status = status;
  retry_count = retry;
  last_status_code = code;
  last_attempt = truncate_micros last;
  next_attempt_at = if next == 0 then d.next_attempt_at else truncate_micros next;
}

-- `MarkResult`
unfoldable pub mark_result : Text → DeliveryStatus → ℕ → ℕ → ℕ → ℕ → EventTables → EventTables
mark_result id status retry code last next t = record t {
  deliveries =
      map (λ d. if is_delivery id d then marked status retry code last next d else d) t.deliveries;
}

abbrev newest_first : Delivery → Delivery → Bool
newest_first a b = int64_le b.event.seq a.event.seq

-- `ListByWebhook`
unfoldable pub list_by_webhook : Text → ℕ → EventTables → List Delivery
list_by_webhook webhook_id limit t =
    take limit (sort_by newest_first (filter (λ d. text_eq d.webhook_id webhook_id) t.deliveries))

abbrev pub is_cursor : Text → Cursor → Bool
is_cursor chain_id r = text_eq r.chain_id chain_id

-- `GetCursor`
unfoldable pub get_cursor : Text → EventTables → ℕ
get_cursor chain_id t = elim (find (is_cursor chain_id) t.cursors) [
  | none ↦ 0
  | some r ↦ r.last_seq
]

unfoldable pub write_cursor : Cursor → List Cursor → List Cursor
write_cursor c [] = c ∷ []
write_cursor c (r ∷ rs) = if is_cursor c.chain_id r then c ∷ rs else r ∷ write_cursor c rs

-- `SetCursor`: ON CONFLICT DO UPDATE
unfoldable pub set_cursor : Text → ℕ → EventTables → EventTables
unfolding write_cursor
set_cursor chain_id seq t = record t {
  cursors = write_cursor (record { chain_id = chain_id; last_seq = seq }) t.cursors;
}

-- `GetDelivery`
unfoldable pub get_delivery : Text → EventTables → Option Delivery
get_delivery id t = find (is_delivery id) t.deliveries

abbrev requeued : ℕ → Delivery → Delivery
requeued at d = record d { status = pending; retry_count = 0; next_attempt_at = at }

abbrev pub requeue_where : (Delivery → Bool) → ℕ → EventTables → ℕ × EventTables
requeue_where p at t = (
  length (filter p t.deliveries),
  record t { deliveries = map (λ d. if p d then requeued at d else d) t.deliveries },
)

-- `Requeue`
unfoldable pub requeue : ℕ → List Text → EventTables → ℕ × EventTables
requeue at ids t = if is_empty ids then (0, t) else requeue_where (λ d. mem d.id ids) at t

abbrev pub is_dead_letter : Text → Delivery → Bool
is_dead_letter webhook_id d =
    text_eq (status_text d.status) (codes "dead_letter")
    && (is_empty webhook_id || text_eq d.webhook_id webhook_id)

-- `RequeueDeadLetters`
unfoldable pub requeue_dead_letters : ℕ → Text → EventTables → ℕ × EventTables
requeue_dead_letters at webhook_id t = requeue_where (is_dead_letter webhook_id) at t

-- `ListDeadLetters`
unfoldable pub list_dead_letters : Text → ℕ → EventTables → List Delivery
list_dead_letters webhook_id limit t =
    take limit (sort_by newest_first (filter (is_dead_letter webhook_id) t.deliveries))

abbrev pub is_older : ℕ → List DeliveryStatus → Delivery → Bool
is_older cutoff statuses d =
    ltb d.created_at (truncate_micros cutoff)
    && mem (status_text d.status) (map status_text statuses)

-- `DeleteOlderThan`
unfoldable pub delete_older_than : ℕ → List DeliveryStatus → EventTables → ℕ × EventTables
delete_older_than cutoff statuses t = if is_empty statuses then (0, t) else (
  length (filter (is_older cutoff statuses) t.deliveries),
  record t { deliveries = filter (λ d. not (is_older cutoff statuses d)) t.deliveries },
)

-- `CountByStatus`
unfoldable pub count_by_status : DeliveryStatus → EventTables → ℕ
count_by_status status t =
    length (filter (λ d. text_eq (status_text d.status) (status_text status)) t.deliveries)

abbrev is_job : Text → ReplayJob → Bool
is_job id j = text_eq j.id id

-- `CreateJob`
unfoldable pub create_job : ℕ → ReplayJob → EventTables → Result EventTables
create_job at j t =
    if any (is_job j.id) t.jobs
    then err (external (codes "create replay job"))
    else ok (record t {
      jobs =
          t.jobs
          ++ record j {
            from_time = truncate_micros j.from_time;
            to_time = truncate_micros j.to_time;
            events_replayed = 0;
            error = [];
            created_at = at;
            updated_at = at;
          }
            ∷ [];
    })

-- `GetJob`
unfoldable pub get_job : Text → EventTables → Option ReplayJob
get_job id t = find (is_job id) t.jobs

-- `ListJobs`: newest first
unfoldable pub list_jobs : ℕ → EventTables → List ReplayJob
list_jobs limit t = take limit (reverse t.jobs)

-- `ClaimPendingJobs`
unfoldable pub claim_pending_jobs : ℕ → EventTables → List ReplayJob
claim_pending_jobs limit t =
    take limit (filter (λ j. text_eq (job_status_text j.status) (codes "pending")) t.jobs)

-- `UpdateJob`
unfoldable pub update_job : ℕ → ReplayJob → EventTables → EventTables
update_job at j t = record t {
  jobs =
      map
        (λ r.
          if is_job j.id r
          then record r {
            status = j.status;
            events_replayed = j.events_replayed;
            error = j.error;
            updated_at = at;
          }
          else r)
        t.jobs;
}
