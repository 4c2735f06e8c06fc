-- ===== src/Timeline/Entries.antt =====
-- The rows and entries of internal/timeline/timeline.go, and entries.go. Times are nanoseconds since Go's
-- zero time; a map of strings is the list of its pairs, read by its first pair of a key. strconv is an
-- argument.
use oneops.Base.{
  StringMap, ℕ, ◌-◌, ◌/◌, ◌^◌, ◌||◌, List, [], ◌∷◌, ◌++◌, Text, codes, text_eq, ltb, leb, ◌==◌,
  if◌then◌else◌,
}

pub record AuditRow : Type 0 where
  pub chain_id : Text
  pub seq : ℕ
  pub event_id : Text
  pub operation_id : Text
  pub operation : Text
  pub actor : Text
  pub occurred_at : ℕ

pub record DeliveryRow : Type 0 where
  pub id : Text
  pub webhook_id : Text
  pub event_id : Text
  pub status : Text
  pub status_code : ℕ
  pub last_attempt : ℕ
  pub created_at : ℕ

pub record ReplayRow : Type 0 where
  pub id : Text
  pub webhook_id : Text
  pub status : Text
  pub events_replayed : ℕ
  pub created_at : ℕ
  pub updated_at : ℕ

pub record PolicyRow : Type 0 where
  pub id : Text
  pub policy_id : Text
  pub event_id : Text
  pub status : Text
  pub retry_count : ℕ
  pub started_at : ℕ
  pub ended_at : ℕ
  pub created_at : ℕ

pub record Entry : Type 0 where
  pub timestamp : ℕ
  pub component : Text
  pub action : Text
  pub status : Text
  pub duration_ms : ℕ
  pub correlation : StringMap
  pub metadata : StringMap

-- `durationMS`: `Sub` stops at the greatest duration.
unfoldable pub duration_ms_of : ℕ → ℕ → ℕ
duration_ms_of start end =
    if (start == 0) || (end == 0) || ltb end start
    then 0
    else (let d = end - start in (if leb d (2 ^ 63 - 1) then d else 2 ^ 63 - 1) / 1000000)

module _ (itoa : ℕ → Text) where
  -- `auditEntries`
  unfoldable pub audit_entries : AuditRow → List Entry
  audit_entries a =
      let corr =
        (codes "event_id", a.event_id)
        ∷ (codes "governance_id", a.chain_id)
        ∷ (codes "operation_id", a.operation_id)
        ∷ (codes "cfg_id", a.chain_id)
        ∷ [] in
      let meta =
        (codes "operation", a.operation)
        ∷ (codes "actor", a.actor)
        ∷ (codes "seq", itoa a.seq)
        ∷ [] in
      record {
        timestamp = a.occurred_at;
        component = codes "governance";
        action = codes "operation_committed";
        status = codes "committed";
        duration_ms = 0;
        correlation = corr;
        metadata = meta;
      }
      ∷ record {
        timestamp = a.occurred_at;
        component = codes "audit";
        action = codes "event_appended";
        status = codes "sealed";
        duration_ms = 0;
        correlation = corr;
        metadata = meta;
      }
      ∷ []

  -- `deliveryEntry`
  unfoldable pub delivery_entry : DeliveryRow → Entry
  unfolding duration_ms_of
  delivery_entry d = record {
    timestamp = if d.last_attempt == 0 then d.created_at else d.last_attempt;
    component = codes "webhook";
    action = codes "delivery_" ++ d.status;
    status = d.status;
    duration_ms = duration_ms_of d.created_at d.last_attempt;
    correlation =
        (codes "delivery_id", d.id)
        ∷ (codes "event_id", d.event_id)
        ∷ (codes "webhook_id", d.webhook_id)
        ∷ [];
    metadata = if d.status_code == 0 then [] else (codes "status_code", itoa d.status_code) ∷ [];
  }

  -- `replayEntries`
  unfoldable pub replay_entries : ReplayRow → List Entry
  unfolding duration_ms_of
  replay_entries r =
      let corr = (codes "replay_job_id", r.id) ∷ (codes "webhook_id", r.webhook_id) ∷ [] in
      record {
        timestamp = r.created_at;
        component = codes "replay";
        action = codes "job_created";
        status = codes "pending";
        duration_ms = 0;
        correlation = corr;
        metadata = [];
      }
      ∷ (if text_eq r.status (codes "completed") || text_eq r.status (codes "failed")
          then record {
            timestamp = r.updated_at;
            component = codes "replay";
            action = codes "job_" ++ r.status;
            status = r.status;
            duration_ms = duration_ms_of r.created_at r.updated_at;
            correlation = corr;
            metadata = (codes "events_replayed", itoa r.events_replayed) ∷ [];
          }
            ∷ []
          else [])

  -- `policyEntry`
  unfoldable pub policy_entry : PolicyRow → Entry
  unfolding duration_ms_of
  policy_entry p = record {
    timestamp = if p.ended_at == 0 then p.created_at else p.ended_at;
    component = codes "policy";
    action = codes "policy_" ++ p.status;
    status = p.status;
    duration_ms = duration_ms_of p.started_at p.ended_at;
    correlation =
        (codes "policy_execution_id", p.id)
        ∷ (codes "policy_id", p.policy_id)
        ∷ (codes "event_id", p.event_id)
        ∷ [];
    metadata = (codes "retry_count", itoa p.retry_count) ∷ [];
  }
