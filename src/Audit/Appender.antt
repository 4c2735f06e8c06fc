-- ===== src/Audit/Appender.antt =====
-- internal/store/postgres/audit_appender.go over its port `chainStore`. A transaction is a state that
-- the calls pass on: an error drops it, which is the rollback.
pub mod Sealed
pub mod Consistency
pub mod History
use oneops.Base.{ℕ, ◌-◌, ◌%◌, ◌≡◌, Bool, Option, none, some, List, [], ◌∷◌, Text}
use oneops.Domain.Errors.{Result, ok, err, message, ◌>>=◌, ◌>>◌}
use oneops.Domain.Enums.{operation_text}
use oneops.Domain.AuditTypes.{AuditEvent}
use oneops.Audit.Hash.{EventHashInput, genesis_prev_hash, chain_hash, int64_next}
use oneops.Audit.Verifier.{unix_nano}
use oneops.Audit.Resolve.{AppendInput}
use oneops.Audit.Tables.{
  AuditTables, append_audit_event, ensure_chain_head, read_chain_head, upsert_chain_head,
}

-- The port `chainStore` over the states S of a transaction.
pub record ChainStore (S : Type 0) : Type 0 where
  pub ensure_head : Text → Text → S → Result S
  pub read_head : Text → S → Result (Option (ℕ × Text))
  pub append_event : AuditEvent → S → Result S
  pub upsert_head : Text → ℕ → Text → S → Result S

-- `AuditStore` fills the port.
abbrev pub audit_store : (Text → Bool) → ChainStore AuditTables
audit_store jsonb_ok = record {
  ensure_head = ensure_chain_head;
  read_head = read_chain_head;
  append_event = append_audit_event jsonb_ok;
  upsert_head = upsert_chain_head;
}

-- `Truncate(time.Microsecond)`
abbrev pub truncate_micros : ℕ → ℕ
truncate_micros t = t - t % 1000

abbrev pub seal_input : AppendInput → ℕ → EventHashInput
seal_input e seq = record {
  chain_id = e.chain_id;
  seq = seq;
  event_id = e.event_id;
  operation = operation_text e.operation;
  actor = e.actor;
  occurred_at_unix_nanos = unix_nano (truncate_micros e.occurred_at);
  payload_canonical = e.payload_canonical;
}

abbrev pub sealed_event : AppendInput → ℕ → Text → Text → AuditEvent
sealed_event e seq prev_hash this_hash = record {
  chain_id = e.chain_id;
  seq = seq;
  event_id = e.event_id;
  operation_id = e.operation_id;
  operation = e.operation;
  actor = e.actor;
  payload_canonical = e.payload_canonical;
  prev_hash = prev_hash;
  this_hash = this_hash;
  occurred_at = truncate_micros e.occurred_at;
}

module _ (sha256 : Text → Text) {S : Type 0} (store : ChainStore S) where
  -- Steps 3 to 6 of `AppendTx`, after the head was read.
  unfoldable pub append_after : AppendInput → Option (ℕ × Text) → S → Result (AuditEvent × S)
  append_after e none s = err (message "append: chain head missing after ensure")
  append_after e (some (last_seq, last_hash)) s = do
    let seq = int64_next last_seq
    this_hash ← chain_hash sha256 (seal_input e seq) last_hash
    let event = sealed_event e seq last_hash this_hash
    appended ← store.append_event event s
    advanced ← store.upsert_head e.chain_id seq this_hash appended
    ok (event, advanced)

  -- `AppendTx`
  unfoldable pub append_tx : AppendInput → S → Result (AuditEvent × S)
  unfolding append_after
  append_tx e s = do
    ensured ← store.ensure_head e.chain_id genesis_prev_hash s
    head ← store.read_head e.chain_id ensured
    append_after e head ensured

  abbrev settle : S → Result (AuditEvent × S) → Result AuditEvent × S
  settle s (ok (event, s')) = (ok event, s')
  settle s (err x) = (err x, s)

  -- `Append`: begin, `AppendTx`, commit. The database decides whether the ends of the transaction
  -- succeed; an error leaves the state as it was.
  unfoldable pub append :
      Result (Unit {0}) → Result (Unit {0}) → AppendInput → S → Result AuditEvent × S
  append begun committed e s = settle s (do begun; done ← append_tx e s; committed; ok done)

  -- A run of `Append` calls: each with what the database decides at its two ends.
  pub append_all : List (Result (Unit {0}) × Result (Unit {0}) × AppendInput) → S → S
  append_all [] s = s
  append_all ((begun, committed, e) ∷ calls) s = append_all calls (append begun committed e s).1
