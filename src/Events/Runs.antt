-- ===== src/Events/Runs.antt =====
-- Runs of the event system (internal/events): passes of the relay and of the dispatcher, and commits of
-- audit events, in any order. A pass is one step; the registry of webhooks stays as it is.
pub mod NoLoss
use oneops.Base.{
  ℕ, ◌+◌, ◌≡◌, ◌≢◌, refl, ap, sym, subst, ◌∙◌, inl, inr, Bool, true, false, List, [], ◌∷◌, ◌++◌,
  Text, text_eq, text_eq_iff, map, All, All-append, Some, Some-map, Bool-cases, arith,
  if◌then◌else◌,
}
use oneops.Domain.Errors.{Result, ok, err, Result-cases}
use oneops.Domain.AuditTypes.{AuditEvent}
use oneops.Audit.Hash.{int64_lt}
use oneops.Audit.Verifier.Chains.{last_seq}
use oneops.Audit.Resolve.{AppendInput}
use oneops.Audit.Tables.{AuditTables, int64_le}
use oneops.Audit.Appender.{audit_store, append_tx, append}
use oneops.Audit.Appender.Sealed.{rows, Appended, append_tx-Appended}
use oneops.Audit.Appender.History.{empty_tables}
use oneops.Audit.Appender.Consistency.{Consistent, Appended-Consistent, own_rows, other_rows}
use oneops.Events.Types.{ReplayJob, Webhook, Event, Delivery, DeliveryStatus, matches, event_from}
use oneops.Events.Tables.{get_cursor, is_delivery, marked, mark_result, EventTables}
use oneops.Events.World.{Env, World, ticked, moved, effect, exec-world, delivery_id}
use oneops.Events.Relay.{relay_run_once}
use oneops.Events.Relay.Pages.{Above, Above-append, last_seq-append, Chain-Above}
use oneops.Events.Relay.Fanout.{Carries, Notified, Used, Used-mono}
use oneops.Events.Relay.Invariant.{Safe, Safe-ticked, Safe-more, Covered}
use oneops.Events.Relay.NoLoss.{relay_run_once-Safe}
use oneops.Events.Dispatcher.{Wire, DispatcherConfig, mark, dispatch_run_once}
use oneops.Events.Dispatcher.Keeps.{dispatch_run_once-keeps}

-- A database with the webhooks and jobs given, and nothing else.
abbrev pub start : List Webhook → List ReplayJob → World
start hooks jobs = record {
  audit = empty_tables;
  store = record { hooks = hooks; deliveries = []; cursors = []; jobs = jobs };
  tick = 0;
}

module _ (sha256 : Text → Text) (jsonb_ok : Text → Bool) (env : Env) where
  pub data Step (s : World) : World → Type 0 where
    relays : (limit : ℕ) → Step s (relay_run_once env limit s)
    dispatches : (wire : Wire) (cfg : DispatcherConfig) → Step s (dispatch_run_once wire env cfg s)
    commits :
        (begun committed : Result (Unit {0})) (e : AppendInput)
        → Step s (record s {
          audit = (append sha256 (audit_store jsonb_ok) begun committed e s.audit).1;
        })

  pub data Run : World → World → Type 0 where
    here : {s : World} → Run s s
    there : {s u v : World} → Step s u → Run u v → Run s v
