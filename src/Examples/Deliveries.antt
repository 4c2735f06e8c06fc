-- ===== src/Examples/Deliveries.antt =====
-- One webhook and one committed event, and the theorems on the relay and the replay at them.
use oneops.Base.{
  ℕ, zero, suc, ◌*◌, ◌≡◌, refl, ap, true, false, none, some, [], ◌∷◌, codes, replicate, length,
  filter, All, Some, arith, text_eq,
}
use oneops.Domain.Errors.{ok}
use oneops.Audit.Hash.{hex}
use oneops.Audit.Tables.{int64_le, list_chain_ids}
use oneops.Audit.Appender.Sealed.{rows}
use oneops.Events.Types.{Webhook, ReplayJob, job_pending, event_from, matches}
use oneops.Events.Tables.{get_cursor, get_webhook}
use oneops.Events.World.{Env, World, works, delivery_id}
use oneops.Events.Relay.{relay_run_once}
use oneops.Events.Relay.Fanout.{Carries}
use oneops.Events.Runs.{start, commits, relays, Run, here, there}
use oneops.Events.Runs.NoLoss.{Run-notified}
use oneops.Events.Replay.{replay_window}
use oneops.Events.Replay.Sends.{Sends}
use oneops.Events.Replay.Window.{window_events, replay_window-exact}
use oneops.Audit.Appender.{append, audit_store}
use oneops.Examples.Fixtures.{sum32, any_jsonb, input_one}
use oneops.Examples.Audits.{one_event, one_event-Consistent}

-- The database works, the clock stands at the interaction, and ids are zeros.
abbrev pub calm : Env
calm = record {
  clock = λ n. n;
  random = λ n. replicate n 0;
  fate = λ n. works;
  cancelled = λ n. false;
}

length-hex-zeros : (n : ℕ) → length (hex (replicate n 0)) ≡ 2 * n
unfolding hex
length-hex-zeros zero = omega arith
length-hex-zeros (suc n) = omega (arith, length-hex-zeros n)

pub delivery_id_inj : (i j : ℕ) → delivery_id calm i ≡ delivery_id calm j → i ≡ j
delivery_id_inj i j e = omega (arith, ap length e, length-hex-zeros i, length-hex-zeros j)

abbrev pub hook_one : Webhook
hook_one = record {
  id = codes "wh_1";
  url = codes "http://a";
  secret = codes "s";
  enabled = true;
  operations = codes "ratification" ∷ [];
  resources = [];
  max_retries = 3;
  created_at = 0;
  updated_at = 0;
}

abbrev committed_world : World
committed_world =
    let s = start (hook_one ∷ []) [] in
    record s { audit = (append sum32 (audit_store any_jsonb) (ok tt) (ok tt) input_one s.audit).1 }

abbrev relayed_world : World
relayed_world = relay_run_once calm 10 committed_world

commit_and_relay : Run sum32 any_jsonb calm (start (hook_one ∷ []) []) relayed_world
commit_and_relay = there (commits (ok tt) (ok tt) input_one) (there (relays 10) here)

Run-notified_example :
    All
      (λ a.
        All
          (λ w. Some (Carries w (event_from a)) relayed_world.store.deliveries)
          (filter (λ w. matches w (event_from a)) (hook_one ∷ [])))
      (filter
        (λ a. int64_le a.seq (get_cursor (codes "cfg_1") relayed_world.store))
        (rows (codes "cfg_1") relayed_world.audit))
Run-notified_example =
    Run-notified sum32 any_jsonb calm (hook_one ∷ []) delivery_id_inj [] commit_and_relay
      (codes "cfg_1")

abbrev replay_world : World
replay_world = record {
  audit = one_event;
  store = record { hooks = hook_one ∷ []; deliveries = []; cursors = []; jobs = [] };
  tick = 0;
}

abbrev replay_all : ReplayJob
replay_all = record {
  id = codes "rpl_1";
  webhook_id = codes "wh_1";
  from_time = 0;
  to_time = 0;
  delivery_ids = [];
  status = job_pending;
  events_replayed = 0;
  error = [];
  created_at = 0;
  updated_at = 0;
}

found_hook : get_webhook (codes "wh_1") replay_world.store ≡ ok hook_one
unfolding get_webhook text_eq
found_hook = refl

replay_window-exact_example :
    let evs =
      window_events replay_all hook_one replay_world.audit (list_chain_ids replay_world.audit) in
    (u : World) × Sends calm hook_one evs replay_world u
    × (replay_window calm 1 2 replay_all replay_world ≡ some (length evs, none, u))
replay_window-exact_example =
    replay_window-exact sum32 calm delivery_id_inj (λ n. refl) (λ n. refl) 1 (omega arith)
      replay_all hook_one 2 replay_world one_event-Consistent tt found_hook (omega arith)
