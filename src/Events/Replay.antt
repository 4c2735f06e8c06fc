-- ===== src/Events/Replay.antt =====
-- internal/events/replay.go. The ticker of Run is left out. The loop over the pages of a chain runs on
-- fuel and answers `none` without it.
pub mod Pages
pub mod Sends
pub mod Loop
pub mod Window
use oneops.Base.{
  ℕ, zero, suc, ◌+◌, Bool, true, false, not, ◌&&◌, ◌||◌, Option, none, some, List, [], ◌∷◌, ◌++◌,
  Text, ltb, ◌==◌, if◌then◌else◌, is_empty, length,
}
use oneops.Domain.Errors.{Error, cancelled, Result, ok, err}
use oneops.Domain.AuditTypes.{AuditEvent}
use oneops.Audit.Tables.{list_chain_ids, list_events}
use oneops.Events.Types.{
  Webhook, Event, Delivery, ReplayJob, job_running, job_completed, job_failed, matches, event_from,
}
use oneops.Events.Tables.{get_webhook, enqueue, requeue, claim_pending_jobs, update_job}
use oneops.Events.World.{Env, World, ticked, now, query, exec, effect, or_return, delivery_id}
use oneops.Events.Relay.{new_delivery}

-- `inWindow`
unfoldable pub in_window : ℕ → ℕ → ℕ → Bool
in_window t from_time to_time =
    if not (from_time == 0) && ltb t from_time
    then false
    else (if not (to_time == 0) && ltb to_time t then false else true)

-- The events of the job for its webhook.
abbrev pub selects : ReplayJob → Webhook → AuditEvent → Bool
selects job wh a = in_window a.occurred_at job.from_time job.to_time && matches wh (event_from a)

-- Either the loop over the pages ends, with the total, an error and the world, or it goes on, with the
-- cursor and the total.
pub data PageEnd : Type 0 where
  stop : ℕ → Option Error → World → PageEnd
  more : ℕ → ℕ → World → PageEnd

-- What replayWindow returns: the total, the error and the world.
abbrev pub Replayed : Type 0
Replayed = ℕ × Option Error × World

-- The cursor after a page.
abbrev pub next_cursor : ℕ → List AuditEvent → ℕ
next_cursor cursor [] = cursor
next_cursor cursor (a ∷ evs) = next_cursor a.seq evs

module _ (env : Env) where
  -- The batch of a page, from interaction `n` on.
  unfoldable pub replay_batch : ℕ → ReplayJob → Webhook → List AuditEvent → ℕ → List Delivery × ℕ
  replay_batch at job wh [] n = ([], n)
  replay_batch at job wh (a ∷ evs) n =
      let hit = selects job wh a in
      let (ds, k) = replay_batch at job wh evs (if hit then n + 1 else n) in
      ((if hit then new_delivery (delivery_id env n) wh (event_from a) at ∷ ds else ds), k)

module _ (env : Env) (limit : ℕ) where
  abbrev pub after_enqueue : ℕ → ℕ → ℕ → ℕ → Result (Unit {0}) × World → PageEnd
  after_enqueue size cursor total count (err x, s) = stop total (some x) s
  after_enqueue size cursor total count (ok u, s) =
      if ltb size limit then stop (total + count) none s else more cursor (total + count) s

  unfoldable pub replay_page_events :
      ℕ → ReplayJob → Webhook → ℕ → ℕ → Result (List AuditEvent) × World → PageEnd
  unfolding replay_batch
  replay_page_events at job wh cursor total (err x, s) = stop total (some x) s
  replay_page_events at job wh cursor total (ok [], s) = stop total none s
  replay_page_events at job wh cursor total (ok (a ∷ evs), s) =
      let (batch, n) = replay_batch env at job wh (a ∷ evs) s.tick in
      let drawn = record s { tick = n } in
      after_enqueue (length (a ∷ evs)) (next_cursor cursor (a ∷ evs)) total (length batch)
        (if is_empty batch then (ok tt, drawn) else exec env (effect (λ t. enqueue t batch)) drawn)

  -- One turn of the loop over the pages.
  unfoldable pub replay_page : ℕ → ReplayJob → Webhook → Text → ℕ → ℕ → World → PageEnd
  unfolding replay_page_events
  replay_page at job wh chain_id cursor total s =
      replay_page_events at job wh cursor total
        (query env (λ w. ok (list_events chain_id cursor false limit [] w.audit)) s)

  abbrev pub next_page : PageEnd → (ℕ → ℕ → World → Option Replayed) → Option Replayed
  next_page (stop t x w) next = some (t, x, w)
  next_page (more c t w) next = next c t w

  -- The loop over the pages.
  unfoldable pub replay_pages : ℕ → ℕ → ReplayJob → Webhook → Text → ℕ → ℕ → World → Option Replayed
  unfolding replay_page
  replay_pages zero at job wh chain_id cursor total s = none
  replay_pages (suc fuel) at job wh chain_id cursor total s =
      next_page (replay_page at job wh chain_id cursor total s)
        (λ c t w. replay_pages fuel at job wh chain_id c t w)

  -- The next chain, unless an error ended the last one.
  abbrev pub go_on : Option Replayed → (ℕ → World → Option Replayed) → Option Replayed
  go_on none next = none
  go_on (some (t, some x, w)) next = some (t, some x, w)
  go_on (some (t, none, w)) next = next t w

  -- The loop over the chains.
  unfoldable pub replay_chains :
      ℕ → ℕ → ReplayJob → Webhook → List Text → ℕ → World → Option Replayed
  unfolding replay_pages
  replay_chains fuel at job wh [] total s = some (total, none, s)
  replay_chains fuel at job wh (c ∷ chains) total s =
      if env.cancelled s.tick
      then some (total, some cancelled, ticked s)
      else go_on (replay_pages fuel at job wh c 0 total (ticked s))
          (λ t w. replay_chains fuel at job wh chains t w)

  unfoldable pub replay_over :
      ℕ → ReplayJob → Webhook → Result (List Text) × World → Option Replayed
  unfolding replay_chains
  replay_over fuel job wh (err x, s) = some (0, some x, s)
  replay_over fuel job wh (ok chains, s) =
      let (at, s₁) = now env s in replay_chains fuel at job wh chains 0 s₁

  unfoldable pub replay_hook : ℕ → ReplayJob → Result Webhook × World → Option Replayed
  unfolding replay_over
  replay_hook fuel job (err x, s) = some (0, some x, s)
  replay_hook fuel job (ok wh, s) =
      replay_over fuel job wh (query env (λ w. ok (list_chain_ids w.audit)) s)

  -- `replayWindow`
  unfoldable pub replay_window : ℕ → ReplayJob → World → Option Replayed
  unfolding replay_hook
  replay_window fuel job s =
      replay_hook fuel job (query env (λ w. get_webhook job.webhook_id w.store) s)

  abbrev requeue_outcome : Result ℕ × World → Option Replayed
  requeue_outcome (ok n, s) = some (n, none, s)
  requeue_outcome (err x, s) = some (0, some x, s)

  -- `run`
  unfoldable pub replay_run : ℕ → ReplayJob → World → Option Replayed
  unfolding replay_window
  replay_run fuel job s =
      if is_empty job.delivery_ids
      then replay_window fuel job s
      else requeue_outcome (exec env (λ t. requeue t job.delivery_ids) s)

  -- The end of `execute`; `text` is err.Error().
  abbrev pub finished : (Error → Text) → ReplayJob → Option Replayed → Option World
  finished text job none = none
  finished text job (some (n, none, s)) =
      let (at, s₁) = now env s in
      let done = record job { status = job_completed; events_replayed = n; updated_at = at } in
      some (exec env (effect (λ t. update_job t done)) s₁).1
  finished text job (some (n, some x, s)) =
      let (at, s₁) = now env s in
      let done = record job {
        status = job_failed;
        events_replayed = n;
        updated_at = at;
        error = text x;
      } in
      some (exec env (effect (λ t. update_job t done)) s₁).1

  abbrev when_marked : (Error → Text) → ℕ → ReplayJob → Result (Unit {0}) × World → Option World
  when_marked text fuel job (err x, s) = some s
  when_marked text fuel job (ok u, s) = finished text job (replay_run fuel job s)

  -- `execute`
  unfoldable pub execute_job : (Error → Text) → ℕ → ReplayJob → World → Option World
  unfolding replay_run
  execute_job text fuel job s =
      let (start, s₁) = now env s in
      let running = record job { status = job_running; updated_at = start } in
      when_marked text fuel running (exec env (effect (λ t. update_job t running)) s₁)

  unfoldable pub execute_jobs : (Error → Text) → ℕ → List ReplayJob → World → Option World
  unfolding execute_job
  execute_jobs text fuel [] s = some s
  execute_jobs text fuel (job ∷ pending) s =
      if env.cancelled s.tick
      then some (ticked s)
      else elim (execute_job text fuel job (ticked s)) [
        | none ↦ none
        | some w ↦ execute_jobs text fuel pending w
      ]

  abbrev claimed : (Error → Text) → ℕ → Result (List ReplayJob) × World → Option World
  claimed text fuel (err x, s) = some s
  claimed text fuel (ok pending, s) = execute_jobs text fuel pending s

  -- `RunOnce` of the replay worker
  unfoldable pub replay_run_once : (Error → Text) → ℕ → World → Option World
  unfolding execute_jobs
  replay_run_once text fuel s =
      claimed text fuel (query env (λ w. ok (claim_pending_jobs 16 w.store)) s)
