-- ===== src/Events/Relay.antt =====
-- internal/events/relay.go. The ticker of Run is left out: a pass is RunOnce.
pub mod Pages
pub mod Fanout
pub mod Invariant
pub mod NoLoss
use oneops.Base.{ℕ, ◌+◌, Bool, true, false, List, [], ◌∷◌, ◌++◌, Text, if◌then◌else◌, is_empty}
use oneops.Domain.Errors.{Result, ok, err}
use oneops.Domain.AuditTypes.{AuditEvent}
use oneops.Audit.Hash.{int64_lt}
use oneops.Audit.Tables.{list_chain_ids, list_events}
use oneops.Events.Types.{Webhook, Event, Delivery, pending, matches, event_from}
use oneops.Events.Tables.{get_cursor, set_cursor, list_enabled, enqueue}
use oneops.Events.World.{Env, World, ticked, now, query, exec, effect, or_return, delivery_id}

-- A new pending delivery.
abbrev pub new_delivery : Text → Webhook → Event → ℕ → Delivery
new_delivery id wh ev at = record {
  id = id;
  webhook_id = wh.id;
  event = ev;
  status = pending;
  retry_count = 0;
  last_status_code = 0;
  last_attempt = 0;
  next_attempt_at = at;
  created_at = at;
}

-- `maxSeq`
unfoldable pub max_seq : ℕ → List AuditEvent → ℕ
max_seq m [] = m
max_seq m (a ∷ evs) = max_seq (if int64_lt m a.seq then a.seq else m) evs

module _ (env : Env) where
  -- The loop over the subscriptions, from interaction `n` on: the deliveries and the next interaction.
  unfoldable pub fan_out : ℕ → Event → List Webhook → ℕ → List Delivery × ℕ
  fan_out at ev [] n = ([], n)
  fan_out at ev (wh ∷ subs) n =
      let (ds, k) = fan_out at ev subs (if matches wh ev then n + 1 else n) in
      ((if matches wh ev then new_delivery (delivery_id env n) wh ev at ∷ ds else ds), k)

  -- The loop over the events.
  unfoldable pub gather : ℕ → List Webhook → List AuditEvent → ℕ → List Delivery × ℕ
  unfolding fan_out
  gather at subs [] n = ([], n)
  gather at subs (a ∷ evs) n =
      let (ds, k) = fan_out at (event_from a) subs n in
      let (rest, m) = gather at subs evs k in (ds ++ rest, m)

  -- The end of `tailChain`.
  unfoldable pub advance : Text → ℕ → ℕ → World → World
  advance chain_id cursor max s =
      if int64_lt cursor max then (exec env (effect (λ at. set_cursor chain_id max)) s).1 else s

  unfoldable pub publish : Text → ℕ → ℕ → List Delivery → World → World
  unfolding advance
  publish chain_id cursor max ds s =
      if is_empty ds
      then advance chain_id cursor max s
      else or_return (exec env (effect (λ at. enqueue at ds)) s) (λ u. advance chain_id cursor max)

  unfoldable pub relay_events : Text → ℕ → List Webhook → List AuditEvent → World → World
  unfolding publish gather max_seq
  relay_events chain_id cursor subs [] s = s
  relay_events chain_id cursor subs (a ∷ evs) s =
      let (at, s') = now env s in
      let (ds, n) = gather at subs (a ∷ evs) s'.tick in
      publish chain_id cursor (max_seq cursor (a ∷ evs)) ds (record s' { tick = n })

  -- `tailChain`
  unfoldable pub tail_chain : ℕ → Text → List Webhook → World → World
  unfolding relay_events
  tail_chain limit chain_id subs s =
      or_return (query env (λ w. ok (get_cursor chain_id w.store)) s) (λ cursor s₁.
        or_return (query env (λ w. ok (list_events chain_id cursor false limit [] w.audit)) s₁)
          (λ evs. relay_events chain_id cursor subs evs))

  unfoldable pub tail_chains : ℕ → List Text → List Webhook → World → World
  unfolding tail_chain
  tail_chains limit [] subs s = s
  tail_chains limit (c ∷ chains) subs s =
      if env.cancelled s.tick
      then ticked s
      else tail_chains limit chains subs (tail_chain limit c subs (ticked s))

  -- `RunOnce`; `limit` is BatchLimit.
  unfoldable pub relay_run_once : ℕ → World → World
  unfolding tail_chains
  relay_run_once limit s = or_return (query env (λ w. ok (list_chain_ids w.audit)) s) (λ chains s₁.
      or_return (query env (λ w. ok (list_enabled w.store)) s₁)
        (λ subs s₂. if is_empty subs then s₂ else tail_chains limit chains subs s₂))
