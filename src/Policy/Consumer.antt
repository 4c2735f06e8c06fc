-- ===== src/Policy/Consumer.antt =====
-- internal/policy/consumer.go, in the world of internal/events. The ticker of Run is left out.
use oneops.Base.{
  ℕ, ◌+◌, false, not, ◌||◌, Option, List, [], ◌∷◌, ◌++◌, Text, codes, if◌then◌else◌, is_empty,
}
use oneops.Domain.Errors.{ok}
use oneops.Domain.AuditTypes.{AuditEvent}
use oneops.Audit.Hash.{int64_lt, hex}
use oneops.Audit.Tables.{list_chain_ids, list_events}
use oneops.Events.World.{Env, WorldOf, ticked, now, query, exec, effect, or_return}
use oneops.Policy.Types.{
  JsonValue, PolicyEvent, Policy, Execution, exec_pending, condition_matches, policy_event_from,
}
use oneops.Policy.Tables.{
  PolicyTables, list_enabled_policies, get_policy_cursor, set_policy_cursor, enqueue_executions,
}

-- `maxSeq`
unfoldable pub max_event_seq : ℕ → List AuditEvent → ℕ
max_event_seq m [] = m
max_event_seq m (a ∷ evs) = max_event_seq (if int64_lt m a.seq then a.seq else m) evs

module _ (env : Env) (unmarshal : Text → Option (List (Text × JsonValue))) where
  -- `newExecutionID`, at its turn among the interactions.
  abbrev pub execution_id : ℕ → Text
  execution_id n = codes "pex_" ++ hex (env.random n)

  abbrev pub new_execution : ℕ → Policy → PolicyEvent → ℕ → Execution
  new_execution n p ev at = record {
    id = execution_id n;
    policy_id = p.id;
    event = ev;
    status = exec_pending;
    retry_count = 0;
    error = [];
    started_at = 0;
    ended_at = 0;
    next_attempt_at = at;
    created_at = at;
  }

  -- `Evaluate`, from interaction `n` on: the executions and the next interaction.
  unfoldable pub evaluate : PolicyEvent → List Policy → ℕ → ℕ → List Execution × ℕ
  evaluate ev [] at n = ([], n)
  evaluate ev (p ∷ pols) at n =
      let skip = not p.enabled || not (condition_matches p.condition ev) in
      let (xs, k) = evaluate ev pols at (if skip then n else n + 1) in
      ((if skip then xs else new_execution n p ev at ∷ xs), k)

  -- The loop over the events.
  unfoldable pub evaluate_all : List AuditEvent → List Policy → ℕ → ℕ → List Execution × ℕ
  unfolding evaluate
  evaluate_all [] pols at n = ([], n)
  evaluate_all (a ∷ evs) pols at n =
      let (xs, k) = evaluate (policy_event_from unmarshal a) pols at n in
      let (rest, m) = evaluate_all evs pols at k in (xs ++ rest, m)

  abbrev advance_cursor : Text → ℕ → ℕ → WorldOf PolicyTables → WorldOf PolicyTables
  advance_cursor chain_id cursor max s =
      if int64_lt cursor max
      then (exec env (effect (λ at. set_policy_cursor chain_id max)) s).1
      else s

  -- `tailChain` from its events on.
  unfoldable pub consume_events :
      Text → ℕ → List Policy → List AuditEvent → WorldOf PolicyTables → WorldOf PolicyTables
  unfolding evaluate_all max_event_seq
  consume_events chain_id cursor pols [] s = s
  consume_events chain_id cursor pols (a ∷ evs) s =
      let (at, s₁) = now env s in
      let (xs, n) = evaluate_all (a ∷ evs) pols at s₁.tick in
      let s₂ = record s₁ { tick = n } in
      let max = max_event_seq cursor (a ∷ evs) in
      if is_empty xs
      then advance_cursor chain_id cursor max s₂
      else or_return (exec env (effect (λ t. enqueue_executions t xs)) s₂)
          (λ u. advance_cursor chain_id cursor max)

  -- `tailChain`
  unfoldable pub consume_chain :
      ℕ → Text → List Policy → WorldOf PolicyTables → WorldOf PolicyTables
  unfolding consume_events
  consume_chain limit chain_id pols s =
      or_return (query env (λ w. ok (get_policy_cursor chain_id w.store)) s) (λ cursor s₁.
        or_return (query env (λ w. ok (list_events chain_id cursor false limit [] w.audit)) s₁)
          (λ evs. consume_events chain_id cursor pols evs))

  unfoldable pub consume_chains :
      ℕ → List Text → List Policy → WorldOf PolicyTables → WorldOf PolicyTables
  unfolding consume_chain
  consume_chains limit [] pols s = s
  consume_chains limit (c ∷ chains) pols s =
      if env.cancelled s.tick
      then ticked s
      else consume_chains limit chains pols (consume_chain limit c pols (ticked s))

  -- `RunOnce` of the consumer; `limit` is BatchLimit.
  unfoldable pub consumer_run_once : ℕ → WorldOf PolicyTables → WorldOf PolicyTables
  unfolding consume_chains
  consumer_run_once limit s =
      or_return (query env (λ w. ok (list_chain_ids w.audit)) s) (λ chains s₁.
        or_return (query env (λ w. ok (list_enabled_policies w.store)) s₁)
          (λ pols s₂. if is_empty pols then s₂ else consume_chains limit chains pols s₂))
