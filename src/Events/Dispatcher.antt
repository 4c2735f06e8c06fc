-- ===== src/Events/Dispatcher.antt =====
-- internal/events/sign.go and dispatcher.go. HMAC-SHA256, encoding/json, strconv.FormatInt, the parsing
-- of URLs and the HTTP client are arguments. The ticker of Run and the request timeout are left out: a
-- call of the client answers or fails. Admin calls Deliver for one attempt.
pub mod Keeps
pub mod Claims
pub mod Attempts
pub mod Backoff
pub mod Signing
use oneops.Base.{
  ℕ, ◌+◌, ◌-◌, ◌*◌, ◌/◌, ◌%◌, ◌^◌, Bool, true, false, ◌&&◌, ◌||◌, Option, none, some, List, [], ◌∷◌,
  ◌++◌, Text, codes, text_eq, leb, ltb, if◌then◌else◌,
}
use oneops.Domain.Errors.{Error, Result, ok, err, ◌>>=◌}
use oneops.Audit.Hash.{hex, int64_lt, int64_next, below_one}
use oneops.Audit.Tables.{int64_le}
use oneops.Events.Types.{Webhook, Event, Delivery, DeliveryStatus, delivered, failed, dead_letter}
use oneops.Events.Tables.{EventTables, get_webhook, claim_due, mark_result}
use oneops.Events.World.{Env, World, ticked, now, query, exec, effect, or_return}

-- The Go code multiplies durations out; here are their nanoseconds.
abbrev second : ℕ
second = 1000000000

pub record DispatcherConfig : Type 0 where
  pub batch_limit : ℕ
  pub base_backoff : ℕ
  pub max_backoff : ℕ

-- `withDefaults`; a duration is an int64 pattern.
unfoldable pub dispatcher_defaults : DispatcherConfig → DispatcherConfig
dispatcher_defaults c = record {
  batch_limit = if below_one c.batch_limit then 100 else c.batch_limit;
  base_backoff = if below_one c.base_backoff then 5 * second else c.base_backoff;
  max_backoff = if below_one c.max_backoff then 3600 * second else c.max_backoff;
}

-- `backoff`: the shift drops the bits past 64; its count is `retry - 1`. `attempt` has just raised
-- `retry`, so that it is at least 1; on 0 Go panics, and the model gives the base.
unfoldable pub backoff : DispatcherConfig → ℕ → ℕ
backoff c retry =
    let b = c.base_backoff * 2 ^ (retry - 1) % 2 ^ 64 in
    if below_one b || int64_lt c.max_backoff b then c.max_backoff else b

pub record Payload : Type 0 where
  pub delivery_id : Text
  pub event : Text
  pub timestamp : ℕ
  pub chain_id : Text
  pub seq : ℕ
  pub event_id : Text
  pub operation_id : Text
  pub operation : Text
  pub actor : Text
  pub cfg_id : Text
  pub occurred_at : ℕ

pub record Request : Type 0 where
  pub url : Text
  pub headers : List (Text × Text)
  pub body : Text

-- What the dispatcher uses of other libraries. `send` answers with a status code or fails, at the
-- number of the interaction.
pub record Wire : Type 0 where
  pub hmac : Text → Text → Text
  pub format_int : ℕ → Text
  pub marshal : Payload → Result Text
  pub url_error : Text → Option Error
  pub send : ℕ → Request → Result ℕ

-- `EventType`
abbrev pub event_type : Text → Text
event_type operation = codes "governance." ++ operation

-- `t.Unix()`: seconds since 1970 as an int64.
abbrev pub unix : ℕ → ℕ
unix t = (t / second + (2 ^ 64 - 62135596800)) % 2 ^ 64

unfoldable pub payload_of : Delivery → ℕ → Payload
payload_of d ts = record {
  delivery_id = d.id;
  event = event_type d.event.operation;
  timestamp = ts;
  chain_id = d.event.chain_id;
  seq = d.event.seq;
  event_id = d.event.event_id;
  operation_id = d.event.operation_id;
  operation = d.event.operation;
  actor = d.event.actor;
  cfg_id = d.event.cfg_id;
  occurred_at = d.event.occurred_at;
}

module _ (wire : Wire) where
  -- `BuildPayload`
  unfoldable pub build_payload : Delivery → ℕ → Result (Text × ℕ)
  build_payload d at = do b ← wire.marshal (payload_of d (unix at)); ok (b, unix at)

  -- The message that `Sign` authenticates.
  unfoldable pub signed_message : ℕ → Text → Text → Text
  signed_message ts delivery_id payload =
      wire.format_int ts ++ (codes "." ++ (delivery_id ++ (codes "." ++ payload)))

  -- `Sign`
  unfoldable pub sign : Text → ℕ → Text → Text → Text
  unfolding signed_message
  sign secret ts delivery_id payload =
      hex (wire.hmac secret (signed_message ts delivery_id payload))

  -- `Verify`
  unfoldable pub verify : Text → ℕ → Text → Text → Text → Bool
  unfolding sign
  verify secret ts delivery_id payload signature =
      text_eq (sign secret ts delivery_id payload) signature

  abbrev headers : Delivery → ℕ → Text → List (Text × Text)
  headers d ts sig =
      (codes "Content-Type", codes "application/json")
      ∷ (codes "X-OneOps-Signature", sig)
      ∷ (codes "X-OneOps-Timestamp", wire.format_int ts)
      ∷ (codes "X-OneOps-Delivery", d.id)
      ∷ (codes "X-OneOps-Event", event_type d.event.operation)
      ∷ []

  -- `DeliveryView`; the map of headers as a list.
  unfoldable pub delivery_view : Delivery → Text → ℕ → Result (Text × List (Text × Text))
  unfolding build_payload sign
  delivery_view d secret at = do
    built ← build_payload d at
    ok (built.0, headers d built.1 (sign secret built.1 d.id built.0))

  -- `post`; a failure comes with the status code 0.
  unfoldable pub post : ℕ → Text → Delivery → ℕ → Text → Text → Result ℕ
  post tick url d ts sig payload = elim (wire.url_error url) [
    | some x ↦ err x
    | none ↦ wire.send tick (record { url = url; headers = headers d ts sig; body = payload })
  ]

  module _ (env : Env) (cfg : DispatcherConfig) where
    -- `_ = MarkResult(…)`: the error is dropped.
    unfoldable pub mark : Text → DeliveryStatus → ℕ → ℕ → ℕ → ℕ → World → World
    mark id status retry code last next s =
        (exec env (effect (λ at. mark_result id status retry code last next)) s).1

    -- What `attempt` returns, and the world that it leaves.
    abbrev pub AttemptOutcome : Type 0
    AttemptOutcome = DeliveryStatus × Option Error × World

    -- The failure branches of `attempt`.
    unfoldable pub retry_later : Webhook → Delivery → ℕ → ℕ → Option Error → World → AttemptOutcome
    unfolding mark backoff
    retry_later wh d now code derr s =
        let retry = int64_next d.retry_count in
        if int64_le wh.max_retries retry
        then (dead_letter, derr, mark d.id dead_letter retry code now 0 s)
        else (failed, derr, mark d.id failed retry code now (now + backoff cfg retry) s)

    -- The end of `attempt`, after the POST.
    unfoldable pub conclude : Webhook → Delivery → ℕ → Result ℕ → World → AttemptOutcome
    unfolding mark retry_later
    conclude wh d now (ok code) s =
        if leb 200 code && ltb code 300
        then (delivered, none, mark d.id delivered d.retry_count code now 0 s)
        else retry_later wh d now code none s
    conclude wh d now (err x) s = retry_later wh d now 0 (some x) s

    -- `attempt` with the payload, or the error of building it.
    unfoldable pub attempt_built :
        Webhook → Delivery → ℕ → Result (Text × ℕ) → World → AttemptOutcome
    unfolding conclude sign post
    attempt_built wh d at (err x) s = (d.status, some x, s)
    attempt_built wh d at (ok built) s =
        let sig = sign wh.secret built.1 d.id built.0 in
        conclude wh d at (post s.tick wh.url d built.1 sig built.0) (ticked s)

    -- `attempt` on a webhook that is found.
    unfoldable pub attempt_hook : Webhook → Delivery → World → AttemptOutcome
    unfolding attempt_built build_payload
    attempt_hook wh d s = let (at, s₁) = now env s in attempt_built wh d at (build_payload d at) s₁

    -- `attempt` with what the lookup gave. Every failure of it is a lost subscriber.
    unfoldable pub attempt_found : Delivery → Result Webhook → World → AttemptOutcome
    unfolding attempt_hook mark
    attempt_found d (ok wh) s = attempt_hook wh d s
    attempt_found d (err x) s =
        let (at, s₁) = now env s in
        (dead_letter, some x, mark d.id dead_letter d.retry_count 0 at 0 s₁)

    -- `attempt`, which is also `Deliver`
    unfoldable pub attempt : Delivery → World → AttemptOutcome
    unfolding attempt_found
    attempt d s =
        let (found, s₁) = query env (λ w. get_webhook d.webhook_id w.store) s in
        attempt_found d found s₁

    unfoldable pub attempts : List Delivery → World → World
    unfolding attempt
    attempts [] s = s
    attempts (d ∷ due) s =
        if env.cancelled s.tick then ticked s else attempts due (attempt d (ticked s)).2

    -- `RunOnce` of the dispatcher
    unfoldable pub dispatch_run_once : World → World
    unfolding attempts
    dispatch_run_once s =
        let (at, s₁) = now env s in
        or_return (query env (λ w. ok (claim_due at cfg.batch_limit w.store)) s₁) attempts
