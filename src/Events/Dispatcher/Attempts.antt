-- ===== src/Events/Dispatcher/Attempts.antt =====
-- Repeated attempts of one delivery (internal/events/dispatcher.go).
use oneops.Base.{
  ℕ, zero, suc, ◌+◌, ◌<◌, ◌≤◌, ◌^◌, ◌≡◌, refl, ap, sym, subst, ◌∙◌, ◌⊎◌, inl, inr, ◌&&◌, Option,
  none, some, Text, text_eq_iff, leb, ltb, Bool-cases, arith,
}
use oneops.Domain.Errors.{Error, Result, ok, err, ◌>>=◌}
use oneops.Audit.Hash.{int64_next}
use oneops.Audit.Tables.{int64_le}
use oneops.Events.Types.{
  Webhook, Delivery, DeliveryStatus, pending, delivered, failed, dead_letter, other,
}
use oneops.Events.Tables.{get_delivery, get_webhook, marked, mark_result}
use oneops.Events.World.{Env, World, Fate, works, ticked, moved, answer, settle, effect, query}
use oneops.Events.Dispatcher.{
  DispatcherConfig, Wire, Payload, mark, conclude, retry_later, attempt_built, attempt_hook,
  attempt_found, attempt, build_payload, payload_of, unix, post, sign, backoff,
}
use oneops.Events.Dispatcher.Claims.{changed, get_delivery-mark_result}

abbrev pub IsOpen : DeliveryStatus → Type 0
IsOpen pending = Unit
IsOpen failed = Unit
IsOpen _ = ⊥

pub data Ended : DeliveryStatus → Type 0 where
  was_delivered : Ended delivered
  was_dead : Ended dead_letter

abbrev if_open : DeliveryStatus → World → World → World
if_open pending go stay = go
if_open failed go stay = go
if_open _ go stay = stay

if_open-IsOpen : (st : DeliveryStatus) (go stay : World) → IsOpen st → if_open st go stay ≡ go
if_open-IsOpen pending go stay o = refl
if_open-IsOpen failed go stay o = refl
if_open-IsOpen delivered go stay o = elim o [ ]
if_open-IsOpen dead_letter go stay o = elim o [ ]
if_open-IsOpen (other t) go stay o = elim o [ ]

if_open-Ended : (st : DeliveryStatus) (go stay : World) → Ended st → if_open st go stay ≡ stay
if_open-Ended _ go stay was_delivered = refl
if_open-Ended _ go stay was_dead = refl

failed-IsOpen : (st : DeliveryStatus) → st ≡ failed → IsOpen st
failed-IsOpen st e = subst IsOpen (sym e) tt

-- An attempt of the delivery with an id as the table has it, as long as it is pending or failed.
module _ (wire : Wire) (env : Env) (cfg : DispatcherConfig) (x : Text) where
  abbrev try_row : Option Delivery → World → World
  try_row none s = s
  try_row (some d) s = if_open d.status (attempt wire env cfg d s).2 s

  unfoldable pub tries : ℕ → World → World
  tries zero s = s
  tries (suc n) s = tries n (try_row (get_delivery x s.store) s)

module _ (wire : Wire) (env : Env) (cfg : DispatcherConfig)
    (works_all : (n : ℕ) → env.fate n ≡ works)
    (marshals : (p : Payload) → (b : Text) × (wire.marshal p ≡ ok b)) (wh : Webhook)
    (small : wh.max_retries < 2 ^ 63) (x : Text) where
  mark-works :
      (id : Text) (status : DeliveryStatus) (retry code last next : ℕ) (s : World)
      → mark wire env cfg id status retry code last next s
        ≡ moved (mark_result id status retry code last next s.store) s
  unfolding mark
  mark-works id status retry code last next s =
      ap
        (λ (f : Fate).
          (settle f (effect (λ at. mark_result id status retry code last next) 0 s.store) s).1)
        (works_all s.tick)

  -- The row of a delivery whose retries stay below the limit.
  record Going (d : Delivery) (s : World) : Type 0 where
    named : d.id ≡ x
    row : get_delivery x s.store ≡ some d
    hook : get_webhook d.webhook_id s.store ≡ ok wh
    below : d.retry_count < wh.max_retries

  -- NextRow an attempt the row is delivered or dead, or failed with one more retry.
  abbrev NextRow : Delivery → World → Type 0
  NextRow d s =
      (e : Delivery) × (get_delivery x s.store ≡ some e)
      × (e.id ≡ x)
      × (get_webhook e.webhook_id s.store ≡ ok wh)
      × (Ended e.status
          ⊎ ((e.status ≡ failed)
              × (e.retry_count ≡ d.retry_count + 1)
              × (e.retry_count < wh.max_retries)))

  after-mark :
      (d : Delivery) (s : World)
      → Going d s
      → (status : DeliveryStatus) (retry code last next : ℕ)
      → Ended status ⊎ ((status ≡ failed) × (retry ≡ d.retry_count + 1) × (retry < wh.max_retries))
      → NextRow d (mark wire env cfg d.id status retry code last next s)
  unfolding mark_result get_webhook
  after-mark d s g status retry code last next how =
      rw (mark-works d.id status retry code last next s) (
        marked status retry code last next d,
        get_delivery-mark_result d.id x status retry code last next s.store
            ∙ ap (changed d.id (marked status retry code last next) x) g.row
            ∙ rw ((text_eq_iff d.id x).1 g.named) refl,
        g.named,
        g.hook,
        how,
      )

  module _ (d : Delivery) where
    after-retry :
        (now code : ℕ) (derr : Option Error) (s : World)
        → Going d s
        → NextRow d (retry_later wire env cfg wh d now code derr s).2
    unfolding retry_later
    after-retry now code derr s g =
        let retry = int64_next d.retry_count in
        let next : retry ≡ d.retry_count + 1 = omega (arith, g.below, small) in
        elim (Bool-cases (int64_le wh.max_retries retry)) [
          | inl e ↦ rw e (after-mark d s g dead_letter retry code now 0 (inl was_dead))
          | inr e ↦
              let more : retry < wh.max_retries = ground (arith, e, next, small, g.below) in
              rw e (
                after-mark d s g failed retry code now (now + backoff cfg retry)
                  (inr (refl, next, more)))
        ]

    after-conclude :
        (now : ℕ) (r : Result ℕ) (s : World)
        → Going d s
        → NextRow d (conclude wire env cfg wh d now r s).2
    unfolding conclude
    after-conclude now (ok code) s g = elim (Bool-cases (leb 200 code && ltb code 300)) [
      | inl e ↦ rw e (after-mark d s g delivered d.retry_count code now 0 (inl was_delivered))
      | inr e ↦ rw e (after-retry now code none s g)
    ]
    after-conclude now (err x) s g = after-retry now 0 (some x) s g

    Going-ticked : (s : World) → Going d s → Going d (ticked s)
    Going-ticked s g = record { named = g.named; row = g.row; hook = g.hook; below = g.below }

    after-hook : (s : World) → Going d s → NextRow d (attempt_hook wire env cfg wh d s).2
    unfolding attempt_hook attempt_built build_payload
    after-hook s g =
        let at = env.clock s.tick in
        let (b, made) = marshals (payload_of d (unix at)) in
        let s₁ = ticked s in
        let sent = post wire s₁.tick wh.url d (unix at) (sign wire wh.secret (unix at) d.id b) b in
        subst
          (λ (r : Result Text).
            NextRow d (attempt_built wire env cfg wh d at (r >>= λ p. ok (p, unix at)) s₁).2)
          (sym made) (after-conclude at sent (ticked s₁) (Going-ticked s₁ (Going-ticked s g)))

    after-attempt : (s : World) → Going d s → NextRow d (attempt wire env cfg d s).2
    unfolding attempt attempt_found
    after-attempt s g =
        let asked = λ (w : World). get_webhook d.webhook_id w.store in
        let found : query env asked s ≡ (ok wh, ticked s) =
          ap (λ (f : Fate). answer f (asked s) s) (works_all s.tick)
          ∙ ap (λ (r : Result Webhook). (r, ticked s)) g.hook in
        subst (λ (q : Result Webhook × World). NextRow d (attempt_found wire env cfg d q.0 q.1).2)
          (sym found) (after-hook (ticked s) (Going-ticked s g))

  tries-Ended :
      (n : ℕ) (e : Delivery) (s : World)
      → get_delivery x s.store ≡ some e
      → Ended e.status
      → get_delivery x (tries wire env cfg x n s).store ≡ some e
  unfolding tries
  tries-Ended zero e s row end = row
  tries-Ended (suc n) e s row end =
      let stays : try_row wire env cfg x (get_delivery x s.store) s ≡ s =
        ap (λ (o : Option Delivery). try_row wire env cfg x o s) row
        ∙ if_open-Ended e.status (attempt wire env cfg e s).2 s end in
      subst (λ (w : World). get_delivery x (tries wire env cfg x n w).store ≡ some e) (sym stays)
        (tries-Ended n e s row end)

  -- Where the database works, the payload can be marshalled and the webhook stays, a pending or failed
  -- delivery with retries left is delivered or dead after as many attempts as it has retries left,
  -- whatever the endpoint answers.
  pub tries-end :
      (n : ℕ) (d : Delivery) (s : World)
      → d.id ≡ x
      → get_delivery x s.store ≡ some d
      → get_webhook d.webhook_id s.store ≡ ok wh
      → IsOpen d.status
      → d.retry_count < wh.max_retries
      → wh.max_retries ≤ d.retry_count + n
      → (e : Delivery) × (get_delivery x (tries wire env cfg x n s).store ≡ some e) × Ended e.status
  unfolding tries
  tries-end zero d s named row hook o below enough = absurd (omega arith)
  tries-end (suc n) d s named row hook o below enough =
      let s' = (attempt wire env cfg d s).2 in
      let goes : try_row wire env cfg x (get_delivery x s.store) s ≡ s' =
        ap (λ (r : Option Delivery). try_row wire env cfg x r s) row
        ∙ if_open-IsOpen d.status s' s o in
      let (e, row', named', hook', how) =
        after-attempt d s (record { named = named; row = row; hook = hook; below = below }) in
      subst
        (λ (w : World).
          (e : Delivery) × (get_delivery x (tries wire env cfg x n w).store ≡ some e)
          × Ended e.status)
        (sym goes)
        (elim how [
          | inl end ↦ (e, tries-Ended n e s' row' end, end)
          | inr (st, next, left) ↦
              tries-end n e s' named' row' hook' (failed-IsOpen e.status st) left
                (omega (arith, next))
        ])
