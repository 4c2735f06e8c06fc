-- ===== src/Events/Dispatcher/Keeps.antt =====
-- What an attempt of the dispatcher (internal/events/dispatcher.go) does to the world: it passes time
-- and calls MarkResult.
use oneops.Base.{ℕ, sym, subst, inl, inr, Bool-cases, Option, List, [], ◌∷◌, Text, leb, ltb, ◌&&◌}
use oneops.Domain.Errors.{Error, Result, ok, err}
use oneops.Audit.Hash.{int64_next}
use oneops.Audit.Tables.{int64_le}
use oneops.Events.Types.{Webhook, Delivery, DeliveryStatus}
use oneops.Events.Tables.{get_webhook, claim_due}
use oneops.Events.World.{Env, World, ticked, query, query-world, or_return-query}
use oneops.Events.Dispatcher.{
  DispatcherConfig, Wire, mark, conclude, retry_later, attempt_built, attempt_hook, attempt_found,
  attempt, attempts, dispatch_run_once, build_payload, post, sign,
}

module _ (wire : Wire) (env : Env) (cfg : DispatcherConfig) (P : World → Type 0)
    (tick : (s : World) → P s → P (ticked s)) where
  -- Marking the rows of an id keeps P.
  abbrev pub Marks : Text → Type 0
  Marks id =
      (status : DeliveryStatus) (retry code last next : ℕ) (s : World)
      → P s
      → P (mark wire env cfg id status retry code last next s)

  module _ (d : Delivery) (marks : Marks d.id) where
    retry_later-keeps :
        (wh : Webhook) (now code : ℕ) (derr : Option Error) (s : World)
        → P s
        → P (retry_later wire env cfg wh d now code derr s).2
    unfolding retry_later
    retry_later-keeps wh now code derr s h =
        elim (Bool-cases (int64_le wh.max_retries (int64_next d.retry_count))) [
          | inl e ↦ rw e (marks _ _ _ _ _ s h)
          | inr e ↦ rw e (marks _ _ _ _ _ s h)
        ]

    conclude-keeps :
        (wh : Webhook) (now : ℕ) (r : Result ℕ) (s : World)
        → P s
        → P (conclude wire env cfg wh d now r s).2
    unfolding conclude
    conclude-keeps wh now (ok code) s h = elim (Bool-cases (leb 200 code && ltb code 300)) [
      | inl e ↦ rw e (marks _ _ _ _ _ s h)
      | inr e ↦ rw e (retry_later-keeps wh now code _ s h)
    ]
    conclude-keeps wh now (err x) s h = retry_later-keeps wh now 0 _ s h

    attempt_built-keeps :
        (wh : Webhook) (at : ℕ) (built : Result (Text × ℕ)) (s : World)
        → P s
        → P (attempt_built wire env cfg wh d at built s).2
    unfolding attempt_built
    attempt_built-keeps wh at (ok built) s h =
        let sig = sign wire wh.secret built.1 d.id built.0 in
        conclude-keeps wh at (post wire s.tick wh.url d built.1 sig built.0) (ticked s) (tick s h)
    attempt_built-keeps wh at (err x) s h = h

    attempt_hook-keeps : (wh : Webhook) (s : World) → P s → P (attempt_hook wire env cfg wh d s).2
    unfolding attempt_hook
    attempt_hook-keeps wh s h =
        attempt_built-keeps wh (env.clock s.tick) (build_payload wire d (env.clock s.tick))
          (ticked s) (tick s h)

    attempt_found-keeps :
        (found : Result Webhook) (s : World) → P s → P (attempt_found wire env cfg d found s).2
    unfolding attempt_found
    attempt_found-keeps (ok wh) s h = attempt_hook-keeps wh s h
    attempt_found-keeps (err x) s h = marks _ _ _ _ _ (ticked s) (tick s h)

    pub attempt-keeps : (s : World) → P s → P (attempt wire env cfg d s).2
    unfolding attempt
    attempt-keeps s h =
        let f = λ (w : World). get_webhook d.webhook_id w.store in
        attempt_found-keeps (query env f s).0 (query env f s).1
          (subst P (sym (query-world env f s)) (tick s h))

  module _ (marks : (d : Delivery) → Marks d.id) where
    attempts-keeps : (due : List Delivery) (s : World) → P s → P (attempts wire env cfg due s)
    unfolding attempts
    attempts-keeps [] s h = h
    attempts-keeps (d ∷ due) s h = elim (Bool-cases (env.cancelled s.tick)) [
      | inl e ↦ rw e (tick s h)
      | inr e ↦ rw e (
          attempts-keeps due (attempt wire env cfg d (ticked s)).2
            (attempt-keeps d (marks d) (ticked s) (tick s h)))
    ]

    -- What time and marking keep, a pass keeps.
    pub dispatch_run_once-keeps : (s : World) → P s → P (dispatch_run_once wire env cfg s)
    unfolding dispatch_run_once
    dispatch_run_once-keeps s h =
        let s₁ = ticked s in
        or_return-query env P (λ w. ok (claim_due (env.clock s.tick) cfg.batch_limit w.store)) s₁
          (attempts wire env cfg) (tick s₁ (tick s h))
          (λ due e. attempts-keeps due (ticked s₁) (tick s₁ (tick s h)))
