-- ===== src/Events/Relay/NoLoss.antt =====
-- RunOnce of the relay (internal/events/relay.go) under its invariant.
use oneops.Base.{
  ℕ, ◌+◌, ◌≤◌, ◌≡◌, ap, sym, subst, ◌∙◌, inl, inr, false, List, [], ◌∷◌, Text, filter, take, All,
  All-imp, Some, Some-append_left, Some-append_right, Some-map, Bool-cases, arith, if◌then◌else◌,
  map, is_empty,
}
use oneops.Domain.Errors.{ok, ok_inj}
use oneops.Domain.AuditTypes.{AuditEvent}
use oneops.Audit.Hash.{int64_lt}
use oneops.Audit.Tables.{list_chain_ids, list_events}
use oneops.Events.Types.{Webhook, Event, Delivery, event_from}
use oneops.Events.Tables.{get_cursor, set_cursor, list_enabled, enqueue, enqueue_rows, enqueued_row}
use oneops.Events.World.{
  Env, World, ticked, moved, effect, or_return, query, or_return-query, or_return-exec, exec-world,
  delivery_id,
}
use oneops.Events.Relay.{
  max_seq, gather, advance, publish, relay_events, tail_chain, tail_chains, relay_run_once,
}
use oneops.Events.Relay.Pages.{backlog, list_events-backlog}
use oneops.Events.Relay.Fanout.{
  Carries, Notified, Notified-imp, Used, Used-mono, Drawn, gather-Drawn, gather-le, gather-Notified,
  enqueue_rows-Drawn,
}
use oneops.Events.Relay.Invariant.{
  Safe, Safe-later, Safe-ticked, Safe-more, Safe-set_cursor, enabled-Notified,
}

module _ (sha256 : Text → Text) (env : Env)
    (distinct : (i j : ℕ) → delivery_id env i ≡ delivery_id env j → i ≡ j) (hooks : List Webhook)
    (limit : ℕ) (c : Text) where
  -- The page that the relay reads of the chain.
  abbrev page_at : ℕ → World → List AuditEvent
  page_at k s = take limit (backlog c k s.audit)

  advance-Safe :
      (s : World)
      → Safe sha256 env hooks s
      → let k = get_cursor c s.store in
        All (λ a. Notified hooks s.store.deliveries (event_from a)) (page_at k s)
        → Safe sha256 env hooks (advance env c k (max_seq k (page_at k s)) s)
  unfolding advance
  advance-Safe s safe told =
      let k = get_cursor c s.store in
      let m = max_seq k (page_at k s) in
      elim (Bool-cases (int64_lt k m)) [
        | inl p ↦ rw p (
            exec-world env (Safe sha256 env hooks) (effect (λ at. set_cursor c m)) s
              (Safe-ticked sha256 env hooks s safe)
              (Safe-set_cursor sha256 env hooks c limit s safe told))
        | inr p ↦ rw p safe
      ]

  -- The rows after `Enqueue` of newly drawn deliveries, and the events that they carry.
  enqueued :
      (at n m : ℕ) (ds rows : List Delivery)
      → Used env n rows
      → Drawn env n m ds
      → Used env m (enqueue_rows at ds rows)
        × ((w : Webhook) (ev : Event)
            → Some (Carries w ev) rows
            → Some (Carries w ev) (enqueue_rows at ds rows))
        × ((w : Webhook) (ev : Event)
            → Some (Carries w ev) ds
            → Some (Carries w ev) (enqueue_rows at ds rows))
  enqueued at n m ds rows u d =
      let (same, used) = enqueue_rows-Drawn env distinct at n m ds rows u d in
      (
        used,
        λ w ev h. rw same (Some-append_left (Carries w ev) rows (map (enqueued_row at) ds) h),
        λ w ev h. rw same (
            Some-append_right (Carries w ev) rows (map (enqueued_row at) ds)
              (Some-map (Carries w ev) (enqueued_row at) (λ x p. p) ds h)),
      )

  Notified-page :
      (ds es : List Delivery)
      → ((w : Webhook) (ev : Event) → Some (Carries w ev) ds → Some (Carries w ev) es)
      → (evs : List AuditEvent) → All (λ a. Notified hooks ds (event_from a)) evs
      → All (λ a. Notified hooks es (event_from a)) evs
  Notified-page ds es f evs h =
      All-imp (λ a. Notified hooks ds (event_from a)) (λ a. Notified hooks es (event_from a))
        (λ a. Notified-imp ds es (event_from a) (λ w. f w (event_from a)) hooks) evs h

  publish-Safe :
      (s : World) (n : ℕ) (ds : List Delivery)
      → Safe sha256 env hooks s
      → Used env n s.store.deliveries
      → Drawn env n s.tick ds
      → let k = get_cursor c s.store in
        All (λ a. Notified hooks ds (event_from a)) (page_at k s)
        → Safe sha256 env hooks (publish env c k (max_seq k (page_at k s)) ds s)
  unfolding publish enqueue get_cursor
  publish-Safe s n [] safe u d told = advance-Safe s safe (
      Notified-page [] s.store.deliveries (λ w ev h. elim h [ ]) (page_at (get_cursor c s.store) s)
        told)
  publish-Safe s n (x ∷ ds) safe u d told =
      let k = get_cursor c s.store in
      let at = env.clock s.tick in
      let (used, keep, new) = enqueued at n s.tick (x ∷ ds) s.store.deliveries u d in
      let more =
        Safe-more sha256 env hooks s (enqueue_rows at (x ∷ ds) s.store.deliveries)
          (Used-mono env s.tick (s.tick + 1) (omega arith)
            (enqueue_rows at (x ∷ ds) s.store.deliveries) used)
          keep safe in
      or_return-exec env (Safe sha256 env hooks) (effect (λ now. enqueue now (x ∷ ds))) s
        (λ u. advance env c k (max_seq k (page_at k s))) (Safe-ticked sha256 env hooks s safe) more
        (advance-Safe (moved (enqueue at (x ∷ ds) s.store) s) more (
          Notified-page (x ∷ ds) (enqueue_rows at (x ∷ ds) s.store.deliveries) new (page_at k s)
            told))

  relay_events-Safe :
      (s : World) (subs : List Webhook)
      → subs ≡ filter (λ w. w.enabled) hooks
      → Safe sha256 env hooks s
      → (evs : List AuditEvent) → evs ≡ page_at (get_cursor c s.store) s
      → Safe sha256 env hooks (relay_events env c (get_cursor c s.store) subs evs s)
  unfolding relay_events
  relay_events-Safe s subs all safe [] p = safe
  relay_events-Safe s subs all safe (a ∷ evs) p =
      let at = env.clock s.tick in
      let g = gather env at subs (a ∷ evs) (s.tick + 1) in
      let later = s.tick + 1 in
      let told : All (λ b. Notified hooks g.0 (event_from b)) (a ∷ evs) =
        All-imp (λ b. Notified subs g.0 (event_from b)) (λ b. Notified hooks g.0 (event_from b))
          (λ b q.
            enabled-Notified hooks g.0 (event_from b)
              (subst (λ (l : List Webhook). Notified l g.0 (event_from b)) all q))
          (a ∷ evs) (gather-Notified env at subs (a ∷ evs) later) in
      let k = get_cursor c s.store in
      let w = record s { tick = g.1 } in
      let le : s.tick ≤ g.1 = omega (arith, gather-le env at subs (a ∷ evs) later) in
      subst (λ (l : List AuditEvent). Safe sha256 env hooks (publish env c k (max_seq k l) g.0 w))
        (sym p)
        (publish-Safe w later g.0 (Safe-later sha256 env hooks s g.1 le safe)
          (Used-mono env s.tick later (omega arith) s.store.deliveries safe.used)
          (gather-Drawn env at subs (a ∷ evs) later)
          (subst (All (λ b. Notified hooks g.0 (event_from b))) p told))

  -- A pass over one chain keeps the invariant.
  tail_chain-Safe :
      (s : World) (subs : List Webhook)
      → subs ≡ filter (λ w. w.enabled) hooks
      → Safe sha256 env hooks s
      → Safe sha256 env hooks (tail_chain env limit c subs s)
  unfolding tail_chain
  tail_chain-Safe s subs all safe =
      let s₁ = ticked s in
      let safe₁ = Safe-ticked sha256 env hooks s safe in
      or_return-query env (Safe sha256 env hooks) (λ w. ok (get_cursor c w.store)) s
        (λ cursor u.
          or_return (query env (λ w. ok (list_events c cursor false limit [] w.audit)) u)
            (λ evs. relay_events env c cursor subs evs))
        safe₁
        (λ k e.
          or_return-query env (Safe sha256 env hooks)
            (λ w. ok (list_events c k false limit [] w.audit)) s₁
            (λ evs. relay_events env c k subs evs) (Safe-ticked sha256 env hooks s₁ safe₁)
            (λ evs p.
              let s₂ = ticked s₁ in
              let safe₂ = Safe-ticked sha256 env hooks s₁ safe₁ in
              let same : list_events c k false limit [] s.audit ≡ evs = ok_inj p in
              let at : get_cursor c s.store ≡ k = ok_inj e in
              let read : evs ≡ page_at (get_cursor c s.store) s =
                sym same
                ∙ list_events-backlog sha256 s.audit safe.consistent c k limit
                ∙ ap (λ (x : ℕ). page_at x s) (sym at) in
              subst (λ (x : ℕ). Safe sha256 env hooks (relay_events env c x subs evs s₂)) at
                (relay_events-Safe s₂ subs all safe₂ evs read)))

module _ (sha256 : Text → Text) (env : Env)
    (distinct : (i j : ℕ) → delivery_id env i ≡ delivery_id env j → i ≡ j) (hooks : List Webhook)
    (limit : ℕ) where
  tail_chains-Safe :
      (chains : List Text) (s : World) (subs : List Webhook)
      → subs ≡ filter (λ w. w.enabled) hooks
      → Safe sha256 env hooks s
      → Safe sha256 env hooks (tail_chains env limit chains subs s)
  unfolding tail_chains
  tail_chains-Safe [] s subs all safe = safe
  tail_chains-Safe (c ∷ chains) s subs all safe =
      let safe₁ = Safe-ticked sha256 env hooks s safe in
      elim (Bool-cases (env.cancelled s.tick)) [
        | inl p ↦ rw p safe₁
        | inr p ↦ rw p (
            tail_chains-Safe chains (tail_chain env limit c subs (ticked s)) subs all
              (tail_chain-Safe sha256 env distinct hooks limit c (ticked s) subs all safe₁))
      ]

  -- A pass over all chains keeps the invariant.
  pub relay_run_once-Safe :
      (s : World) → Safe sha256 env hooks s → Safe sha256 env hooks (relay_run_once env limit s)
  unfolding relay_run_once list_enabled
  relay_run_once-Safe s safe =
      let s₁ = ticked s in
      let safe₁ = Safe-ticked sha256 env hooks s safe in
      or_return-query env (Safe sha256 env hooks) (λ w. ok (list_chain_ids w.audit)) s
        (λ chains u.
          or_return (query env (λ w. ok (list_enabled w.store)) u)
            (λ subs v. if is_empty subs then v else tail_chains env limit chains subs v))
        safe₁
        (λ chains e.
          or_return-query env (Safe sha256 env hooks) (λ w. ok (list_enabled w.store)) s₁
            (λ subs v. if is_empty subs then v else tail_chains env limit chains subs v)
            (Safe-ticked sha256 env hooks s₁ safe₁)
            (λ subs p.
              let s₂ = ticked s₁ in
              let safe₂ = Safe-ticked sha256 env hooks s₁ safe₁ in
              let all : subs ≡ filter (λ w. w.enabled) hooks =
                sym (ok_inj p) ∙ ap (filter (λ (w : Webhook). w.enabled)) safe.same_hooks in
              elim (Bool-cases (is_empty subs)) [
                | inl q ↦ rw q safe₂
                | inr q ↦ rw q (tail_chains-Safe chains s₂ subs all safe₂)
              ]))
