-- ===== src/Events/Replay/Pages.antt =====
-- One page of replayWindow (internal/events/replay.go): its batch, and the page after it.
use oneops.Base.{
  ℕ, zero, suc, ◌+◌, ◌≡◌, refl, ap, sym, subst, ◌∙◌, inl, inr, Bool, true, false, ◌&&◌, List, [],
  ◌∷◌, ◌++◌, Text, filter, take, drop, map, All, All-map, All-append, Bool-cases, arith,
  filter-filter, filter-every,
}
use mathlib.Core.Path.{fun_ext, ap₂}
use mathlib.Core.List.{map-append, map-map}
use oneops.Domain.AuditTypes.{AuditEvent}
use oneops.Audit.Verifier.Chains.{last_seq}
use oneops.Audit.Tables.{AuditTables, int64_le}
use oneops.Audit.Appender.Sealed.{rows}
use oneops.Events.Types.{Webhook, Event, Delivery, ReplayJob, event_from}
use oneops.Events.Tables.{enqueued_row}
use oneops.Events.World.{Env, delivery_id}
use oneops.Events.Relay.{new_delivery}
use oneops.Events.Relay.Pages.{Above, Above-All, Above-last, past, backlog}
use oneops.Events.Relay.Fanout.{Drawn}
use oneops.Events.Replay.{replay_batch, selects, next_cursor}

-- Deliveries to one webhook that carry the events of a list, in its order.
abbrev pub Carry : Webhook → List AuditEvent → List Delivery → Type 0
Carry wh evs ds = (map (λ d. d.event) ds ≡ map event_from evs) × All (λ d. d.webhook_id ≡ wh.id) ds

pub Carry-append :
    (wh : Webhook) (a b : List AuditEvent) (ds es : List Delivery)
    → Carry wh a ds
    → Carry wh b es
    → Carry wh (a ++ b) (ds ++ es)
Carry-append wh a b ds es h k = (
  map-append (λ (d : Delivery). d.event) ds es
      ∙ ap₂ (λ (x y : List Event). x ++ y) h.0 k.0
      ∙ sym (map-append event_from a b),
  All-append (λ d. d.webhook_id ≡ wh.id) ds es h.1 k.1,
)

pub Carry-enqueued :
    (wh : Webhook) (at : ℕ) (evs : List AuditEvent) (ds : List Delivery)
    → Carry wh evs ds
    → Carry wh evs (map (enqueued_row at) ds)
Carry-enqueued wh at evs ds h = (
  map-map (λ (d : Delivery). d.event) (enqueued_row at) ds ∙ h.0,
  All-map (λ d. d.webhook_id ≡ wh.id) (enqueued_row at) (λ d e. e) ds h.1,
)

module _ (env : Env) (at : ℕ) (job : ReplayJob) (wh : Webhook) where
  batch-hit :
      (a : AuditEvent) (evs : List AuditEvent) (n : ℕ)
      → selects job wh a ≡ true
      → let rest = replay_batch env at job wh evs (n + 1) in
        replay_batch env at job wh (a ∷ evs) n
        ≡ (new_delivery (delivery_id env n) wh (event_from a) at ∷ rest.0, rest.1)
  unfolding replay_batch
  batch-hit a evs n p = rw p refl

  batch-miss :
      (a : AuditEvent) (evs : List AuditEvent) (n : ℕ)
      → selects job wh a ≡ false
      → replay_batch env at job wh (a ∷ evs) n ≡ replay_batch env at job wh evs n
  unfolding replay_batch
  batch-miss a evs n p = rw p refl

  -- The batch of a page has newly drawn ids and carries the selected events.
  pub replay_batch-Carry :
      (evs : List AuditEvent) (n : ℕ)
      → let g = replay_batch env at job wh evs n in
        Drawn env n g.1 g.0 × Carry wh (filter (selects job wh) evs) g.0
  unfolding replay_batch
  replay_batch-Carry [] n = (omega arith, (refl, tt))
  replay_batch-Carry (a ∷ evs) n = elim (Bool-cases (selects job wh a)) [
    | inl p ↦
        let g = replay_batch env at job wh evs (n + 1) in
        let (drawn, carry) = replay_batch-Carry evs (n + 1) in
        let d = new_delivery (delivery_id env n) wh (event_from a) at in
        let chosen : filter (selects job wh) (a ∷ evs) ≡ a ∷ filter (selects job wh) evs =
          rw p refl in
        subst
          (λ (r : List Delivery × ℕ).
            Drawn env n r.1 r.0 × Carry wh (filter (selects job wh) (a ∷ evs)) r.0)
          (sym (batch-hit a evs n p))
          (
            (n, omega arith, refl, drawn),
            rw chosen (ap (λ (l : List Event). event_from a ∷ l) carry.0, (refl, carry.1)),
          )
    | inr p ↦
        let chosen : filter (selects job wh) (a ∷ evs) ≡ filter (selects job wh) evs = rw p refl in
        subst
          (λ (r : List Delivery × ℕ).
            Drawn env n r.1 r.0 × Carry wh (filter (selects job wh) (a ∷ evs)) r.0)
          (sym (batch-miss a evs n p)) (rw chosen (replay_batch-Carry evs n))
  ]

-- The backlog after a page is the backlog without it.
Above-take : (n k : ℕ) (xs : List AuditEvent) → Above k xs → Above k (take n xs)
Above-take zero k xs a = tt
Above-take (suc n) k [] a = tt
Above-take (suc n) k (e ∷ es) a = (a.0, Above-take n e.seq es a.1)

past-drop :
    (n k : ℕ) (xs : List AuditEvent)
    → Above k xs
    → filter (past (last_seq k (take n xs))) xs ≡ drop n xs
past-drop zero k xs a = filter-every (past k) xs (Above-All k xs a)
past-drop (suc n) k [] a = refl
past-drop (suc n) k (e ∷ es) a =
    let l = last_seq e.seq (take n es) in
    let le : int64_le e.seq l ≡ true =
      (Above-last e.seq (take n es) (Above-take n e.seq es a.1)).0 in
    let out : past l e ≡ false = ground (arith, le) in rw out (past-drop n e.seq es a.1)

pub backlog-drop :
    (c : Text) (n k : ℕ) (t : AuditTables)
    → Above k (backlog c k t)
    → backlog c (last_seq k (take n (backlog c k t))) t ≡ drop n (backlog c k t)
backlog-drop c n k t a =
    let l = last_seq k (take n (backlog c k t)) in
    let le : int64_le k l ≡ true =
      (Above-last k (take n (backlog c k t)) (Above-take n k (backlog c k t) a)).0 in
    let both : (e : AuditEvent) → past l e ≡ (past k e && past l e) =
      λ (e : AuditEvent). ground (arith, le) in
    ap (λ (q : AuditEvent → Bool). filter q (rows c t)) (fun_ext both)
    ∙ filter-filter (past k) (past l) (rows c t)
    ∙ past-drop n k (backlog c k t) a

pub next_cursor-last : (k : ℕ) (xs : List AuditEvent) → next_cursor k xs ≡ last_seq k xs
next_cursor-last k [] = refl
next_cursor-last k (e ∷ es) = next_cursor-last e.seq es
