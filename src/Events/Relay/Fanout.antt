-- ===== src/Events/Relay/Fanout.antt =====
-- The deliveries that a pass of the relay builds, and what Enqueue makes of them
-- (internal/events/relay.go, internal/store/postgres/webhook_store.go).
use oneops.Base.{
  ℕ, ◌+◌, ◌<◌, ◌≤◌, ◌≡◌, refl, sym, subst, ◌∙◌, inl, inr, true, false, List, [], ◌∷◌, ◌++◌, text_eq,
  text_eq_iff, any, All, All-imp, All-append, Some, Some-append_left, Some-append_right, Bool-cases,
  arith, map, append_assoc, append-nil,
}
use oneops.Domain.AuditTypes.{AuditEvent}
use oneops.Events.Types.{Webhook, Event, Delivery, matches, event_from}
use oneops.Events.Tables.{is_delivery, enqueued_row, enqueue_rows, insert_delivery}
use oneops.Events.World.{Env, delivery_id}
use oneops.Events.Relay.{new_delivery, fan_out, gather}

-- A delivery of an event to a webhook.
abbrev pub Carries : Webhook → Event → Delivery → Type 0
Carries w ev d = (d.webhook_id ≡ w.id) × (d.event ≡ ev)

-- Each webhook that subscribes to the event has a delivery of it.
abbrev pub Notified : List Webhook → List Delivery → Event → Type 0
Notified hooks ds ev = All (λ w. matches w ev ≡ true → Some (Carries w ev) ds) hooks

pub Notified-imp :
    (ds es : List Delivery) (ev : Event)
    → ((w : Webhook) → Some (Carries w ev) ds → Some (Carries w ev) es)
    → (hooks : List Webhook) → Notified hooks ds ev
    → Notified hooks es ev
Notified-imp ds es ev f hooks h =
    All-imp (λ w. matches w ev ≡ true → Some (Carries w ev) ds)
      (λ w. matches w ev ≡ true → Some (Carries w ev) es) (λ w g m. f w (g m)) hooks h

module _ (env : Env) where
  -- Ids drawn in turn from interaction `n` on, before `m`.
  abbrev pub Drawn : ℕ → ℕ → List Delivery → Type 0
  Drawn n m [] = n ≤ m
  Drawn n m (d ∷ ds) = (i : ℕ) × (n ≤ i) × (d.id ≡ delivery_id env i) × Drawn (i + 1) m ds

  -- Every id was drawn before `m`.
  abbrev pub Used : ℕ → List Delivery → Type 0
  Used m ds = All (λ d. (i : ℕ) × (i < m) × (d.id ≡ delivery_id env i)) ds

  pub Used-mono : (m k : ℕ) → m ≤ k → (ds : List Delivery) → Used m ds → Used k ds
  Used-mono m k l ds u =
      All-imp (λ d. (i : ℕ) × (i < m) × (d.id ≡ delivery_id env i))
        (λ d. (i : ℕ) × (i < k) × (d.id ≡ delivery_id env i))
        (λ d p. (p.0, omega (arith, p.1), p.2)) ds u

  Drawn-le : (n m : ℕ) (ds : List Delivery) → Drawn n m ds → n ≤ m
  Drawn-le n m [] h = h
  Drawn-le n m (d ∷ ds) h = omega (arith, h.1, Drawn-le (h.0 + 1) m ds h.3)

  Drawn-from : (k n m : ℕ) (ds : List Delivery) → k ≤ n → Drawn n m ds → Drawn k m ds
  Drawn-from k n m [] l h = omega arith
  Drawn-from k n m (d ∷ ds) l h = (h.0, omega (arith, h.1), h.2, h.3)

  Drawn-append :
      (n m k : ℕ) (ds es : List Delivery) → Drawn n m ds → Drawn m k es → Drawn n k (ds ++ es)
  Drawn-append n m k [] es h g = Drawn-from n m k es h g
  Drawn-append n m k (d ∷ ds) es h g = (h.0, h.1, h.2, Drawn-append (h.0 + 1) m k ds es h.3 g)

  fan_out-Drawn :
      (at : ℕ) (ev : Event) (subs : List Webhook) (n : ℕ)
      → Drawn n (fan_out env at ev subs n).1 (fan_out env at ev subs n).0
  unfolding fan_out
  fan_out-Drawn at ev [] n = omega arith
  fan_out-Drawn at ev (w ∷ subs) n = elim (Bool-cases (matches w ev)) [
    | inl p ↦ rw p (n, omega arith, refl, fan_out-Drawn at ev subs (n + 1))
    | inr p ↦ rw p (fan_out-Drawn at ev subs n)
  ]

  pub gather-Drawn :
      (at : ℕ) (subs : List Webhook) (evs : List AuditEvent) (n : ℕ)
      → Drawn n (gather env at subs evs n).1 (gather env at subs evs n).0
  unfolding gather
  gather-Drawn at subs [] n = omega arith
  gather-Drawn at subs (a ∷ evs) n =
      let ds = fan_out env at (event_from a) subs n in
      let rest = gather env at subs evs ds.1 in
      Drawn-append n ds.1 rest.1 ds.0 rest.0 (fan_out-Drawn at (event_from a) subs n)
        (gather-Drawn at subs evs ds.1)

  pub gather-le :
      (at : ℕ) (subs : List Webhook) (evs : List AuditEvent) (n : ℕ)
      → n ≤ (gather env at subs evs n).1
  gather-le at subs evs n =
      let g = gather env at subs evs n in Drawn-le n g.1 g.0 (gather-Drawn at subs evs n)

  fan_out-match :
      (at : ℕ) (ev : Event) (w : Webhook) (subs : List Webhook) (n : ℕ)
      → matches w ev ≡ true
      → let rest = fan_out env at ev subs (n + 1) in
        fan_out env at ev (w ∷ subs) n ≡ (new_delivery (delivery_id env n) w ev at ∷ rest.0, rest.1)
  unfolding fan_out
  fan_out-match at ev w subs n p = rw p refl

  fan_out-skip :
      (at : ℕ) (ev : Event) (w : Webhook) (subs : List Webhook) (n : ℕ)
      → matches w ev ≡ false
      → fan_out env at ev (w ∷ subs) n ≡ fan_out env at ev subs n
  unfolding fan_out
  fan_out-skip at ev w subs n p = rw p refl

  fan_out-Notified :
      (at : ℕ) (ev : Event) (subs : List Webhook) (n : ℕ)
      → Notified subs (fan_out env at ev subs n).0 ev
  fan_out-Notified at ev [] n = tt
  fan_out-Notified at ev (w ∷ subs) n = elim (Bool-cases (matches w ev)) [
    | inl p ↦
        let ds = (fan_out env at ev subs (n + 1)).0 in
        let all = new_delivery (delivery_id env n) w ev at ∷ ds in
        subst (λ (l : List Delivery × ℕ). Notified (w ∷ subs) l.0 ev)
          (sym (fan_out-match at ev w subs n p))
          (
            (λ q. inl (refl, refl)),
            Notified-imp ds all ev (λ v. inr) subs (fan_out-Notified at ev subs (n + 1)),
          )
    | inr p ↦
        subst (λ (l : List Delivery × ℕ). Notified (w ∷ subs) l.0 ev)
          (sym (fan_out-skip at ev w subs n p))
          ((λ q. absurd (cc (p, q))), fan_out-Notified at ev subs n)
  ]

  -- Each event of the page is notified.
  pub gather-Notified :
      (at : ℕ) (subs : List Webhook) (evs : List AuditEvent) (n : ℕ)
      → All (λ a. Notified subs (gather env at subs evs n).0 (event_from a)) evs
  unfolding gather
  gather-Notified at subs [] n = tt
  gather-Notified at subs (a ∷ evs) n =
      let ds = fan_out env at (event_from a) subs n in
      let rest = gather env at subs evs ds.1 in
      (
        Notified-imp ds.0 (ds.0 ++ rest.0) (event_from a)
            (λ w. Some-append_left (Carries w (event_from a)) ds.0 rest.0) subs
            (fan_out-Notified at (event_from a) subs n),
        All-imp (λ b. Notified subs rest.0 (event_from b))
            (λ b. Notified subs (ds.0 ++ rest.0) (event_from b))
            (λ b.
              Notified-imp rest.0 (ds.0 ++ rest.0) (event_from b)
                (λ w. Some-append_right (Carries w (event_from b)) ds.0 rest.0) subs)
            evs (gather-Notified at subs evs ds.1),
      )

  module _ (distinct : (i j : ℕ) → delivery_id env i ≡ delivery_id env j → i ≡ j) where
    Used-fresh :
        (n i : ℕ) (d : Delivery) (rows : List Delivery)
        → n ≤ i
        → d.id ≡ delivery_id env i
        → Used n rows
        → any (is_delivery d.id) rows ≡ false
    Used-fresh n i d [] l e u = refl
    Used-fresh n i d (r ∷ rows) l e u = elim (Bool-cases (text_eq r.id d.id)) [
      | inl p ↦
          let same : delivery_id env u.0.0 ≡ delivery_id env i =
            sym u.0.2 ∙ (text_eq_iff r.id d.id).0 p ∙ e in
          absurd (omega (arith, distinct u.0.0 i same, u.0.1))
      | inr p ↦ rw p (Used-fresh n i d rows l e u.1)
    ]

    -- Deliveries with new ids are appended as they are.
    pub enqueue_rows-Drawn :
        (at n m : ℕ) (ds rows : List Delivery)
        → Used n rows
        → Drawn n m ds
        → (enqueue_rows at ds rows ≡ rows ++ map (enqueued_row at) ds)
          × Used m (enqueue_rows at ds rows)
    unfolding enqueue_rows insert_delivery
    enqueue_rows-Drawn at n m [] rows u h = (sym (append-nil rows), Used-mono n m h rows u)
    enqueue_rows-Drawn at n m (d ∷ ds) rows u h =
        let fresh = Used-fresh n h.0 d rows h.1 h.2 u in
        let here : Used (h.0 + 1) (rows ++ enqueued_row at d ∷ []) =
          All-append (λ d. (i : ℕ) × (i < h.0 + 1) × (d.id ≡ delivery_id env i)) rows
            (enqueued_row at d ∷ []) (Used-mono n (h.0 + 1) (omega (arith, h.1)) rows u)
            ((h.0, omega arith, h.2), tt) in
        let (same, used) =
          enqueue_rows-Drawn at (h.0 + 1) m ds (rows ++ enqueued_row at d ∷ []) here h.3 in
        rw fresh
          (same ∙ append_assoc rows (enqueued_row at d ∷ []) (map (enqueued_row at) ds), used)
