-- ===== src/Events/Replay/Sends.antt =====
-- The batches of replayWindow (internal/events/replay.go) as Enqueue leaves them.
use oneops.Base.{
  ℕ, ◌+◌, ◌≤◌, ◌≡◌, refl, ap, sym, subst, ◌∙◌, none, List, [], ◌∷◌, ◌++◌, Text, filter, length, map,
  arith, ltb, if◌then◌else◌, append_assoc, append-nil, is_empty, length-map,
}
use oneops.Domain.Errors.{Result, ok}
use oneops.Domain.AuditTypes.{AuditEvent}
use oneops.Events.Types.{Webhook, Delivery, ReplayJob, event_from}
use oneops.Events.Tables.{enqueue, enqueue_rows, enqueued_row}
use oneops.Events.World.{Env, World, Fate, works, ticked, moved, settle, effect, exec, delivery_id}
use oneops.Events.Relay.Fanout.{Used, Used-mono, Drawn, enqueue_rows-Drawn}
use oneops.Events.Replay.{PageEnd, stop, more, selects, after_enqueue}
use oneops.Events.Replay.Pages.{Carry, Carry-append, Carry-enqueued}

-- A world with other deliveries at another interaction.
abbrev pub with_rows : World → List Delivery → ℕ → World
with_rows s ds n = record s { store = record s.store { deliveries = ds }; tick = n }

module _ (env : Env) (wh : Webhook) where
  -- The second world is the first with more deliveries, which carry the events in their order, at a
  -- later interaction.
  pub record Sends (evs : List AuditEvent) (s u : World) : Type 0 where
    pub fresh : List Delivery
    pub tick : ℕ
    pub world : u ≡ with_rows s (s.store.deliveries ++ fresh) tick
    pub carry : Carry wh evs fresh
    pub used : Used env tick (s.store.deliveries ++ fresh)

  pub Sends-ticked : (s : World) → Used env s.tick s.store.deliveries → Sends [] s (ticked s)
  Sends-ticked s u =
      let later = s.tick + 1 in
      let rows_same = sym (append-nil s.store.deliveries) in
      record {
        fresh = [];
        tick = later;
        world = ap (λ (ds : List Delivery). with_rows s ds later) rows_same;
        carry = (refl, tt);
        used =
            subst (Used env later) rows_same
              (Used-mono env s.tick later (omega arith) s.store.deliveries u);
      }

  pub Sends-append :
      (a b : List AuditEvent) (s u v : World) → Sends a s u → Sends b u v → Sends (a ++ b) s v
  Sends-append a b s u v h k =
      let t = with_rows s (s.store.deliveries ++ h.fresh) h.tick in
      let k' = subst (λ (w : World). Sends b w v) h.world k in
      let joined = append_assoc s.store.deliveries h.fresh k'.fresh in
      record {
        fresh = h.fresh ++ k'.fresh;
        tick = k'.tick;
        world = k'.world ∙ ap (λ (ds : List Delivery). with_rows s ds k'.tick) joined;
        carry = Carry-append wh a b h.fresh k'.fresh h.carry k'.carry;
        used = subst (Used env k'.tick) joined k'.used;
      }

  pub Sends-used :
      (evs : List AuditEvent) (s u : World) → Sends evs s u → Used env u.tick u.store.deliveries
  Sends-used evs s u h =
      subst (λ (w : World). Used env w.tick w.store.deliveries) (sym h.world) h.used

  pub Sends-audit : (evs : List AuditEvent) (s u : World) → Sends evs s u → u.audit ≡ s.audit
  Sends-audit evs s u h = ap (λ (w : World). w.audit) h.world

module _ (sha256 : Text → Text) (env : Env)
    (distinct : (i j : ℕ) → delivery_id env i ≡ delivery_id env j → i ≡ j)
    (works_all : (n : ℕ) → env.fate n ≡ works) (limit : ℕ) (some_limit : 1 ≤ limit) (at : ℕ)
    (job : ReplayJob) (wh : Webhook) where
  abbrev pub chosen : List AuditEvent → List AuditEvent
  chosen = filter (selects job wh)

  abbrev pub page_end : ℕ → ℕ → ℕ → World → PageEnd
  page_end size cursor total s = if ltb size limit then stop total none s else more cursor total s

  Carry-length :
      (evs : List AuditEvent) (ds : List Delivery) → Carry wh evs ds → length ds ≡ length evs
  Carry-length evs ds h =
      sym (length-map (λ (d : Delivery). d.event) ds) ∙ ap length h.0 ∙ length-map event_from evs

  exec-enqueue :
      (ds : List Delivery) (s : World)
      → exec env (effect (λ t. enqueue t ds)) s
        ≡ (ok tt, moved (enqueue (env.clock s.tick) ds s.store) s)
  exec-enqueue ds s =
      ap (λ (f : Fate). settle f (effect (λ t. enqueue t ds) (env.clock s.tick) s.store) s)
        (works_all s.tick)

  abbrev pub enqueued : List Delivery → World → Result (Unit {0}) × World
  enqueued ds s = if is_empty ds then (ok tt, s) else exec env (effect (λ t. enqueue t ds)) s

  -- The batch of a page is enqueued.
  pub enqueued-Sends :
      (evs : List AuditEvent) (ds : List Delivery) (m cursor size total : ℕ) (s : World)
      → Used env s.tick s.store.deliveries
      → Drawn env s.tick m ds
      → Carry wh evs ds
      → (u : World) × Sends env wh evs s u
        × (after_enqueue env limit size cursor total
              (length ds)
              (enqueued ds (record s { tick = m }))
            ≡ page_end size cursor (total + length evs) u)
  unfolding enqueue
  enqueued-Sends evs [] m cursor size total s used drawn carry =
      let rows_same = sym (append-nil s.store.deliveries) in
      (
        record s { tick = m },
        record {
          fresh = [];
          tick = m;
          world = ap (λ (ds : List Delivery). with_rows s ds m) rows_same;
          carry = carry;
          used =
              subst (Used env m) rows_same (Used-mono env s.tick m drawn s.store.deliveries used);
        },
        ap (λ (n : ℕ). page_end size cursor (total + n) (record s { tick = m }))
            (Carry-length evs [] carry),
      )
  enqueued-Sends evs (d ∷ ds) m cursor size total s used drawn carry =
      let w = record s { tick = m } in
      let now = env.clock m in
      let old = s.store.deliveries in
      let (same, later) = enqueue_rows-Drawn env distinct now s.tick m (d ∷ ds) old used drawn in
      let u = moved (enqueue now (d ∷ ds) w.store) w in
      (
        u,
        record {
          fresh = map (enqueued_row now) (d ∷ ds);
          tick = m + 1;
          world = ap (λ (l : List Delivery). with_rows s l (m + 1)) same;
          carry = Carry-enqueued wh now evs (d ∷ ds) carry;
          used =
              subst (Used env (m + 1)) same
                (Used-mono env m (m + 1) (omega arith) (enqueue_rows now (d ∷ ds) old) later);
        },
        ap (after_enqueue env limit size cursor total (length (d ∷ ds))) (exec-enqueue (d ∷ ds) w)
            ∙ ap (λ (n : ℕ). page_end size cursor (total + n) u) (Carry-length evs (d ∷ ds) carry),
      )
