-- ===== src/Events/Replay/Window.antt =====
-- replayWindow (internal/events/replay.go) against the rows of the audit log.
use oneops.Domain.Errors.{cancelled}
use oneops.Audit.Tables.{in_chain}
use oneops.Events.Replay.Sends.{with_rows}
use oneops.Base.{filter-every, length-filter}
use oneops.Events.Relay.Pages.{past, Above-All, Chain-Above}
use oneops.Base.{
  ℕ, ◌+◌, ◌<◌, ◌≤◌, ◌≡◌, refl, ap, sym, subst, ◌∙◌, Bool, false, Option, none, some, List, [], ◌∷◌,
  ◌++◌, Text, filter, length, arith, if◌then◌else◌, length-append, append-nil,
}
use oneops.Domain.Errors.{Result, ok}
use oneops.Domain.AuditTypes.{AuditEvent}
use oneops.Audit.Tables.{AuditTables, list_chain_ids}
use oneops.Audit.Appender.Sealed.{rows}
use oneops.Audit.Appender.Consistency.{Consistent}
use oneops.Events.Types.{Webhook, Delivery, ReplayJob}
use oneops.Events.Tables.{get_webhook}
use oneops.Events.World.{Env, World, Fate, works, ticked, answer, query, delivery_id}
use oneops.Events.Relay.Pages.{backlog}
use oneops.Events.Relay.Fanout.{Used, Used-mono}
use oneops.Events.Replay.{
  Replayed, selects, replay_pages, replay_chains, replay_over, replay_hook, replay_window, go_on,
}
use oneops.Events.Replay.Sends.{Sends, Sends-append, Sends-used, Sends-audit}
use oneops.Events.Replay.Loop.{pages-Sends}

-- The committed events that a job is about: those in its window that match its webhook, chain by chain.
abbrev pub window_events : ReplayJob → Webhook → AuditTables → List Text → List AuditEvent
window_events job wh t [] = []
window_events job wh t (c ∷ chains) =
    filter (selects job wh) (rows c t) ++ window_events job wh t chains

module _ (sha256 : Text → Text) (env : Env)
    (distinct : (i j : ℕ) → delivery_id env i ≡ delivery_id env j → i ≡ j)
    (works_all : (n : ℕ) → env.fate n ≡ works) (goes_on : (n : ℕ) → env.cancelled n ≡ false)
    (limit : ℕ) (some_limit : 1 ≤ limit) (job : ReplayJob) (wh : Webhook) where
  -- A world may be looked at at an earlier interaction.
  Sends-from :
      (evs : List AuditEvent) (n : ℕ) (s u : World)
      → Sends env wh evs (record s { tick = n }) u
      → Sends env wh evs s u
  Sends-from evs n s u h = record {
    fresh = h.fresh;
    tick = h.tick;
    world = h.world;
    carry = h.carry;
    used = h.used;
  }

  Sends-nothing : (s : World) → Used env s.tick s.store.deliveries → Sends env wh [] s s
  Sends-nothing s used =
      let same = sym (append-nil s.store.deliveries) in
      record {
        fresh = [];
        tick = s.tick;
        world = ap (λ (ds : List Delivery). with_rows s ds s.tick) same;
        carry = (refl, tt);
        used = subst (Used env s.tick) same used;
      }

  all_left : (c : Text) (t : AuditTables) → Consistent sha256 t → backlog c 0 t ≡ rows c t
  all_left c t k =
      filter-every (past 0) (rows c t)
        (Above-All 0 (rows c t) (Chain-Above sha256 (rows c t) 0 _ (k.chain c)))

  chains-Sends :
      (at fuel : ℕ) (chains : List Text) (total : ℕ) (s : World)
      → Consistent sha256 s.audit
      → Used env s.tick s.store.deliveries
      → length s.audit.events < fuel
      → let evs = window_events job wh s.audit chains in
        (u : World) × Sends env wh evs s u
        × (replay_chains env limit fuel at job wh chains total s
            ≡ some (total + length evs, none, u))
  unfolding replay_chains
  chains-Sends at fuel [] total s t used enough =
      (s, Sends-nothing s used, ap (λ (n : ℕ). some (n, none, s)) (omega arith))
  chains-Sends at fuel (c ∷ chains) total s t used enough =
      let s₁ = ticked s in
      let used₁ = Used-mono env s.tick (s.tick + 1) (omega arith) s.store.deliveries used in
      let mine = filter (selects job wh) (rows c s.audit) in
      let all = all_left c s.audit t in
      let fits : length (backlog c 0 s.audit) < fuel =
        omega (arith, ap length all, enough, length-filter (in_chain c) s.audit.events) in
      let (u, sent, paged) =
        pages-Sends sha256 env distinct works_all limit some_limit at job wh c fuel 0 total s₁ t
          used₁ fits in
      let sends : Sends env wh mine s₁ u =
        subst (λ (l : List AuditEvent). Sends env wh (filter (selects job wh) l) s₁ u) all sent in
      let audit = Sends-audit env wh mine s₁ u sends in
      let others = window_events job wh u.audit chains in
      let (v, later, r) =
        chains-Sends at fuel chains (total + length mine) u
          (subst (Consistent sha256) (sym audit) t) (Sends-used env wh mine s₁ u sends)
          (subst (λ (x : AuditTables). length x.events < fuel) (sym audit) enough) in
      let rest = λ (n : ℕ) (w : World). replay_chains env limit fuel at job wh chains n w in
      let pages = replay_pages env limit fuel at job wh c 0 total s₁ in
      let step : replay_chains env limit fuel at job wh (c ∷ chains) total s
          ≡ rest (total + length mine) u =
        ap
          (λ (b : Bool). if b then some (total, some cancelled, s₁) else go_on env limit pages rest)
          (goes_on s.tick)
        ∙ ap (λ (o : Option Replayed). go_on env limit o rest) paged
        ∙ ap (λ (l : List AuditEvent). rest (total + length (filter (selects job wh) l)) u) all in
      let count : total + length mine + length others ≡ total + length (mine ++ others) =
        omega (arith, length-append mine others) in
      subst
        (λ (x : AuditTables).
          let evs = mine ++ window_events job wh x chains in
          (v : World) × Sends env wh evs s v
          × (replay_chains env limit fuel at job wh (c ∷ chains) total s
              ≡ some (total + length evs, none, v)))
        audit
        (
          v,
          Sends-from (mine ++ others) (s.tick + 1) s v
              (Sends-append env wh mine others s₁ u v sends later),
          step ∙ r ∙ ap (λ (n : ℕ). some (n, none, v)) count,
        )

  -- Let every call of the database work, the context never be cancelled, no two interactions draw the
  -- same delivery id, the deliveries that are there have ids drawn before, a page hold at least one
  -- event, the audit chains be consistent, the webhook of the job be found, and the fuel be more than
  -- there are audit events. Then replayWindow ends without an error, and it has enqueued exactly the
  -- events of the window that match the webhook, each once, chain by chain in the order of their
  -- sequence numbers, whatever the size of a page; its count is theirs, and nothing else has changed.
  pub replay_window-exact :
      (fuel : ℕ) (s : World)
      → Consistent sha256 s.audit
      → Used env s.tick s.store.deliveries
      → get_webhook job.webhook_id s.store ≡ ok wh
      → length s.audit.events < fuel
      → let evs = window_events job wh s.audit (list_chain_ids s.audit) in
        (u : World) × Sends env wh evs s u
        × (replay_window env limit fuel job s ≡ some (length evs, none, u))
  unfolding replay_window replay_hook replay_over
  replay_window-exact fuel s t used found enough =
      let s₁ = ticked s in
      let s₂ = ticked s₁ in
      let s₃ = ticked s₂ in
      let ids = list_chain_ids s.audit in
      let evs = window_events job wh s.audit ids in
      let hook : query env (λ w. get_webhook job.webhook_id w.store) s ≡ (ok wh, s₁) =
        ap (λ (f : Fate). answer f (get_webhook job.webhook_id s.store) s) (works_all s.tick)
        ∙ ap (λ (r : Result Webhook). (r, s₁)) found in
      let listed : query env (λ w. ok (list_chain_ids w.audit)) s₁ ≡ (ok ids, s₂) =
        ap (λ (f : Fate). answer f (ok ids) s₁) (works_all s₁.tick) in
      let used₃ = Used-mono env s.tick s₃.tick (omega arith) s.store.deliveries used in
      let (u, sends, r) = chains-Sends (env.clock s₂.tick) fuel ids 0 s₃ t used₃ enough in
      (
        u,
        Sends-from evs s₃.tick s u sends,
        ap (replay_hook env limit fuel job) hook
            ∙ ap (replay_over env limit fuel job wh) listed
            ∙ r
            ∙ ap (λ (n : ℕ). some (n, none, u)) (omega arith),
      )
