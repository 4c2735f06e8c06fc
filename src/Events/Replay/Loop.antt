-- ===== src/Events/Replay/Loop.antt =====
-- The loop over the pages of a chain in replayWindow (internal/events/replay.go).
use oneops.Base.{
  ℕ, zero, suc, ◌+◌, ◌<◌, ◌≤◌, ◌≡◌, refl, ap, sym, subst, ◌∙◌, inl, inr, Bool, false, Option, none,
  some, List, [], ◌∷◌, ◌++◌, Text, filter, take, drop, length, Bool-cases, arith, ltb,
  if◌then◌else◌, take-drop, take-short, length-drop, filter-append, length-append, length-take,
}
use oneops.Domain.Errors.{Result, ok}
use oneops.Domain.AuditTypes.{AuditEvent}
use oneops.Audit.Tables.{AuditTables, list_events}
use oneops.Audit.Verifier.Chains.{last_seq}
use oneops.Audit.Appender.Consistency.{Consistent}
use oneops.Events.Types.{Webhook, ReplayJob}
use oneops.Events.World.{Env, World, Fate, works, ticked, answer, query, delivery_id}
use oneops.Events.Relay.Pages.{backlog, backlog-Above, list_events-backlog}
use oneops.Events.Relay.Fanout.{Used, Used-mono}
use oneops.Events.Replay.{
  PageEnd, stop, more, Replayed, selects, replay_batch, next_cursor, replay_page_events,
  replay_page, next_page, replay_pages,
}
use oneops.Events.Replay.Pages.{replay_batch-Carry, backlog-drop, next_cursor-last}
use oneops.Events.Replay.Sends.{
  Sends, Sends-ticked, Sends-append, Sends-used, Sends-audit, enqueued-Sends,
}

module _ (sha256 : Text → Text) (env : Env)
    (distinct : (i j : ℕ) → delivery_id env i ≡ delivery_id env j → i ≡ j)
    (works_all : (n : ℕ) → env.fate n ≡ works) (limit : ℕ) (some_limit : 1 ≤ limit) (at : ℕ)
    (job : ReplayJob) (wh : Webhook) where
  abbrev chosen : List AuditEvent → List AuditEvent
  chosen = filter (selects job wh)

  abbrev page_end : ℕ → ℕ → ℕ → World → PageEnd
  page_end size cursor total s = if ltb size limit then stop total none s else more cursor total s

  module _ (c : Text) where
    -- The rows of the chain past a cursor.
    abbrev left : ℕ → World → List AuditEvent
    left k s = backlog c k s.audit

    query-page :
        (k : ℕ) (s : World)
        → Consistent sha256 s.audit
        → query env (λ w. ok (list_events c k false limit [] w.audit)) s
          ≡ (ok (take limit (left k s)), ticked s)
    query-page k s t =
        ap (λ (f : Fate). answer f (ok (list_events c k false limit [] s.audit)) s)
          (works_all s.tick)
        ∙ ap (λ (l : List AuditEvent). (ok l, ticked s))
            (list_events-backlog sha256 s.audit t c k limit)

    -- What a page answers: nothing is left, or the page is sent.
    abbrev Turn : List AuditEvent → ℕ → ℕ → World → PageEnd → Type 0
    Turn [] k total s r = r ≡ stop total none (ticked s)
    Turn (a ∷ evs) k total s r =
        (u : World) × Sends env wh (chosen (a ∷ evs)) (ticked s) u
        × (r
            ≡ page_end (length (a ∷ evs)) (last_seq k (a ∷ evs)) (total + length (chosen (a ∷ evs)))
                u)

    page-Turn :
        (page : List AuditEvent) (k total : ℕ) (s : World)
        → Used env s.tick s.store.deliveries
        → Turn page k total s (replay_page_events env limit at job wh k total (ok page, ticked s))
    unfolding replay_page_events
    page-Turn [] k total s used = refl
    page-Turn (a ∷ evs) k total s used =
        let s₁ = ticked s in
        let later = Used-mono env s.tick (s.tick + 1) (omega arith) s.store.deliveries used in
        let g = replay_batch env at job wh (a ∷ evs) s₁.tick in
        let (drawn, carry) = replay_batch-Carry env at job wh (a ∷ evs) s₁.tick in
        let (u, sends, r) =
          enqueued-Sends sha256 env distinct works_all limit some_limit at job wh (chosen (a ∷ evs))
            g.0 g.1 (next_cursor k (a ∷ evs)) (length (a ∷ evs)) total s₁ later drawn carry in
        (
          u,
          sends,
          r
              ∙ ap (λ (n : ℕ). page_end (length (a ∷ evs)) n (total + length (chosen (a ∷ evs))) u)
                  (next_cursor-last k (a ∷ evs)),
        )

    -- The loop over the pages sends the chosen rows that are left.
    abbrev SendsRest : ℕ → ℕ → ℕ → World → Type 0
    SendsRest fuel k total s =
        (u : World) × Sends env wh (chosen (left k s)) s u
        × (replay_pages env limit fuel at job wh c k total s
            ≡ some (total + length (chosen (left k s)), none, u))

    abbrev rest : ℕ → ℕ → ℕ → World → Option Replayed
    rest fuel k total s = replay_pages env limit fuel at job wh c k total s

    -- The first page and the rest are all that is left.
    chosen-split :
        (k : ℕ) (s : World)
        → chosen (take limit (left k s)) ++ chosen (drop limit (left k s)) ≡ chosen (left k s)
    chosen-split k s =
        sym (filter-append (selects job wh) (take limit (left k s)) (drop limit (left k s)))
        ∙ ap chosen (take-drop limit (left k s))

    whole-page :
        (fuel k total : ℕ) (s u : World)
        → Sends env wh (chosen (take limit (left k s))) s u
        → length (take limit (left k s)) < limit
        → rest fuel k total s ≡ some (total + length (chosen (take limit (left k s))), none, u)
        → SendsRest fuel k total s
    whole-page fuel k total s u sends short r =
        subst
          (λ (l : List AuditEvent).
            (u : World) × Sends env wh (chosen l) s u
            × (rest fuel k total s ≡ some (total + length (chosen l), none, u)))
          (take-short limit (left k s) short) (u, sends, r)

    more-pages :
        (fuel k total : ℕ) (s u : World)
        → Sends env wh (chosen (take limit (left k s))) s u
        → let k' = last_seq k (take limit (left k s)) in
          let total' = total + length (chosen (take limit (left k s))) in
          Consistent sha256 s.audit
          → SendsRest fuel k' total' u
          → rest (suc fuel) k total s ≡ rest fuel k' total' u
          → SendsRest (suc fuel) k total s
    more-pages fuel k total s u sends t (v, later, r) step =
        let k' = last_seq k (take limit (left k s)) in
        let a = chosen (take limit (left k s)) in
        let b = chosen (drop limit (left k s)) in
        let after : chosen (left k' u) ≡ b =
          ap (λ (x : AuditTables). chosen (backlog c k' x)) (Sends-audit env wh a s u sends)
          ∙ ap chosen (backlog-drop c limit k s.audit (backlog-Above sha256 s.audit t c k)) in
        let both =
          Sends-append env wh a b s u v sends
            (subst (λ (l : List AuditEvent). Sends env wh l u v) after later) in
        let count : total + length a + length (chosen (left k' u)) ≡ total + length (a ++ b) =
          ap (λ (l : List AuditEvent). total + length a + length l) after
          ∙ omega (arith, length-append a b) in
        subst
          (λ (l : List AuditEvent).
            (v : World) × Sends env wh l s v
            × (rest (suc fuel) k total s ≡ some (total + length l, none, v)))
          (chosen-split k s) (v, both, step ∙ r ∙ ap (λ (n : ℕ). some (n, none, v)) count)

    -- One turn of the loop, where the later turns send what is left after it.
    turn-Sends :
        (fuel k total : ℕ) (s : World)
        → Consistent sha256 s.audit
        → Used env s.tick s.store.deliveries
        → length (left k s) < suc fuel
        → ((k total : ℕ) (u : World)
            → Consistent sha256 u.audit
            → Used env u.tick u.store.deliveries
            → length (left k u) < fuel
            → SendsRest fuel k total u)
        → (page : List AuditEvent) → page ≡ take limit (left k s)
        → rest (suc fuel) k total s
          ≡ next_page env limit
              (replay_page_events env limit at job wh k total (ok page, ticked s))
              (λ k t w. rest fuel k t w)
        → SendsRest (suc fuel) k total s
    turn-Sends fuel k total s t used enough later [] p step =
        let short : length (take limit (left k s)) < limit =
          omega (arith, ap length p, some_limit) in
        whole-page (suc fuel) k total s (ticked s)
          (subst (λ (l : List AuditEvent). Sends env wh (chosen l) s (ticked s)) p
            (Sends-ticked env wh s used))
          short
          (step
            ∙ ap (λ (r : PageEnd). next_page env limit r (λ k t w. rest fuel k t w))
                (page-Turn [] k total s used)
            ∙ ap (λ (n : ℕ). some (n, none, ticked s)) (omega arith)
            ∙ ap (λ (l : List AuditEvent). some (total + length (chosen l), none, ticked s)) p)
    turn-Sends fuel k total s t used enough later (a ∷ evs) p step =
        let page = a ∷ evs in
        let (u, sent, r) = page-Turn page k total s used in
        let sends : Sends env wh (chosen (take limit (left k s))) s u =
          subst (λ (l : List AuditEvent). Sends env wh (chosen l) s u) p
            (Sends-append env wh [] (chosen page) s (ticked s) u (Sends-ticked env wh s used)
              sent) in
        let turned =
          step ∙ ap (λ (r : PageEnd). next_page env limit r (λ k t w. rest fuel k t w)) r in
        elim (Bool-cases (ltb (length page) limit)) [
          | inl e ↦
              let short : length page < limit = ground (arith, e) in
              whole-page (suc fuel) k total s u sends
                (subst (λ (l : List AuditEvent). length l < limit) p short)
                (turned
                  ∙ ap
                      (λ (b : Bool).
                        next_page env limit
                          (if b
                            then stop (total + length (chosen page)) none u
                            else more (last_seq k page) (total + length (chosen page)) u)
                          (λ k t w. rest fuel k t w))
                      e
                  ∙ ap (λ (l : List AuditEvent). some (total + length (chosen l), none, u)) p)
          | inr e ↦
              let k' = last_seq k (take limit (left k s)) in
              let total' = total + length (chosen (take limit (left k s))) in
              let audit = Sends-audit env wh (chosen (take limit (left k s))) s u sends in
              let t' = subst (Consistent sha256) (sym audit) t in
              let after : left k' u ≡ drop limit (left k s) =
                ap (λ (x : AuditTables). backlog c k' x) audit
                ∙ backlog-drop c limit k s.audit (backlog-Above sha256 s.audit t c k) in
              let full : limit ≤ length page = ground (arith, e) in
              let size = ap length p in
              let fewer : length (left k' u) < fuel = omega (
                arith,
                ap length after,
                length-drop limit (left k s),
                enough,
                some_limit,
                full,
                size,
                length-take limit (left k s),
              ) in
              more-pages fuel k total s u sends t
                (later k' total' u t' (Sends-used env wh (chosen (take limit (left k s))) s u sends)
                  fewer)
                (turned
                  ∙ ap
                      (λ (b : Bool).
                        next_page env limit
                          (if b
                            then stop (total + length (chosen page)) none u
                            else more (last_seq k page) (total + length (chosen page)) u)
                          (λ k t w. rest fuel k t w))
                      e
                  ∙ ap
                      (λ (l : List AuditEvent).
                        rest fuel (last_seq k l) (total + length (chosen l)) u)
                      p)
        ]

    -- With more fuel than rows left, the loop over the pages ends.
    pub pages-Sends :
        (fuel k total : ℕ) (s : World)
        → Consistent sha256 s.audit
        → Used env s.tick s.store.deliveries
        → length (left k s) < fuel
        → SendsRest fuel k total s
    unfolding replay_pages replay_page
    pages-Sends zero k total s t used enough = absurd (omega arith)
    pages-Sends (suc fuel) k total s t used enough =
        turn-Sends fuel k total s t used enough (λ k n u. pages-Sends fuel k n u)
          (take limit (left k s)) refl
          (ap
            (λ (q : Result (List AuditEvent) × World).
              next_page env limit (replay_page_events env limit at job wh k total q)
                (λ k t w. rest fuel k t w))
            (query-page k s t))
