-- ===== src/Events/Relay/Invariant.antt =====
-- The invariant of the relay's cursors and deliveries (internal/events/relay.go), and its upkeep.
use oneops.Base.{
  ℕ, ◌+◌, ◌≤◌, ◌≡◌, subst, inl, inr, true, none, some, List, [], ◌∷◌, Text, text_eq, text_eq_iff,
  filter, take, find, All, All-imp, All-filter, All-selected, All-take, Some, Bool-cases, arith,
  if◌then◌else◌,
}
use oneops.Domain.AuditTypes.{AuditEvent}
use oneops.Audit.Verifier.Chains.{last_seq}
use oneops.Audit.Tables.{AuditTables, int64_le}
use oneops.Audit.Appender.Sealed.{rows}
use oneops.Audit.Appender.Consistency.{Consistent}
use oneops.Events.Types.{Webhook, Event, Delivery, matches, event_from}
use oneops.Events.Tables.{Cursor, EventTables, get_cursor, set_cursor, write_cursor, is_cursor}
use oneops.Events.World.{Env, World, ticked, moved}
use oneops.Events.Relay.{max_seq}
use oneops.Events.Relay.Pages.{
  backlog, past, backlog-Above, take-covers, filter-covers, Chain-Above, Above-last, max_seq-le,
}
use oneops.Events.Relay.Fanout.{Carries, Notified, Notified-imp, Used, Used-mono}

abbrev found_seq : Text → List Cursor → ℕ
found_seq d rs = elim (find (is_cursor d) rs) [ none ↦ 0 | some r ↦ r.last_seq ]

write_cursor-found :
    (c d : Text) (m : ℕ) (rs : List Cursor)
    → found_seq d (write_cursor (record { chain_id = c; last_seq = m }) rs)
      ≡ (if text_eq c d then m else found_seq d rs)
unfolding write_cursor
write_cursor-found c d m [] = ground arith
write_cursor-found c d m (r ∷ rs) = ground (
  arith,
  write_cursor-found c d m rs,
  text_eq_iff r.chain_id c,
  text_eq_iff r.chain_id d,
  text_eq_iff c d,
)

-- A cursor is what was last written for its chain.
pub get-set_cursor :
    (c d : Text) (m : ℕ) (t : EventTables)
    → get_cursor d (set_cursor c m t) ≡ (if text_eq c d then m else get_cursor d t)
unfolding get_cursor set_cursor
get-set_cursor c d m t = write_cursor-found c d m t.cursors

-- What holds of the new cursor of one chain and of the old cursor of each holds of the new cursors.
set_cursor-each :
    (Q : Text → ℕ → Type 0) (c : Text) (m : ℕ) (t : EventTables)
    → Q c m
    → ((d : Text) → Q d (get_cursor d t))
    → (d : Text) → Q d (get_cursor d (set_cursor c m t))
set_cursor-each Q c m t new old d = rw (get-set_cursor c d m t) (elim (Bool-cases (text_eq c d)) [
  | inl e ↦ rw e (subst (λ (x : Text). Q x m) ((text_eq_iff c d).0 e) new)
  | inr e ↦ rw e (old d)
])

-- Each event of the chain up to a sequence number is notified.
abbrev pub Covered : List Webhook → List Delivery → AuditTables → Text → ℕ → Type 0
Covered hooks ds audit c k =
    All (λ a. int64_le a.seq k ≡ true → Notified hooks ds (event_from a)) (rows c audit)

matches-enabled : (w : Webhook) (ev : Event) → matches w ev ≡ true → w.enabled ≡ true
unfolding matches
matches-enabled w ev m = ground arith

-- Disabled webhooks subscribe to nothing.
pub enabled-Notified :
    (hooks : List Webhook) (ds : List Delivery) (ev : Event)
    → Notified (filter (λ w. w.enabled) hooks) ds ev
    → Notified hooks ds ev
enabled-Notified hooks ds ev h =
    All-imp (λ w. w.enabled ≡ true → matches w ev ≡ true → Some (Carries w ev) ds)
      (λ w. matches w ev ≡ true → Some (Carries w ev) ds) (λ w f m. f (matches-enabled w ev m) m)
      hooks
      (All-filter (λ w. matches w ev ≡ true → Some (Carries w ev) ds) (λ w. w.enabled) hooks h)

module _ (sha256 : Text → Text) (env : Env) (hooks : List Webhook) where
  -- No committed event up to a cursor lacks a delivery to a webhook that subscribes to it.
  pub record Safe (s : World) : Type 0 where
    pub same_hooks : s.store.hooks ≡ hooks
    pub consistent : Consistent sha256 s.audit
    pub used : Used env s.tick s.store.deliveries
    pub covered : (c : Text) → Covered hooks s.store.deliveries s.audit c (get_cursor c s.store)
    pub behind : (c : Text) → int64_le (get_cursor c s.store) (last_seq 0 (rows c s.audit)) ≡ true

  pub Safe-later : (s : World) (n : ℕ) → s.tick ≤ n → Safe s → Safe (record s { tick = n })
  Safe-later s n l k = record {
    same_hooks = k.same_hooks;
    consistent = k.consistent;
    used = Used-mono env s.tick n l s.store.deliveries k.used;
    covered = k.covered;
    behind = k.behind;
  }

  pub Safe-ticked : (s : World) → Safe s → Safe (ticked s)
  Safe-ticked s = Safe-later s (s.tick + 1) (omega arith)

  -- More deliveries with ids that were drawn do no harm.
  pub Safe-more :
      (s : World) (ds : List Delivery)
      → Used env (s.tick + 1) ds
      → ((w : Webhook) (ev : Event)
          → Some (Carries w ev) s.store.deliveries
          → Some (Carries w ev) ds)
      → Safe s
      → Safe (moved (record s.store { deliveries = ds }) s)
  unfolding get_cursor
  Safe-more s ds u f k = record {
    same_hooks = k.same_hooks;
    consistent = k.consistent;
    used = u;
    covered = λ c.
        All-imp
          (λ a.
            int64_le a.seq (get_cursor c s.store) ≡ true
            → Notified hooks s.store.deliveries (event_from a))
          (λ a. int64_le a.seq (get_cursor c s.store) ≡ true → Notified hooks ds (event_from a))
          (λ a g q.
            Notified-imp s.store.deliveries ds (event_from a) (λ w. f w (event_from a)) hooks (g q))
          (rows c s.audit) (k.covered c);
    behind = k.behind;
  }

  module _ (c : Text) (limit : ℕ) (s : World) (k : Safe s) where
    abbrev pub cursor : ℕ
    cursor = get_cursor c s.store

    abbrev pub page : List AuditEvent
    page = take limit (backlog c cursor s.audit)

    page-behind : int64_le (max_seq cursor page) (last_seq 0 (rows c s.audit)) ≡ true
    page-behind =
        let b = last_seq 0 (rows c s.audit) in
        let above = Chain-Above sha256 (rows c s.audit) 0 _ (k.consistent.chain c) in
        max_seq-le b cursor page (k.behind c) (
          All-take (λ e. int64_le e.seq b ≡ true) limit (backlog c cursor s.audit)
            (All-selected (λ e. int64_le e.seq b ≡ true) (past cursor) (rows c s.audit)
              (Above-last 0 (rows c s.audit) above).1))

    -- The cursor may pass a page whose events are all notified.
    pub Safe-set_cursor :
        All (λ a. Notified hooks s.store.deliveries (event_from a)) page
        → Safe (moved (set_cursor c (max_seq cursor page) s.store) s)
    unfolding set_cursor
    Safe-set_cursor told =
        let m = max_seq cursor page in
        let new : Covered hooks s.store.deliveries s.audit c m =
          filter-covers (λ a. Notified hooks s.store.deliveries (event_from a)) cursor m
            (rows c s.audit) (k.covered c)
            (take-covers (λ a. Notified hooks s.store.deliveries (event_from a)) limit cursor
              (backlog c cursor s.audit) (backlog-Above sha256 s.audit k.consistent c cursor)
              told) in
        record {
          same_hooks = k.same_hooks;
          consistent = k.consistent;
          used = Used-mono env s.tick (s.tick + 1) (omega arith) s.store.deliveries k.used;
          covered =
              set_cursor-each (Covered hooks s.store.deliveries s.audit) c m s.store new k.covered;
          behind =
              set_cursor-each (λ d n. int64_le n (last_seq 0 (rows d s.audit)) ≡ true) c m s.store
                page-behind k.behind;
        }
