-- ===== src/Events/Runs/NoLoss.antt =====
-- The relay's invariant (internal/events/relay.go) over the runs of the event system.
use oneops.Base.{
  ℕ, ◌+◌, ◌≡◌, ◌≢◌, refl, sym, subst, ◌∙◌, inl, inr, Bool, true, List, [], ◌∷◌, Text, text_eq,
  text_eq_iff, map, All, All-append, All-imp, filter, filter-All, Some, Some-map, Bool-cases, arith,
  if◌then◌else◌,
}
use oneops.Domain.Errors.{Result, ok, err, Result-cases}
use oneops.Domain.AuditTypes.{AuditEvent}
use oneops.Audit.Hash.{int64_lt}
use oneops.Audit.Verifier.Chains.{last_seq}
use oneops.Audit.Resolve.{AppendInput}
use oneops.Audit.Tables.{AuditTables, int64_le}
use oneops.Audit.Appender.{audit_store, append_tx, append}
use oneops.Audit.Appender.Sealed.{rows, Appended, append_tx-Appended}
use oneops.Audit.Appender.Consistency.{Appended-Consistent, own_rows, other_rows}
use oneops.Events.Types.{ReplayJob, Webhook, Delivery, DeliveryStatus, matches, event_from}
use oneops.Events.Tables.{get_cursor, is_delivery, marked, mark_result}
use oneops.Events.World.{Env, World, effect, exec-world, delivery_id}
use oneops.Events.Relay.Pages.{Above, Above-append, last_seq-append, Chain-Above}
use oneops.Events.Relay.Fanout.{Carries, Notified, Used, Used-mono}
use oneops.Events.Relay.Invariant.{Safe, Safe-ticked, Safe-more, Covered}
use oneops.Events.Relay.NoLoss.{relay_run_once-Safe}
use oneops.Events.Dispatcher.{Wire, DispatcherConfig, mark}
use oneops.Events.Dispatcher.Keeps.{dispatch_run_once-keeps}
use oneops.Events.Runs.{start, Step, relays, dispatches, commits, Run, here, there}

module _ (sha256 : Text → Text) (jsonb_ok : Text → Bool) (env : Env) where
  module _ (hooks : List Webhook) where
    abbrev touch : (x : Text) → (Delivery → Delivery) → Delivery → Delivery
    touch x g d = if is_delivery x d then g d else d

    Used-touch :
        (x : Text) (g : Delivery → Delivery) (m : ℕ)
        → ((d : Delivery) → (g d).id ≡ d.id)
        → (ds : List Delivery) → Used env m ds
        → Used env m (map (touch x g) ds)
    Used-touch x g m same [] u = tt
    Used-touch x g m same (d ∷ ds) u = elim (Bool-cases (is_delivery x d)) [
      | inl e ↦ rw e ((u.0.0, u.0.1, same d ∙ u.0.2), Used-touch x g m same ds u.1)
      | inr e ↦ rw e (u.0, Used-touch x g m same ds u.1)
    ]

    mark-Safe :
        (wire : Wire) (cfg : DispatcherConfig) (x : Text) (status : DeliveryStatus)
        (retry code last next : ℕ) (s : World)
        → Safe sha256 env hooks s
        → Safe sha256 env hooks (mark wire env cfg x status retry code last next s)
    unfolding mark mark_result
    mark-Safe wire cfg x status retry code last next s safe =
        let g = marked status retry code last next in
        exec-world env (Safe sha256 env hooks)
          (effect (λ at. mark_result x status retry code last next)) s
          (Safe-ticked sha256 env hooks s safe)
          (Safe-more sha256 env hooks s (map (touch x g) s.store.deliveries)
            (Used-mono env s.tick (s.tick + 1) (omega arith) (map (touch x g) s.store.deliveries)
              (Used-touch x g s.tick (λ d. refl) s.store.deliveries safe.used))
            (λ w ev h.
              Some-map (Carries w ev) (touch x g)
                (λ d c. elim (Bool-cases (is_delivery x d)) [ inl e ↦ rw e c | inr e ↦ rw e c ])
                s.store.deliveries h)
            safe)

    module _ (e : AppendInput) (s : World) (u : AuditTables) (event : AuditEvent)
        (a : Appended sha256 jsonb_ok e s.audit u event) (safe : Safe sha256 env hooks s) where
      abbrev own : Text
      own = e.chain_id

      -- The new row is past the last row of its chain.
      event-past : int64_lt (last_seq 0 (rows own s.audit)) event.seq ≡ true
      event-past =
          let k = Appended-Consistent sha256 jsonb_ok e s.audit u event a safe.consistent in
          Above-append 0 (rows own s.audit) event (
            subst (Above 0) (own_rows sha256 jsonb_ok e s.audit u event a)
              (Chain-Above sha256 (rows own u) 0 _ (k.chain own)))

      -- What the invariant says of a chain after the append.
      record AfterAppend (c : Text) : Type 0 where
        covered : Covered hooks s.store.deliveries u c (get_cursor c s.store)
        behind : int64_le (get_cursor c s.store) (last_seq 0 (rows c u)) ≡ true

      own_chain : AfterAppend own
      own_chain =
          let k = get_cursor own s.store in
          let grown = own_rows sha256 jsonb_ok e s.audit u event a in
          let b = safe.behind own in
          let p = event-past in
          let Told = λ (x : AuditEvent).
            int64_le x.seq k ≡ true → Notified hooks s.store.deliveries (event_from x) in
          record {
            covered = subst (All Told) (sym grown) (
                All-append Told (rows own s.audit) (event ∷ []) (safe.covered own)
                  ((λ q. absurd (ground (arith, b, p, q))), tt));
            behind =
                subst (λ (l : List AuditEvent). int64_le k (last_seq 0 l) ≡ true) (sym grown)
                  (rw (last_seq-append 0 (rows own s.audit) event) (ground (arith, b, p)));
          }

      other_chain : (c : Text) → c ≢ own → AfterAppend c
      other_chain c ne =
          let same = other_rows sha256 jsonb_ok e s.audit u event a c ne in
          record {
            covered =
                subst
                  (All (λ x.
                    int64_le x.seq (get_cursor c s.store) ≡ true
                    → Notified hooks s.store.deliveries (event_from x)))
                  (sym same) (safe.covered c);
            behind =
                subst
                  (λ (l : List AuditEvent). int64_le (get_cursor c s.store) (last_seq 0 l) ≡ true)
                  (sym same) (safe.behind c);
          }

      each_chain : (c : Text) → AfterAppend c
      each_chain c = elim (Bool-cases (text_eq c own)) [
        | inl q ↦ subst AfterAppend (sym ((text_eq_iff c own).0 q)) own_chain
        | inr q ↦ other_chain c (λ p. cc (q, (text_eq_iff c own).1 p))
      ]

      appended-Safe : Safe sha256 env hooks (record s { audit = u })
      appended-Safe = record {
        same_hooks = safe.same_hooks;
        consistent = Appended-Consistent sha256 jsonb_ok e s.audit u event a safe.consistent;
        used = safe.used;
        covered = λ c. (each_chain c).covered;
        behind = λ c. (each_chain c).behind;
      }

    commit-Safe :
        (begun committed : Result (Unit {0})) (e : AppendInput) (s : World)
        → Safe sha256 env hooks s
        → Safe sha256 env hooks (record s {
          audit = (append sha256 (audit_store jsonb_ok) begun committed e s.audit).1;
        })
    unfolding append
    commit-Safe (err x) committed e s safe = safe
    commit-Safe (ok b) (err x) e s safe =
        elim (Result-cases (append_tx sha256 (audit_store jsonb_ok) e s.audit)) [
          | inl (done, got) ↦ rw got safe
          | inr (y, got) ↦ rw got safe
        ]
    commit-Safe (ok b) (ok c) e s safe =
        elim (Result-cases (append_tx sha256 (audit_store jsonb_ok) e s.audit)) [
          | inl ((event, u), got) ↦ rw got (
              appended-Safe e s u event (append_tx-Appended sha256 jsonb_ok e s.audit u event got)
                safe)
          | inr (x, got) ↦ rw got safe
        ]

    start-Safe : (jobs : List ReplayJob) → Safe sha256 env hooks (start hooks jobs)
    unfolding get_cursor
    start-Safe jobs = record {
      same_hooks = refl;
      consistent = record { chain = λ d. tt; next = λ d. refl; last = λ d. refl };
      used = tt;
      covered = λ c. tt;
      behind = λ c. refl;
    }

    module _ (distinct : (i j : ℕ) → delivery_id env i ≡ delivery_id env j → i ≡ j) where
      Step-Safe :
          {s u : World}
          → Step sha256 jsonb_ok env s u
          → Safe sha256 env hooks s
          → Safe sha256 env hooks u
      Step-Safe (relays limit) safe = relay_run_once-Safe sha256 env distinct hooks limit _ safe
      Step-Safe (dispatches wire cfg) safe =
          dispatch_run_once-keeps wire env cfg (Safe sha256 env hooks)
            (Safe-ticked sha256 env hooks) (λ d. mark-Safe wire cfg d.id) _ safe
      Step-Safe (commits begun committed e) safe = commit-Safe begun committed e _ safe

      Run-Safe :
          {s u : World}
          → Run sha256 jsonb_ok env s u
          → Safe sha256 env hooks s
          → Safe sha256 env hooks u
      Run-Safe here safe = safe
      Run-Safe (there step run) safe = Run-Safe run (Step-Safe step safe)

      -- Where delivery ids do not repeat, after any run from an empty audit log and no deliveries,
      -- whatever calls fail or lose their answer on the way, each event of a chain up to the relay's
      -- cursor has a delivery to each registered webhook that matches it.
      pub Run-notified :
          {s : World} (jobs : List ReplayJob)
          → Run sha256 jsonb_ok env (start hooks jobs) s
          → (c : Text)
          → All
              (λ a.
                All
                  (λ w. Some (Carries w (event_from a)) s.store.deliveries)
                  (filter (λ w. matches w (event_from a)) hooks))
              (filter (λ a. int64_le a.seq (get_cursor c s.store)) (rows c s.audit))
      Run-notified {s} jobs run c =
          let told = λ (a : AuditEvent). Notified hooks s.store.deliveries (event_from a) in
          let each = λ (a : AuditEvent).
            All (λ w. Some (Carries w (event_from a)) s.store.deliveries)
              (filter (λ w. matches w (event_from a)) hooks) in
          All-imp told each
            (λ a.
              filter-All (λ w. Some (Carries w (event_from a)) s.store.deliveries)
                (λ w. matches w (event_from a)) hooks)
            (filter (λ a. int64_le a.seq (get_cursor c s.store)) (rows c s.audit))
            (filter-All told (λ a. int64_le a.seq (get_cursor c s.store)) (rows c s.audit)
              ((Run-Safe run (start-Safe jobs)).covered c))
