-- ===== src/Events/Dispatcher/Claims.antt =====
-- Which rows a pass of the dispatcher touches (internal/events/dispatcher.go over
-- internal/store/postgres/webhook_store.go).
use oneops.Base.{
  ℕ, ◌≡◌, refl, ap, sym, ◌∙◌, inl, inr, Bool, false, none, some, List, [], ◌∷◌, Text, text_eq,
  text_eq_iff, filter, any, find, map, All, All-take, Bool-cases, arith, if◌then◌else◌, Option,
  subst, All-selected, any-false-All, Option-cases,
}
use oneops.Base.Sorting.{sort_by, All-sort_by}
use oneops.Domain.Errors.{ok, ok_inj}
use oneops.Audit.Appender.{truncate_micros}
use oneops.Events.Types.{Delivery, DeliveryStatus}
use oneops.Events.Tables.{
  EventTables, is_delivery, is_due, due_order, marked, mark_result, get_delivery, claim_due,
}
use oneops.Events.World.{Env, World, ticked, now, effect, or_return-query, exec-world}
use oneops.Events.Dispatcher.Keeps.{attempt-keeps}
use oneops.Events.Dispatcher.{DispatcherConfig, Wire, mark, attempt, attempts, dispatch_run_once}

-- The primary key of webhook_delivery.
abbrev pub Unique : List Delivery → Type 0
Unique [] = Unit
Unique (d ∷ ds) = (any (is_delivery d.id) ds ≡ false) × Unique ds

-- The first row of an id after a change of the rows of one id.
abbrev pub changed : Text → (Delivery → Delivery) → Text → Option Delivery → Option Delivery
changed x g y none = none
changed x g y (some d) = some (if text_eq x y then g d else d)

pub find-map :
    (x y : Text) (g : Delivery → Delivery)
    → ((d : Delivery) → (g d).id ≡ d.id)
    → (rows : List Delivery)
    → find (is_delivery y) (map (λ d. if is_delivery x d then g d else d) rows)
      ≡ changed x g y (find (is_delivery y) rows)
find-map x y g same [] = refl
find-map x y g same (d ∷ rows) = ground (
  arith,
  find-map x y g same rows,
  same d,
  text_eq_iff d.id x,
  text_eq_iff d.id y,
  text_eq_iff x y,
  text_eq_iff (g d).id y,
)

-- `GetDelivery` after `MarkResult`
pub get_delivery-mark_result :
    (x y : Text) (status : DeliveryStatus) (retry code last next : ℕ) (t : EventTables)
    → get_delivery y (mark_result x status retry code last next t)
      ≡ changed x (marked status retry code last next) y (get_delivery y t)
unfolding get_delivery mark_result
get_delivery-mark_result x y status retry code last next t =
    find-map x y (marked status retry code last next) (λ d. refl) t.deliveries

-- The rows that pass a test have other ids than a row that fails it.
Unique-filter :
    (p : Delivery → Bool) (x : Text) (r : Delivery) (rows : List Delivery)
    → Unique rows
    → find (is_delivery x) rows ≡ some r
    → p r ≡ false
    → All (λ d. text_eq d.id x ≡ false) (filter p rows)
Unique-filter p x r [] u f q = tt
Unique-filter p x r (d ∷ rows) u f q = elim (Bool-cases (text_eq d.id x)) [
  | inl e ↦
      let here : d ≡ r = ground (arith, f, e) in
      let id : d.id ≡ x = (text_eq_iff d.id x).0 e in
      let others : All (λ a. text_eq a.id x ≡ false) rows =
        subst (λ (y : Text). All (λ a. text_eq a.id y ≡ false) rows) id
          (any-false-All (is_delivery d.id) rows u.0) in
      let out : p d ≡ false = ap p here ∙ q in
      rw out (All-selected (λ a. text_eq a.id x ≡ false) p rows others)
  | inr e ↦
      let found : find (is_delivery x) rows ≡ some r = rw e at f in
      elim (Bool-cases (p d)) [
        | inl t ↦ rw t (e, Unique-filter p x r rows u.1 found q)
        | inr t ↦ rw t (Unique-filter p x r rows u.1 found q)
      ]
]

-- A pass claims no row with the id of a row that is not due.
claim_due-other :
    (now limit : ℕ) (x : Text) (r : Delivery) (t : EventTables)
    → Unique t.deliveries
    → get_delivery x t ≡ some r
    → is_due (truncate_micros now) r ≡ false
    → All (λ d. text_eq d.id x ≡ false) (claim_due now limit t)
unfolding claim_due get_delivery
claim_due-other now limit x r t u f q =
    let due = is_due (truncate_micros now) in
    All-take (λ d. text_eq d.id x ≡ false) limit (sort_by due_order (filter due t.deliveries))
      (All-sort_by due_order (λ d. text_eq d.id x ≡ false) (filter due t.deliveries)
        (Unique-filter due x r t.deliveries u f q))

module _ (wire : Wire) (env : Env) (cfg : DispatcherConfig) (x : Text) (row : Option Delivery) where
  abbrev Holds : World → Type 0
  Holds s = get_delivery x s.store ≡ row

  mark-other :
      (id : Text) (status : DeliveryStatus) (retry code last next : ℕ) (s : World)
      → text_eq id x ≡ false
      → Holds s
      → Holds (mark wire env cfg id status retry code last next s)
  unfolding mark
  mark-other id status retry code last next s ne h =
      exec-world env Holds (effect (λ at. mark_result id status retry code last next)) s h (
        get_delivery-mark_result id x status retry code last next s.store
        ∙ elim (Option-cases (get_delivery x s.store)) [
          | inl e ↦ rw e (sym e ∙ h)
          | inr (d, e) ↦ rw (e, ne) (sym e ∙ h)
        ])

  attempts-other :
      (due : List Delivery) (s : World)
      → All (λ d. text_eq d.id x ≡ false) due
      → Holds s
      → Holds (attempts wire env cfg due s)
  unfolding attempts
  attempts-other [] s ne h = h
  attempts-other (d ∷ due) s ne h = elim (Bool-cases (env.cancelled s.tick)) [
    | inl e ↦ rw e h
    | inr e ↦ rw e (
        attempts-other due (attempt wire env cfg d (ticked s)).2 ne.1 (
          attempt-keeps wire env cfg Holds (λ w k. k) d
            (λ status retry code last next w. mark-other d.id status retry code last next w ne.0)
            (ticked s) h))
  ]

-- A pass leaves every row that is not due as it is: one delivered or dead, and one whose next attempt
-- lies ahead.
pub dispatch_run_once-not_due :
    (wire : Wire) (env : Env) (cfg : DispatcherConfig) (s : World) (x : Text) (r : Delivery)
    → Unique s.store.deliveries
    → get_delivery x s.store ≡ some r
    → is_due (truncate_micros (env.clock s.tick)) r ≡ false
    → get_delivery x (dispatch_run_once wire env cfg s).store ≡ some r
unfolding dispatch_run_once
dispatch_run_once-not_due wire env cfg s x r u f q =
    or_return-query env (λ w. get_delivery x w.store ≡ some r)
      (λ w. ok (claim_due (env.clock s.tick) cfg.batch_limit w.store)) (ticked s)
      (attempts wire env cfg) f
      (λ due e.
        attempts-other wire env cfg x (some r) due (ticked (ticked s))
          (subst (All (λ d. text_eq d.id x ≡ false)) (ok_inj e)
            (claim_due-other (env.clock s.tick) cfg.batch_limit x r s.store u f q))
          f)
