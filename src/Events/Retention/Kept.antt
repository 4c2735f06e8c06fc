-- ===== src/Events/Retention/Kept.antt =====
-- What a pass of the retention worker keeps (internal/events/retention.go over DeleteOlderThan of
-- internal/store/postgres/webhook_consume_store.go).
use oneops.Base.{
  ℕ, ◌-◌, ◌≡◌, ◌⊎◌, refl, inl, inr, Bool, true, false, not, some, List, [], ◌∷◌, Text, filter, find,
  Bool-cases, arith, text_eq, ltb, mem, map, sym, subst,
}
use oneops.Audit.Appender.{truncate_micros}
use oneops.Audit.Hash.{below_one}
use oneops.Events.Types.{Delivery, DeliveryStatus, pending, failed, status_text}
use oneops.Events.Tables.{is_delivery, is_older, delete_older_than, get_delivery}
use oneops.Events.World.{Env, World, ticked, exec-world}
use oneops.Events.Retention.{retain_run_once, terminal_statuses}

find-filter :
    (x : Text) (p : Delivery → Bool) (d : Delivery) (rows : List Delivery)
    → find (is_delivery x) rows ≡ some d
    → p d ≡ true
    → find (is_delivery x) (filter p rows) ≡ some d
find-filter x p d [] f k = cc
find-filter x p d (r ∷ rows) f k = elim (Bool-cases (is_delivery x r)) [
  | inl e ↦
      let here : r ≡ d = ground (arith, f, e) in
      let passes : p r ≡ true = rw here k in rw passes (ground (arith, e, here))
  | inr e ↦
      let later = find-filter x p d rows (rw e at f) k in
      elim (Bool-cases (p r)) [ inl q ↦ rw q (rw e later) | inr q ↦ rw q later ]
]

abbrev is_terminal : DeliveryStatus → Bool
is_terminal st = mem (status_text st) (map status_text terminal_statuses)

open-terminal : (st : DeliveryStatus) → (st ≡ pending) ⊎ (st ≡ failed) → is_terminal st ≡ false
unfolding status_text mem text_eq
open-terminal st (inl e) = subst (λ (r : DeliveryStatus). is_terminal r ≡ false) (sym e) refl
open-terminal st (inr e) = subst (λ (r : DeliveryStatus). is_terminal r ≡ false) (sym e) refl

not_older :
    (cutoff : ℕ) (d : Delivery)
    → ((d.status ≡ pending) ⊎ (d.status ≡ failed))
      ⊎ (ltb d.created_at (truncate_micros cutoff) ≡ false)
    → not (is_older cutoff terminal_statuses d) ≡ true
not_older cutoff d (inl o) = rw (open-terminal d.status o) (ground arith)
not_older cutoff d (inr e) = rw e refl

-- A pass of the retention worker, whatever happens to its call, leaves a delivery as it is if the
-- delivery is pending or failed, or if it was not created before the cutoff.
pub retain_run_once-kept :
    (env : Env) (max_age : ℕ) (s : World) (x : Text) (d : Delivery)
    → get_delivery x s.store ≡ some d
    → ((d.status ≡ pending) ⊎ (d.status ≡ failed))
      ⊎ (ltb d.created_at (truncate_micros (env.clock s.tick - max_age)) ≡ false)
    → get_delivery x (retain_run_once env max_age s).store ≡ some d
unfolding retain_run_once get_delivery delete_older_than
retain_run_once-kept env max_age s x d f how = elim (Bool-cases (below_one max_age)) [
  | inl e ↦ rw e f
  | inr e ↦ rw e (
      let cutoff = env.clock s.tick - max_age in
      exec-world env (λ w. get_delivery x w.store ≡ some d)
        (λ t. delete_older_than cutoff terminal_statuses) (ticked s) f
        (find-filter x (λ r. not (is_older cutoff terminal_statuses r)) d s.store.deliveries f
          (not_older cutoff d how)))
]
