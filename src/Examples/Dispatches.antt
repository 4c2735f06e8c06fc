-- ===== src/Examples/Dispatches.antt =====
-- Two deliveries and an endpoint that refuses them, and the theorems on the dispatcher, its signatures
-- and the retention at them.
use oneops.Base.{
  ℕ, zero, suc, ◌*◌, ◌%◌, ◌^◌, ◌-◌, ◌≤◌, ◌<◌, ◌≡◌, ◌⊎◌, refl, ap, inl, true, none, some, [], ◌∷◌,
  ◌++◌, Text, codes, replicate, length, arith, text_eq,
}
use oneops.Domain.Errors.{ok}
use oneops.Audit.Hash.{hex}
use oneops.Audit.Hash.Binding.{Collision}
use oneops.Events.Types.{Delivery, delivered, pending, status_text}
use oneops.Events.Tables.{get_delivery, get_webhook}
use oneops.Events.World.{World}
use oneops.Events.Dispatcher.{
  DispatcherConfig, Wire, backoff, dispatcher_defaults, dispatch_run_once, sign, verify,
  signed_message,
}
use oneops.Events.Dispatcher.Claims.{dispatch_run_once-not_due}
use oneops.Events.Dispatcher.Attempts.{tries, tries-end, Ended}
use oneops.Events.Dispatcher.Backoff.{backoff-Bounded, backoff-default, least, unset}
use oneops.Events.World.{delivery_id}
use oneops.Events.Dispatcher.Signing.{DotFree, delivery_id-DotFree, verify-sign}
use oneops.Events.Retention.{retain_run_once}
use oneops.Events.Retention.Kept.{retain_run_once-kept}
use oneops.Examples.Fixtures.{checksum}
use oneops.Examples.Deliveries.{calm, hook_one}

-- An endpoint that always answers 503, with a checksum for the MAC and numbers as strokes.
abbrev refusing : Wire
refusing = record {
  hmac = λ k m. (checksum (k ++ m) % 256) ∷ [];
  format_int = λ n. replicate n 49;
  marshal = λ p. ok p.delivery_id;
  url_error = λ u. none;
  send = λ n r. ok 503;
}

abbrev settings : DispatcherConfig
settings = record { batch_limit = 10; base_backoff = 5; max_backoff = 60 }

abbrev first_delivery : Delivery
first_delivery = record {
  id = codes "dlv_1";
  webhook_id = codes "wh_1";
  event = record {
    chain_id = codes "cfg_1";
    seq = 1;
    event_id = codes "evt_1";
    operation_id = codes "op_1";
    operation = codes "ratification";
    actor = codes "alice";
    cfg_id = codes "cfg_1";
    occurred_at = 0;
  };
  status = pending;
  retry_count = 0;
  last_status_code = 0;
  last_attempt = 0;
  next_attempt_at = 0;
  created_at = 0;
}

abbrev second_delivery : Delivery
second_delivery = record first_delivery { id = codes "dlv_2"; status = delivered }

abbrev sending : World
sending = record {
  audit = record { events = []; heads = [] };
  store = record {
    hooks = hook_one ∷ [];
    deliveries = first_delivery ∷ second_delivery ∷ [];
    cursors = [];
    jobs = [];
  };
  tick = 0;
}

found_second : get_delivery (codes "dlv_2") sending.store ≡ some second_delivery
unfolding get_delivery text_eq
found_second = refl

dispatch_run_once-not_due_example :
    get_delivery (codes "dlv_2") (dispatch_run_once refusing calm settings sending).store
    ≡ some second_delivery
unfolding status_text text_eq
dispatch_run_once-not_due_example =
    dispatch_run_once-not_due refusing calm settings sending (codes "dlv_2") second_delivery
      (refl, (refl, tt)) found_second refl

found_first : get_delivery (codes "dlv_1") sending.store ≡ some first_delivery
unfolding get_delivery text_eq
found_first = refl

found_hook : get_webhook (codes "wh_1") sending.store ≡ ok hook_one
unfolding get_webhook text_eq
found_hook = refl

tries-end_example :
    (e : Delivery) × (get_delivery
        (codes "dlv_1")
        (tries refusing calm settings (codes "dlv_1") 3 sending).store
      ≡ some e)
    × Ended e.status
tries-end_example =
    tries-end refusing calm settings (λ n. refl) (λ p. (p.delivery_id, refl)) hook_one (omega arith)
      (codes "dlv_1") 3 first_delivery sending refl found_first found_hook tt (omega arith)
      (omega arith)

backoff-Bounded_example :
    (1 ≤ backoff settings 9)
    × (backoff settings 9 ≤ 60)
    × ((60 < 5 * 2 ^ (9 - 1)) ⊎ (backoff settings 9 ≡ 5 * 2 ^ (9 - 1)))
backoff-Bounded_example = backoff-Bounded settings 9 (omega arith) refl (omega arith)

backoff-default_example :
    backoff (dispatcher_defaults unset) 40 ≡ least (5000000000 * 2 ^ (40 - 1)) 3600000000000
backoff-default_example = backoff-default 40

abbrev strokes : ℕ → Text
strokes n = replicate n 49

length-strokes : (n : ℕ) → length (strokes n) ≡ n
length-strokes zero = refl
length-strokes (suc n) = omega (arith, length-strokes n)

strokes-DotFree : (n : ℕ) → DotFree (strokes n)
strokes-DotFree zero = tt
strokes-DotFree (suc n) = ((λ e. absurd (omega (arith, e))), strokes-DotFree n)

verifies :
    verify refusing
      (codes "s")
      2
      (delivery_id calm 1)
      (codes "{}")
      (sign refusing (codes "s") 2 (delivery_id calm 1) (codes "{}"))
    ≡ true
unfolding verify sign signed_message hex checksum text_eq
verifies = refl

strokes_inj : (m n : ℕ) → strokes m ≡ strokes n → m ≡ n
strokes_inj m n e = omega (arith, ap length e, length-strokes m, length-strokes n)

verify-sign_example :
    ((◌≡◌ {A = ℕ} 2 2) × (delivery_id calm 1 ≡ delivery_id calm 1) × (codes "{}" ≡ codes "{}"))
    ⊎ Collision (refusing.hmac (codes "s"))
verify-sign_example =
    verify-sign refusing strokes-DotFree (λ m n lm ln. strokes_inj m n) (λ k m. (ground arith, tt))
      (codes "s") 2 2 (delivery_id calm 1) (delivery_id calm 1) (codes "{}") (codes "{}")
      (omega arith) (omega arith) (delivery_id-DotFree calm 1) (delivery_id-DotFree calm 1) verifies

retain_run_once-kept_example :
    get_delivery (codes "dlv_1") (retain_run_once calm 1 sending).store ≡ some first_delivery
retain_run_once-kept_example =
    retain_run_once-kept calm 1 sending (codes "dlv_1") first_delivery found_first (inl (inl refl))
