-- ===== src/Events/Retention.antt =====
-- internal/events/retention.go. The dead-letter gauge is a metric and left out, but for its query.
pub mod Kept
use oneops.Base.{ℕ, ◌-◌, Bool, List, [], ◌∷◌, if◌then◌else◌}
use oneops.Audit.Hash.{below_one}
use oneops.Events.Types.{DeliveryStatus, delivered, dead_letter}
use oneops.Events.Tables.{delete_older_than}
use oneops.Events.World.{Env, World, ticked, now, exec}

-- The statuses that `RunOnce` passes to DeleteOlderThan.
abbrev pub terminal_statuses : List DeliveryStatus
terminal_statuses = delivered ∷ dead_letter ∷ []

-- `RunOnce`; `max_age` is MaxAge, an int64 pattern. Nothing is older than Go's zero time.
unfoldable pub retain_run_once : Env → ℕ → World → World
retain_run_once env max_age s = ticked (
    if below_one max_age
    then s
    else let (at, s₁) = now env s in
      (exec env (λ t. delete_older_than (at - max_age) terminal_statuses) s₁).1)
