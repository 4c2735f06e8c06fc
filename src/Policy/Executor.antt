-- ===== src/Policy/Executor.antt =====
-- internal/policy/executor.go, in the world of internal/events. The ticker of Run is left out; the text of
-- an error is an argument. A panic of an action is one of its results.
pub mod Rows
pub mod Recorded
use oneops.Base.{
  ℕ, ◌+◌, ◌-◌, ◌*◌, ◌%◌, ◌^◌, Bool, ◌||◌, Option, none, some, List, [], ◌∷◌, ◌++◌, Text, codes,
  if◌then◌else◌,
}
use oneops.Domain.Errors.{Error, Result, ok, err, external}
use oneops.Audit.Hash.{int64_lt, int64_next, below_one}
use oneops.Audit.Tables.{int64_le}
use oneops.Events.World.{Env, WorldOf, ticked, now, query, exec, effect, or_return}
use oneops.Policy.Types.{
  PolicyEvent, Policy, Execution, ExecutionStatus, exec_succeeded, exec_failed, exec_dead_letter,
}
use oneops.Policy.Tables.{PolicyTables, Mark, get_policy, claim_due_executions, mark_execution}
use oneops.Policy.Actions.{ActionResult, done, refused, panicked, Registry, run_action}

pub record ExecutorConfig : Type 0 where
  pub batch_limit : ℕ
  pub base_backoff : ℕ
  pub max_backoff : ℕ

-- `withDefaults`; a duration is an int64 pattern of nanoseconds.
unfoldable pub executor_defaults : ExecutorConfig → ExecutorConfig
executor_defaults c = record {
  batch_limit = if below_one c.batch_limit then 100 else c.batch_limit;
  base_backoff = if below_one c.base_backoff then 5000000000 else c.base_backoff;
  max_backoff = if below_one c.max_backoff then 3600000000000 else c.max_backoff;
}

-- `backoff`, whose `retry` is at least 1: `attempt` has just raised it. On 0 Go panics,
-- and the model gives the base.
unfoldable pub executor_backoff : ExecutorConfig → ℕ → ℕ
executor_backoff c retry =
    let b = c.base_backoff * 2 ^ (retry - 1) % 2 ^ 64 in
    if below_one b || int64_lt c.max_backoff b then c.max_backoff else b

-- `runIsolated`: a panic becomes an error.
unfoldable pub recovered : ActionResult → Option Error
recovered done = none
recovered (refused x) = some x
recovered (panicked v) = some (external (codes "policy action panicked: " ++ v))

module _ (registry : Registry) (text : Error → Text) (env : Env) (cfg : ExecutorConfig) where
  -- What `attempt` returns, and the world that it leaves.
  abbrev pub Attempted : Type 0
  Attempted = ExecutionStatus × WorldOf PolicyTables

  -- `_ = MarkResult(…)`
  unfoldable pub record_mark : Text → Mark → WorldOf PolicyTables → WorldOf PolicyTables
  record_mark id m s = (exec env (effect (λ at. mark_execution id m)) s).1

  -- The failure branches of `attempt`; the second clock reading is the first of these.
  unfoldable pub attempt_failed : Policy → Execution → ℕ → Error → WorldOf PolicyTables → Attempted
  unfolding record_mark executor_backoff
  attempt_failed p ex start x s =
      let retry = int64_next ex.retry_count in
      let (first, s₁) = now env s in
      if int64_le p.max_retries retry
      then (
        exec_dead_letter,
        record_mark ex.id
            (record {
              status = exec_dead_letter;
              retry = retry;
              message = text x;
              started = start;
              ended = first;
              next = 0;
            })
            s₁,
      )
      else let (second, s₂) = now env s₁ in
        (
          exec_failed,
          record_mark ex.id
              (record {
                status = exec_failed;
                retry = retry;
                message = text x;
                started = start;
                ended = second;
                next = first + executor_backoff cfg retry;
              })
              s₂,
        )

  -- `attempt` with the outcome of the action.
  unfoldable pub attempt_ran :
      Policy → Execution → ℕ → Option Error → WorldOf PolicyTables → Attempted
  unfolding record_mark attempt_failed
  attempt_ran p ex start (some x) s = attempt_failed p ex start x s
  attempt_ran p ex start none s =
      let (ended, s₁) = now env s in
      (
        exec_succeeded,
        record_mark ex.id
            (record {
              status = exec_succeeded;
              retry = ex.retry_count;
              message = [];
              started = start;
              ended = ended;
              next = 0;
            })
            s₁,
      )

  -- `attempt` with what the lookup of the policy gave.
  unfoldable pub attempt_policy : Execution → ℕ → Result Policy → WorldOf PolicyTables → Attempted
  unfolding attempt_ran recovered record_mark
  attempt_policy ex start (err x) s =
      let (ended, s₁) = now env s in
      (
        exec_dead_letter,
        record_mark ex.id
            (record {
              status = exec_dead_letter;
              retry = ex.retry_count;
              message = codes "policy not found: " ++ text x;
              started = start;
              ended = ended;
              next = 0;
            })
            s₁,
      )
  attempt_policy ex start (ok p) s =
      let ran = run_action registry p.action.action_type s.tick ex.event p.action.config in
      attempt_ran p ex start (recovered ran) (ticked s)

  -- `attempt`, which is also `Attempt`
  unfoldable pub attempt_execution : Execution → WorldOf PolicyTables → Attempted
  unfolding attempt_policy
  attempt_execution ex s =
      let (start, s₁) = now env s in
      let (found, s₂) = query env (λ w. get_policy ex.policy_id w.store) s₁ in
      attempt_policy ex start found s₂

  unfoldable pub attempt_executions : List Execution → WorldOf PolicyTables → WorldOf PolicyTables
  unfolding attempt_execution
  attempt_executions [] s = s
  attempt_executions (ex ∷ due) s =
      if env.cancelled s.tick
      then ticked s
      else attempt_executions due (attempt_execution ex (ticked s)).1

  -- `RunOnce` of the executor
  unfoldable pub executor_run_once : WorldOf PolicyTables → WorldOf PolicyTables
  unfolding attempt_executions
  executor_run_once s =
      let (at, s₁) = now env s in
      or_return (query env (λ w. ok (claim_due_executions at cfg.batch_limit w.store)) s₁)
        attempt_executions
