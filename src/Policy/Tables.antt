-- ===== src/Policy/Tables.antt =====
-- internal/store/postgres/policy_store.go over the tables of 20260726000001_policies.sql. A table is the
-- list of its rows in the order of insertion, which is that of `created_at`; its jsonb columns hold the
-- values that they encode. `at` is the database's now(). A timestamptz holds microseconds.
use oneops.Base.{
  ℕ, Bool, not, ◌&&◌, ◌||◌, Option, none, some, List, [], ◌∷◌, ◌++◌, Text, codes, text_eq, ◌==◌,
  leb, if◌then◌else◌, filter, any, find, take, map, is_empty,
}
use mathlib.Core.List.{reverse}
use oneops.Base.Sorting.{sort_by}
use oneops.Domain.Errors.{Result, ok, err, conflict, not_found}
use oneops.Audit.Appender.{truncate_micros}
use oneops.Policy.Types.{Policy, ActionSpec, Execution, ExecutionStatus, exec_status_text}

-- A row of policy_cursor without `updated_at`.
pub record PolicyCursor : Type 0 where
  pub chain_id : Text
  pub last_seq : ℕ

pub record PolicyTables : Type 0 where
  pub policies : List Policy
  pub executions : List Execution
  pub cursors : List PolicyCursor

abbrev is_policy : Text → Policy → Bool
is_policy id p = text_eq p.id id

-- `actionConfig`
unfoldable pub action_config : Text → Text
action_config c = if is_empty c then codes "{}" else c

abbrev stored_action : ActionSpec → ActionSpec
stored_action a = record a { config = action_config a.config }

-- `Create`
unfoldable pub create_policy : ℕ → Policy → PolicyTables → Result PolicyTables
unfolding action_config
create_policy at p t =
    if any (is_policy p.id) t.policies
    then err conflict
    else ok (record t {
      policies =
          t.policies
          ++ record p { action = stored_action p.action; created_at = at; updated_at = at } ∷ [];
    })

-- `Get`
unfoldable pub get_policy : Text → PolicyTables → Result Policy
get_policy id t = elim (find (is_policy id) t.policies) [ none ↦ err not_found | some p ↦ ok p ]

-- `List`
unfoldable pub list_policies : PolicyTables → List Policy
list_policies t = t.policies

-- `ListEnabled`
unfoldable pub list_enabled_policies : PolicyTables → List Policy
list_enabled_policies t = filter (λ p. p.enabled) t.policies

-- `Update`
unfoldable pub update_policy : ℕ → Policy → PolicyTables → Result PolicyTables
unfolding action_config
update_policy at p t =
    if any (is_policy p.id) t.policies
    then ok (record t {
      policies =
          map
            (λ r.
              if is_policy p.id r
              then record p {
                action = stored_action p.action;
                created_at = r.created_at;
                updated_at = at;
              }
              else r)
            t.policies;
    })
    else err not_found

-- `Delete`
unfoldable pub delete_policy : Text → PolicyTables → Result PolicyTables
delete_policy id t =
    if any (is_policy id) t.policies
    then ok (record t { policies = filter (λ r. not (is_policy id r)) t.policies })
    else err not_found

abbrev pub is_execution : Text → Execution → Bool
is_execution id x = text_eq x.id id

-- What `Enqueue` inserts for an execution.
abbrev pub enqueued_execution : ℕ → Execution → Execution
enqueued_execution at x = record x {
  retry_count = 0;
  error = [];
  started_at = 0;
  ended_at = 0;
  next_attempt_at = truncate_micros x.next_attempt_at;
  created_at = at;
}

-- `Enqueue`: the batch is one transaction of INSERTs, ON CONFLICT (id) DO NOTHING.
unfoldable pub insert_executions : ℕ → List Execution → List Execution → List Execution
insert_executions at [] rows = rows
insert_executions at (x ∷ xs) rows =
    insert_executions at xs
      (if any (is_execution x.id) rows then rows else rows ++ enqueued_execution at x ∷ [])

unfoldable pub enqueue_executions : ℕ → List Execution → PolicyTables → PolicyTables
unfolding insert_executions
enqueue_executions at xs t = record t { executions = insert_executions at xs t.executions }

abbrev is_due_execution : ℕ → Execution → Bool
is_due_execution now x =
    (text_eq (exec_status_text x.status) (codes "pending")
      || text_eq (exec_status_text x.status) (codes "failed"))
    && leb x.next_attempt_at now

-- `ClaimDue`
unfoldable pub claim_due_executions : ℕ → ℕ → PolicyTables → List Execution
claim_due_executions now limit t = take limit (
    sort_by (λ a b. leb a.next_attempt_at b.next_attempt_at)
      (filter (is_due_execution (truncate_micros now)) t.executions))

-- What an attempt writes: status, retry count, error, start, end and, unless it is zero, the next one.
pub record Mark : Type 0 where
  pub status : ExecutionStatus
  pub retry : ℕ
  pub message : Text
  pub started : ℕ
  pub ended : ℕ
  pub next : ℕ

abbrev pub marked_execution : Mark → Execution → Execution
marked_execution m x = record x {
  status = m.status;
  retry_count = m.retry;
  error = m.message;
  started_at = truncate_micros m.started;
  ended_at = truncate_micros m.ended;
  next_attempt_at = if m.next == 0 then x.next_attempt_at else truncate_micros m.next;
}

-- `MarkResult`
unfoldable pub mark_execution : Text → Mark → PolicyTables → PolicyTables
mark_execution id m t = record t {
  executions = map (λ x. if is_execution id x then marked_execution m x else x) t.executions;
}

-- An execution by its id.
unfoldable pub get_execution : Text → PolicyTables → Option Execution
get_execution id t = find (is_execution id) t.executions

-- `ListByPolicy`: newest first
unfoldable pub list_by_policy : Text → ℕ → PolicyTables → List Execution
list_by_policy policy_id limit t =
    take limit (reverse (filter (λ x. text_eq x.policy_id policy_id) t.executions))

abbrev is_policy_cursor : Text → PolicyCursor → Bool
is_policy_cursor chain_id r = text_eq r.chain_id chain_id

-- `GetPolicyCursor`
unfoldable pub get_policy_cursor : Text → PolicyTables → ℕ
get_policy_cursor chain_id t = elim (find (is_policy_cursor chain_id) t.cursors) [
  | none ↦ 0
  | some r ↦ r.last_seq
]

unfoldable pub write_policy_cursor : PolicyCursor → List PolicyCursor → List PolicyCursor
write_policy_cursor c [] = c ∷ []
write_policy_cursor c (r ∷ rs) =
    if is_policy_cursor c.chain_id r then c ∷ rs else r ∷ write_policy_cursor c rs

-- `SetPolicyCursor`: ON CONFLICT DO UPDATE
unfoldable pub set_policy_cursor : Text → ℕ → PolicyTables → PolicyTables
unfolding write_policy_cursor
set_policy_cursor chain_id seq t = record t {
  cursors = write_policy_cursor (record { chain_id = chain_id; last_seq = seq }) t.cursors;
}
