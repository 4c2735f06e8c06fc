-- ===== src/Policy/Executor/Recorded.antt =====
-- What an attempt of an execution records (internal/policy/executor.go).
use oneops.Base.{
  ℕ, ◌+◌, ◌≡◌, refl, ap, sym, subst, ◌∙◌, inl, inr, Bool-cases, false, some, [], ◌++◌, Text, codes,
  true, text_eq, text_eq_refl,
}
use oneops.Domain.Errors.{Error, Result, ok, err, external}
use oneops.Audit.Hash.{int64_next}
use oneops.Audit.Tables.{int64_le}
use oneops.Events.World.{Env, WorldOf, Fate, works, ticked, moved, answer, settle, effect, query}
use oneops.Policy.Types.{
  Policy, Execution, ExecutionStatus, exec_succeeded, exec_failed, exec_dead_letter,
}
use oneops.Policy.Tables.{
  PolicyTables, Mark, get_policy, get_execution, mark_execution, marked_execution,
}
use oneops.Policy.Actions.{ActionResult, done, refused, panicked, Registry, run_action}
use oneops.Policy.Executor.Rows.{changed, get_execution-mark_execution, changed-other}
use oneops.Policy.Executor.{
  ExecutorConfig, record_mark, attempt_failed, attempt_ran, attempt_policy, attempt_execution,
  recovered,
}

-- The failure of an action: the error that it returns, or one with what it panics with.
pub data Fails : ActionResult → Error → Type 0 where
  refuses : (x : Error) → Fails (refused x) x
  panics : (v : Text) → Fails (panicked v) (external (codes "policy action panicked: " ++ v))

-- The status, the retries and the error that an execution ends with: by what the lookup of its policy
-- gave, and by what the action of a policy comes to.
pub data Verdict (text : Error → Text) (ex : Execution) (got : Result Policy)
    (ran : Policy → ActionResult) : ExecutionStatus → ℕ → Text → Type 0 where
  gone :
      (x : Error)
      → got ≡ err x
      → Verdict text ex got ran exec_dead_letter ex.retry_count
          (codes "policy not found: " ++ text x)
  succeeded :
      (p : Policy)
      → got ≡ ok p
      → ran p ≡ done
      → Verdict text ex got ran exec_succeeded ex.retry_count []
  failed :
      (p : Policy) (x : Error)
      → got ≡ ok p
      → Fails (ran p) x
      → int64_le p.max_retries (int64_next ex.retry_count) ≡ false
      → Verdict text ex got ran exec_failed (int64_next ex.retry_count) (text x)
  exhausted :
      (p : Policy) (x : Error)
      → got ≡ ok p
      → Fails (ran p) x
      → int64_le p.max_retries (int64_next ex.retry_count) ≡ true
      → Verdict text ex got ran exec_dead_letter (int64_next ex.retry_count) (text x)

module _ (registry : Registry) (text : Error → Text) (env : Env) (cfg : ExecutorConfig)
    (works_all : (n : ℕ) → env.fate n ≡ works) (ex : Execution) (x : Text)
    (other : text_eq ex.id x ≡ false) (got : Result Policy) (ran : Policy → ActionResult) where
  -- The status that is returned is the verdict, and the row of the execution has it, with the retries and
  -- the error of the verdict and its own event; the row of another id, the policies, the cursors and the
  -- audit log are as they were.
  pub record Recorded (s : WorldOf PolicyTables) (r : ExecutionStatus × WorldOf PolicyTables)
      : Type 0 where
    pub row : Execution
    pub found : get_execution ex.id r.1.store ≡ some row
    pub verdict : Verdict text ex got ran r.0 row.retry_count row.error
    pub same_status : row.status ≡ r.0
    pub same_event : row.event ≡ ex.event
    pub others : get_execution x r.1.store ≡ get_execution x s.store
    pub policies : r.1.store.policies ≡ s.store.policies
    pub cursors : r.1.store.cursors ≡ s.store.cursors
    pub audit : r.1.audit ≡ s.audit

  abbrev Row : WorldOf PolicyTables → Type 0
  Row s = get_execution ex.id s.store ≡ some ex

  moved-Recorded :
      (m : Mark) (status : ExecutionStatus) (s : WorldOf PolicyTables)
      → m.status ≡ status
      → Verdict text ex got ran status m.retry m.message
      → Row s
      → Recorded s (status, moved (mark_execution ex.id m s.store) s)
  unfolding mark_execution
  moved-Recorded m status s same v h = record {
    row = marked_execution m ex;
    found =
        get_execution-mark_execution ex.id ex.id m s.store
        ∙ ap (changed ex.id (marked_execution m) ex.id) h
        ∙ rw (text_eq_refl ex.id) refl;
    verdict = v;
    same_status = same;
    same_event = refl;
    others =
        get_execution-mark_execution ex.id x m s.store
        ∙ changed-other ex.id x (marked_execution m) (get_execution x s.store) other;
    policies = refl;
    cursors = refl;
    audit = refl;
  }

  -- Time alone records nothing.
  Recorded-from :
      (n : ℕ) (s : WorldOf PolicyTables) (r : ExecutionStatus × WorldOf PolicyTables)
      → Recorded (record s { tick = n }) r
      → Recorded s r
  Recorded-from n s r h = record {
    row = h.row;
    found = h.found;
    verdict = h.verdict;
    same_status = h.same_status;
    same_event = h.same_event;
    others = h.others;
    policies = h.policies;
    cursors = h.cursors;
    audit = h.audit;
  }

  mark-Recorded :
      (m : Mark) (status : ExecutionStatus) (s : WorldOf PolicyTables)
      → m.status ≡ status
      → Verdict text ex got ran status m.retry m.message
      → Row s
      → Recorded s (status, record_mark registry text env cfg ex.id m s)
  unfolding record_mark
  mark-Recorded m status s same v h =
      let u = moved (mark_execution ex.id m s.store) s in
      let marks : (settle (env.fate s.tick)
            (effect (λ at. mark_execution ex.id m) (env.clock s.tick) s.store) s).1
          ≡ u =
        ap
          (λ (f : Fate).
            (settle f (effect (λ at. mark_execution ex.id m) (env.clock s.tick) s.store) s).1)
          (works_all s.tick) in
      subst (λ (w : WorldOf PolicyTables). Recorded s (status, w)) (sym marks)
        (moved-Recorded m status s same v h)

  failed-Recorded :
      (p : Policy) (start : ℕ) (e : Error) (s : WorldOf PolicyTables)
      → got ≡ ok p
      → Fails (ran p) e
      → Row s
      → Recorded s (attempt_failed registry text env cfg p ex start e s)
  unfolding attempt_failed
  failed-Recorded p start e s g f h =
      elim (Bool-cases (int64_le p.max_retries (int64_next ex.retry_count))) [
        | inl b ↦ rw b (
            Recorded-from (s.tick + 1) s _
              (mark-Recorded _ exec_dead_letter (ticked s) refl (exhausted p e g f b) h))
        | inr b ↦ rw b (
            Recorded-from (s.tick + 1 + 1) s _
              (mark-Recorded _ exec_failed (ticked (ticked s)) refl (failed p e g f b) h))
      ]

  ran-Recorded :
      (p : Policy) (start : ℕ) (a : ActionResult) (s : WorldOf PolicyTables)
      → got ≡ ok p
      → ran p ≡ a
      → Row s
      → Recorded s (attempt_ran registry text env cfg p ex start (recovered a) s)
  unfolding attempt_ran recovered
  ran-Recorded p start done s g r h =
      Recorded-from (s.tick + 1) s _
        (mark-Recorded _ exec_succeeded (ticked s) refl (succeeded p g r) h)
  ran-Recorded p start (refused e) s g r h =
      failed-Recorded p start e s g (subst (λ a. Fails a e) (sym r) (refuses e)) h
  ran-Recorded p start (panicked v) s g r h =
      let e = external (codes "policy action panicked: " ++ v) in
      failed-Recorded p start e s g (subst (λ a. Fails a e) (sym r) (panics v)) h

  policy-Recorded :
      (start : ℕ) (s : WorldOf PolicyTables) (found : Result Policy)
      → got ≡ found
      → ((p : Policy)
          → ran p ≡ run_action registry p.action.action_type s.tick ex.event p.action.config)
      → Row s
      → Recorded s (attempt_policy registry text env cfg ex start found s)
  unfolding attempt_policy
  policy-Recorded start s (err e) g r h =
      Recorded-from (s.tick + 1) s _ (mark-Recorded _ exec_dead_letter (ticked s) refl (gone e g) h)
  policy-Recorded start s (ok p) g r h =
      let a = run_action registry p.action.action_type s.tick ex.event p.action.config in
      Recorded-from (s.tick + 1) s _ (ran-Recorded p start a (ticked s) g (r p) h)

module _ (registry : Registry) (text : Error → Text) (env : Env) (cfg : ExecutorConfig)
    (works_all : (n : ℕ) → env.fate n ≡ works) (ex : Execution) (x : Text)
    (other : text_eq ex.id x ≡ false) where
  -- What the action of a policy comes to in an attempt that begins in `s`.
  abbrev pub runs : WorldOf PolicyTables → Policy → ActionResult
  runs s p = run_action registry p.action.action_type (s.tick + 1 + 1) ex.event p.action.config

  -- Where the database works and the row of the execution is there, an attempt returns succeeded if the
  -- action succeeds; if it fails, panics or is not registered, failed with one more retry, or dead letter
  -- once the retries reach the limit of the policy; and dead letter if the policy cannot be read. The row
  -- then has that status, with the retries and the error; its event, the row of any other id, the
  -- policies, the cursors and the audit log stay as they are.
  pub attempt_execution-Recorded :
      (s : WorldOf PolicyTables)
      → get_execution ex.id s.store ≡ some ex
      → Recorded registry text env cfg works_all ex x other
          (get_policy ex.policy_id s.store)
          (runs s)
          s
          (attempt_execution registry text env cfg ex s)
  unfolding attempt_execution
  attempt_execution-Recorded s h =
      let s₁ = ticked s in
      let s₂ = ticked s₁ in
      let got = get_policy ex.policy_id s.store in
      let Goal = Recorded registry text env cfg works_all ex x other got (runs s) s in
      let asked : query env (λ w. get_policy ex.policy_id w.store) s₁ ≡ (got, s₂) =
        ap (λ (f : Fate). answer f got s₁) (works_all s₁.tick) in
      subst
        (λ (q : Result Policy × WorldOf PolicyTables).
          Goal (attempt_policy registry text env cfg ex (env.clock s.tick) q.0 q.1))
        (sym asked)
        (Recorded-from registry text env cfg works_all ex x other got (runs s) (s.tick + 1 + 1) s _
          (policy-Recorded registry text env cfg works_all ex x other got (runs s)
            (env.clock s.tick) s₂ got refl (λ p. refl) h))
