-- ===== src/Events/World.antt =====
-- What the workers of internal/events run in: the tables, and an environment that decides, at each
-- interaction, the clock, the random bytes, the failure of a call, and whether the context is cancelled.
use oneops.Base.{ℕ, ◌+◌, ◌≡◌, refl, Bool, Text, codes, ◌++◌}
use oneops.Domain.Errors.{Error, Result, ok, err}
use oneops.Audit.Hash.{hex}
use oneops.Audit.Tables.{AuditTables}
use oneops.Events.Tables.{EventTables}

-- The fate of a call of the database: it works, it fails and changes nothing, or its answer is lost
-- after the change was made.
pub data Fate : Type 0 where
  works : Fate
  fails : Error → Fate
  unanswered : Error → Fate

-- The environment, read at the number of the interaction.
pub record Env : Type 0 where
  pub clock : ℕ → ℕ
  pub random : ℕ → Text
  pub fate : ℕ → Fate
  pub cancelled : ℕ → Bool

-- The audit log, a worker's own tables, and the number of interactions so far.
pub record WorldOf (S : Type 0) : Type 0 where
  pub audit : AuditTables
  pub store : S
  pub tick : ℕ

abbrev pub World : Type 0
World = WorldOf EventTables

abbrev pub ticked : {S : Type 0} → WorldOf S → WorldOf S
ticked s = record s { tick = s.tick + 1 }

-- `newDeliveryID`, at its turn among the interactions. How many bytes are drawn is the environment's
-- choice: the program draws 16, and no 16 bytes keep the ids of a run of any length apart.
abbrev pub delivery_id : Env → ℕ → Text
delivery_id env n = codes "dlv_" ++ hex (env.random n)

-- The world after a call that replaced the tables.
abbrev pub moved : {S : Type 0} → S → WorldOf S → WorldOf S
moved t s = record s { store = t; tick = s.tick + 1 }

module _ {ℓ} {A : Type ℓ} {S : Type 0} where
  -- A query of a given fate.
  abbrev pub answer : Fate → Result A → WorldOf S → Result A × WorldOf S
  answer works r s = (r, ticked s)
  answer (fails x) r s = (err x, ticked s)
  answer (unanswered x) r s = (err x, ticked s)

  -- A statement of a given fate, with its result and the tables that it leaves.
  abbrev pub settle : Fate → A × S → WorldOf S → Result A × WorldOf S
  settle works r s = (ok r.0, moved r.1 s)
  settle (fails x) r s = (err x, ticked s)
  settle (unanswered x) r s = (err x, moved r.1 s)

  -- `if err != nil { log; return }` after a call.
  abbrev pub or_return : Result A × WorldOf S → (A → WorldOf S → WorldOf S) → WorldOf S
  or_return (ok a, s) next = next a s
  or_return (err x, s) next = s

  answer-world : (fate : Fate) (r : Result A) (s : WorldOf S) → (answer fate r s).1 ≡ ticked s
  answer-world works r s = refl
  answer-world (fails x) r s = refl
  answer-world (unanswered x) r s = refl

  or_return-answer :
      (P : WorldOf S → Type 0) (fate : Fate) (r : Result A) (s : WorldOf S)
      (next : A → WorldOf S → WorldOf S)
      → P (ticked s)
      → ((a : A) → r ≡ ok a → P (next a (ticked s)))
      → P (or_return (answer fate r s) next)
  or_return-answer P works (ok a) s next stop go = go a refl
  or_return-answer P works (err x) s next stop go = stop
  or_return-answer P (fails x) r s next stop go = stop
  or_return-answer P (unanswered x) r s next stop go = stop

  or_return-settle :
      (P : WorldOf S → Type 0) (fate : Fate) (r : A × S) (s : WorldOf S)
      (next : A → WorldOf S → WorldOf S)
      → P (ticked s)
      → P (moved r.1 s)
      → P (next r.0 (moved r.1 s))
      → P (or_return (settle fate r s) next)
  or_return-settle P works r s next stop lost go = go
  or_return-settle P (fails x) r s next stop lost go = stop
  or_return-settle P (unanswered x) r s next stop lost go = lost

  settle-world :
      (P : WorldOf S → Type 0) (fate : Fate) (r : A × S) (s : WorldOf S)
      → P (ticked s)
      → P (moved r.1 s)
      → P (settle fate r s).1
  settle-world P works r s stop go = go
  settle-world P (fails x) r s stop go = stop
  settle-world P (unanswered x) r s stop go = go

module _ (env : Env) where
  -- `now()`
  abbrev pub now : {S : Type 0} → WorldOf S → ℕ × WorldOf S
  now s = (env.clock s.tick, ticked s)

  module _ {ℓ} {A : Type ℓ} {S : Type 0} where
    -- A query.
    abbrev pub query : (WorldOf S → Result A) → WorldOf S → Result A × WorldOf S
    query f s = answer (env.fate s.tick) (f s) s

    -- A statement that changes the tables; its argument is the database's now().
    abbrev pub exec : (ℕ → S → A × S) → WorldOf S → Result A × WorldOf S
    exec f s = settle (env.fate s.tick) (f (env.clock s.tick) s.store) s

    pub query-world : (f : WorldOf S → Result A) (s : WorldOf S) → (query f s).1 ≡ ticked s
    query-world f s = answer-world (env.fate s.tick) (f s) s

    -- What holds whether the query fails or goes on.
    pub or_return-query :
        (P : WorldOf S → Type 0) (f : WorldOf S → Result A) (s : WorldOf S)
        (next : A → WorldOf S → WorldOf S)
        → P (ticked s)
        → ((a : A) → f s ≡ ok a → P (next a (ticked s)))
        → P (or_return (query f s) next)
    or_return-query P f s next = or_return-answer P (env.fate s.tick) (f s) s next

    -- What holds whatever the fate of the statement.
    pub or_return-exec :
        (P : WorldOf S → Type 0) (f : ℕ → S → A × S) (s : WorldOf S)
        (next : A → WorldOf S → WorldOf S)
        → let r = f (env.clock s.tick) s.store in
          P (ticked s)
          → P (moved r.1 s)
          → P (next r.0 (moved r.1 s))
          → P (or_return (exec f s) next)
    or_return-exec P f s next =
        or_return-settle P (env.fate s.tick) (f (env.clock s.tick) s.store) s next

    pub exec-world :
        (P : WorldOf S → Type 0) (f : ℕ → S → A × S) (s : WorldOf S)
        → P (ticked s)
        → P (moved (f (env.clock s.tick) s.store).1 s)
        → P (exec f s).1
    exec-world P f s = settle-world P (env.fate s.tick) (f (env.clock s.tick) s.store) s

-- A statement without a result.
abbrev pub effect : {S : Type 0} → (ℕ → S → S) → ℕ → S → Unit {0} × S
effect f at t = (tt, f at t)
