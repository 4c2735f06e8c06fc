-- ===== src/Governance/Tables/History.antt =====
-- Runs of Engine.Execute (internal/governance/engine.go) on the tables.
use oneops.Base.{ℕ, ◌≡◌, ap, sym, subst, inl, inr, Bool, true, List, [], ◌∷◌, Text, length}
use oneops.Domain.Errors.{Result, ok}
use oneops.Domain.AuditTypes.{VerifyResult}
use oneops.Audit.Resolve.{Json}
use oneops.Audit.Verifier.{verify_chain}
use oneops.Audit.Tables.{verify_range_reader}
use oneops.Audit.Appender.Sealed.{rows}
use oneops.Audit.Appender.History.{Consistent-verifies, max_int64}
use oneops.Governance.Transition.{Command}
use oneops.Governance.Engine.{Outcome, execute}
use oneops.Governance.Tables.{Database, wiring}
use oneops.Governance.Tables.Execute.{Sound}
use oneops.Governance.Tables.Invariant.{execute-Effect}

-- A call of `Execute`, with what the database decides at the ends of its transaction, and the time.
pub record Call : Type 0 where
  pub begun : Result (Unit {0})
  pub committed : Result (Unit {0})
  pub now : ℕ
  pub command : Command

module _ (json : Json) (sha256 : Text → Text) (jsonb_ok : Text → Bool)
    (marshal : Outcome → Result Text) where
  abbrev pub execute_call : Call → Database → Result Outcome × Database
  execute_call c db =
      execute (wiring sha256 jsonb_ok c.begun c.committed c.now marshal) json sha256 c.command db

  abbrev pub execute_all : List Call → Database → Database
  execute_all [] db = db
  execute_all (c ∷ calls) db = execute_all calls (execute_call c db).1

  execute_call-Sound :
      (c : Call) (db : Database) → Sound sha256 db → Sound sha256 (execute_call c db).1
  execute_call-Sound c db k =
      elim (execute-Effect json sha256 jsonb_ok c.begun c.committed c.now marshal c.command db k) [
        | inl (x, run) ↦
            subst (Sound sha256) (sym (ap (λ (r : Result Outcome × Database). r.1) run)) k
        | inr (res, u, run, effect, sound) ↦
            subst (Sound sha256) (sym (ap (λ (r : Result Outcome × Database). r.1) run)) sound
      ]

  execute_all-Sound :
      (calls : List Call) (db : Database) → Sound sha256 db → Sound sha256 (execute_all calls db)
  execute_all-Sound [] db k = k
  execute_all-Sound (c ∷ calls) db k =
      execute_all-Sound calls (execute_call c db).1 (execute_call-Sound c db k)

  -- After any run of operations on sound tables, whichever of them fail, the tables are sound, and
  -- `VerifyChain` of every object's chain succeeds and counts all of its rows.
  pub execute_all-verifies :
      (calls : List Call) (db : Database) (c : Text)
      → Sound sha256 db
      → let u = execute_all calls db in
        Sound sha256 u
        × (res : VerifyResult) × (verify_chain sha256 c (verify_range_reader c 1 max_int64 u.audit)
            ≡ ok res)
        × (res.is_ok ≡ true)
        × (res.checked ≡ length (rows c u.audit))
  execute_all-verifies calls db c k =
      let sound = execute_all-Sound calls db k in
      let (res, got, good, counts) =
        Consistent-verifies sha256 c (execute_all calls db).audit sound.audit in
      (sound, res, got, good, counts)
