-- ===== src/Governance/Tables/Invariant.antt =====
-- Engine.Execute (internal/governance/engine.go) over governance_store.go: the effect of one call.
use oneops.Base.{
  ℕ, ◌≡◌, ◌≢◌, ap, sym, subst, ◌∙◌, ◌⊎◌, inl, inr, Bool, Option, [], ◌∷◌, ◌++◌, Text, find, arith,
}
use oneops.Domain.Errors.{Error, Result, ok, err, Result-cases, ◌>>◌}
use oneops.Domain.Objects.{ConfigObject}
use oneops.Domain.AuditTypes.{AuditEvent, EventInput}
use oneops.Audit.Resolve.{AppendInput, Json, resolve}
use oneops.Audit.Tables.{AuditTables}
use oneops.Audit.Appender.{audit_store, append_tx}
use oneops.Audit.Appender.Sealed.{append_tx-Appended}
use oneops.Audit.Appender.Consistency.{Consistent, Appended-Consistent}
use oneops.Governance.Transition.{Command, Plan, EdgeSpec}
use oneops.Governance.Engine.{Ports, Outcome, new_outcome, execute, apply_plan, apply_edge}
use oneops.Governance.Engine.Atomicity.{Staged, execute-atomic}
use oneops.Governance.Tables.{Database, has_id, append_audit, wiring}
use oneops.Governance.Tables.Execute.{Sound, Target, Mutated-Changed}

abbrev Names : Command → Outcome → Type 0
Names cmd r = (r.cfg_id ≡ cmd.cfg_id) × (r.operation ≡ cmd.operation) × (r.actor ≡ cmd.actor)

module _ {S : Type 0} (ports : Ports S) where
  apply_plan-Names :
      (cmd : Command) (obj : ConfigObject) (p : Plan) (s u : S) (r : Outcome)
      → apply_plan ports cmd obj p (new_outcome cmd ports.now) s ≡ ok (r, u)
      → Names cmd r
  unfolding apply_plan
  apply_plan-Names cmd obj p s u r h = ground arith

  apply_edge-Names :
      (cmd : Command) (e : Option EdgeSpec) (r res : Outcome) (s u : S)
      → apply_edge ports e r s ≡ ok (res, u)
      → Names cmd r
      → Names cmd res
  unfolding apply_edge
  apply_edge-Names cmd e r res s u h n = ground arith

module _ (json : Json) (sha256 : Text → Text) where
  -- What `Resolve` copies.
  resolve-copies :
      (e : EventInput) (actor : Text) (t : ℕ) {i : AppendInput}
      → resolve json sha256 e actor t ≡ ok i
      → (i.chain_id ≡ e.chain_id)
        × (i.operation_id ≡ e.operation_id)
        × (i.operation ≡ e.operation)
        × (i.actor ≡ actor)
  unfolding resolve
  resolve-copies e actor t h = ground arith

module _ (sha256 : Text → Text) (jsonb_ok : Text → Bool) where
  appended_tables :
      (i : AppendInput) (db u : Database) (event : AuditEvent)
      → append_audit sha256 jsonb_ok i db ≡ ok (event, u)
      → (append_tx sha256 (audit_store jsonb_ok) i db.audit ≡ ok (event, u.audit))
        × (u.objects ≡ db.objects)
  unfolding append_audit
  appended_tables i db u event h =
      elim (Result-cases (append_tx sha256 (audit_store jsonb_ok) i db.audit)) [
        | inl ((e, t), got) ↦ ground (arith, got, h)
        | inr (x, got) ↦ absurd (ground (arith, got, h))
      ]

-- What a successful operation did: the object became what the outcome reports, no other object
-- changed, and one audit event of the command, on the object's chain, is the new last audit row.
pub record Effect (cmd : Command) (res : Outcome) (db u : Database) : Type 0 where
  pub target : Target cmd.cfg_id res db u
  pub others : (d : Text) → d ≢ cmd.cfg_id → find (has_id d) u.objects ≡ find (has_id d) db.objects
  pub event : AuditEvent
  pub audited : u.audit.events ≡ db.audit.events ++ event ∷ []
  pub chain_id : event.chain_id ≡ cmd.cfg_id
  pub operation_id : event.operation_id ≡ cmd.operation_id
  pub operation : event.operation ≡ cmd.operation
  pub actor : event.actor ≡ cmd.actor

module _ (json : Json) (sha256 : Text → Text) (jsonb_ok : Text → Bool)
    (begun committed : Result (Unit {0})) (now : ℕ) (marshal : Outcome → Result Text) where
  abbrev ports : Ports Database
  ports = wiring sha256 jsonb_ok begun committed now marshal

  Staged-Effect :
      (cmd : Command) (res : Outcome) (db u : Database)
      → Sound sha256 db
      → Staged ports json sha256 cmd db res u
      → Effect cmd res db u × Sound sha256 u
  Staged-Effect cmd res db u k st =
      let m = st.mutation in
      let x = st.emission in
      let c =
        Mutated-Changed sha256 jsonb_ok begun committed now marshal json cmd res db st.mutated m in
      let names =
        apply_edge-Names ports cmd m.plan.edge m.applied.0 res m.applied.1 st.mutated m.relate
          (apply_plan-Names ports cmd m.obj m.plan db m.applied.1 m.applied.0 m.apply) in
      let copies = resolve-copies json sha256 _ res.actor res.occurred_at x.resolved in
      let (got, objects) =
        appended_tables sha256 jsonb_ok x.input st.mutated u x.event x.appended in
      let a = append_tx-Appended sha256 jsonb_ok x.input st.mutated.audit u.audit x.event got in
      (
        record {
          target = rw objects (c.target k.unique);
          others = λ d ne. rw objects (c.others d ne);
          event = x.event;
          audited = a.rows_grow ∙ ap (λ (t : AuditTables). t.events ++ x.event ∷ []) c.audit;
          chain_id = ap (λ (e : AuditEvent). e.chain_id) a.built ∙ copies.0 ∙ names.0;
          operation_id = ap (λ (e : AuditEvent). e.operation_id) a.built ∙ copies.1;
          operation = ap (λ (e : AuditEvent). e.operation) a.built ∙ copies.2 ∙ names.1;
          actor = ap (λ (e : AuditEvent). e.actor) a.built ∙ copies.3 ∙ names.2;
        },
        record {
          unique = rw objects (c.unique k.unique);
          valid = rw objects (c.valid k.unique k.valid);
          audit =
              Appended-Consistent sha256 jsonb_ok x.input st.mutated.audit u.audit x.event a
                (subst (Consistent sha256) (sym c.audit) k.audit);
        },
      )

  ended : (a b : Database) (r : Result (Unit {0})) → (r >> ok a) ≡ ok b → a ≡ b
  ended a b r h = ground arith

  -- `Execute` on sound tables: on an error the database is as it was; on success the operation had
  -- its effect, and the database is sound again.
  pub execute-Effect :
      (cmd : Command) (db : Database)
      → Sound sha256 db
      → ((x : Error) × (execute ports json sha256 cmd db ≡ (err x, db)))
        ⊎ ((res : Outcome) × (u : Database) × (execute ports json sha256 cmd db ≡ (ok res, u))
            × Effect cmd res db u
            × Sound sha256 u)
  execute-Effect cmd db k = elim (execute-atomic ports json sha256 cmd db) [
    | inl failed ↦ inl failed
    | inr (res, u, run, e) ↦
        let first = ended db e.begun begun e.began in
        let last = ended e.staged u committed e.committed in
        let st = subst (λ d. Staged ports json sha256 cmd d res e.staged) (sym first) e.steps in
        let st' = subst (Staged ports json sha256 cmd db res) last st in
        let (effect, sound) = Staged-Effect cmd res db u k st' in inr (res, u, run, effect, sound)
  ]
