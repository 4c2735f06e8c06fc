-- ===== src/Governance/Tables/Execute.antt =====
-- The mutation part of Engine.Execute over governance_store.go, and the invariant of the tables.
use oneops.Base.{
  ℕ, ◌+◌, ◌≡◌, ◌≢◌, refl, ap, subst, ◌∙◌, ◌⊎◌, inl, inr, Bool, true, false, Option, none, some,
  Text, arith, find, filter, All, Bool-cases,
}
use oneops.Domain.Enums.{Lifecycle, RetentionClass, Authority}
use oneops.Domain.Errors.{Result, ok, Result-cases, >>=-eq-ok}
use oneops.Domain.Objects.{ConfigObject, validate_object}
use oneops.Audit.Resolve.{Json}
use oneops.Audit.Appender.Consistency.{Consistent}
use oneops.Governance.Transition.{Command, Plan, EdgeSpec, planned}
use oneops.Governance.Engine.{
  Ports, Outcome, apply_removal, apply_update, apply_plan, apply_edge, new_outcome,
}
use oneops.Governance.Engine.Atomicity.{Mutated}
use oneops.Governance.Tables.{
  Database, has_id, at_version, get_for_update, redimension, update_objects, apply_dimensions,
  remove_object, count_dependents, record_edge, wiring,
}
use oneops.Governance.Tables.Rows.{
  Unique, find-update, find-update_other, update-Unique, update-All, filter-All, filter-Unique,
  survives, find-remove, find-remove_other, find-at_version,
}

-- The object rows are keyed by their ids and valid, and the audit chains are consistent.
pub record Sound (sha256 : Text → Text) (db : Database) : Type 0 where
  pub unique : Unique db.objects
  pub valid : All (λ o. validate_object o ≡ ok tt) db.objects
  pub audit : Consistent sha256 db.audit

-- What became of the object: it is gone, or it has the dimensions that the outcome reports and the
-- next row version.
abbrev pub Target : Text → Outcome → Database → Database → Type 0
Target id res db u =
    ((res.removed ≡ true) × (find (has_id id) u.objects ≡ none))
    ⊎ ((res.removed ≡ false)
        × (old : ConfigObject) × (find (has_id id) db.objects ≡ some old)
        × (res.row_version ≡ old.row_version + 1)
        × (find (has_id id) u.objects
            ≡ some (redimension res.new_lifecycle res.new_retention res.new_authority old)))

-- What the mutation did to the tables.
pub record Changed (id : Text) (res : Outcome) (db u : Database) : Type 0 where
  pub target : Unique db.objects → Target id res db u
  pub others : (d : Text) → d ≢ id → find (has_id d) u.objects ≡ find (has_id d) db.objects
  pub unique : Unique db.objects → Unique u.objects
  pub valid :
      Unique db.objects
      → All (λ o. validate_object o ≡ ok tt) db.objects
      → All (λ o. validate_object o ≡ ok tt) u.objects
  pub audit : u.audit ≡ db.audit

found_object :
    (id : Text) (db : Database) {obj : ConfigObject}
    → get_for_update id db ≡ ok obj
    → find (has_id id) db.objects ≡ some obj
unfolding get_for_update
found_object id db h = ground arith

removed_database :
    (id : Text) (v : ℕ) (db : Database) {u : Database}
    → remove_object id v db ≡ ok u
    → (u.objects ≡ filter (survives id v) db.objects) × (u.audit ≡ db.audit)
unfolding remove_object
removed_database id v db h = ground arith

edge_database :
    (a b : Text) (db : Database) {u : Database}
    → (e : EdgeSpec) → record_edge e.from e.to e.kind db ≡ ok u
    → (u.objects ≡ db.objects) × (u.audit ≡ db.audit)
unfolding record_edge
edge_database a b db e h = ground arith

updated_database :
    (id : Text) (l : Lifecycle) (r : RetentionClass) (a : Authority) (db : Database)
    (obj : ConfigObject) {w : ℕ} {u : Database}
    → find (has_id id) db.objects ≡ some obj
    → apply_dimensions id obj.row_version l r a db ≡ ok (w, u)
    → (u.objects ≡ update_objects (at_version id obj.row_version) (redimension l r a) db.objects)
      × (u.audit ≡ db.audit)
      × (w ≡ obj.row_version + 1)
unfolding apply_dimensions
updated_database id l r a db obj f h = ground (arith, find-at_version id db.objects obj f, h)

module _ (sha256 : Text → Text) (jsonb_ok : Text → Bool) (begun committed : Result (Unit {0}))
    (now : ℕ) (marshal : Outcome → Result Text) where
  abbrev ports : Ports Database
  ports = wiring sha256 jsonb_ok begun committed now marshal

  apply_removal-ok :
      (cmd : Command) (obj : ConfigObject) (res r : Outcome) (db u : Database)
      → apply_removal ports cmd obj res db ≡ ok (r, u)
      → (remove_object cmd.cfg_id obj.row_version db ≡ ok u) × (r.removed ≡ true)
  unfolding apply_removal count_dependents
  apply_removal-ok cmd obj res r db u h =
      elim (Result-cases (remove_object cmd.cfg_id obj.row_version db)) [
        | inl (w, got) ↦ ground (arith, got, h)
        | inr (x, got) ↦ absurd (ground (arith, got, h))
      ]

  removal-Changed :
      (cmd : Command) (obj : ConfigObject) (res r : Outcome) (db u : Database)
      → find (has_id cmd.cfg_id) db.objects ≡ some obj
      → apply_removal ports cmd obj res db ≡ ok (r, u)
      → Changed cmd.cfg_id r db u
  removal-Changed cmd obj res r db u f h =
      let (got, removed) = apply_removal-ok cmd obj res r db u h in
      let (rows, audit) = removed_database cmd.cfg_id obj.row_version db got in
      let kept = survives cmd.cfg_id obj.row_version in
      record {
        target = λ q. inl (
          removed,
          ap (find (has_id cmd.cfg_id)) rows
              ∙ find-remove cmd.cfg_id obj.row_version db.objects obj q f refl,
        );
        others = λ d ne.
            ap (find (has_id d)) rows
            ∙ find-remove_other cmd.cfg_id obj.row_version d db.objects ne;
        unique = λ q. rw rows (filter-Unique kept db.objects q);
        valid = λ q a. rw rows (filter-All kept _ db.objects a);
        audit = audit;
      }

  record UpdateDone (cmd : Command) (obj : ConfigObject) (p : Plan) (r : Outcome) (db u : Database)
      : Type 0 where
    checked : validate_object (planned obj p) ≡ ok tt
    written :
        apply_dimensions cmd.cfg_id obj.row_version p.lifecycle p.retention p.authority db
        ≡ ok (r.row_version, u)
    reported :
        (r.new_lifecycle ≡ p.lifecycle)
        × (r.new_retention ≡ p.retention)
        × (r.new_authority ≡ p.authority)

  apply_update-ok :
      (cmd : Command) (obj : ConfigObject) (p : Plan) (res r : Outcome) (db u : Database)
      → apply_update ports cmd obj p res db ≡ ok (r, u)
      → UpdateDone cmd obj p r db u × (r.removed ≡ res.removed)
  unfolding apply_update
  apply_update-ok cmd obj p res r db u h =
      let (v, checked, h1) = >>=-eq-ok (validate_object (planned obj p)) _ h in
      let (w, written, h2) =
        >>=-eq-ok
          (apply_dimensions cmd.cfg_id obj.row_version p.lifecycle p.retention p.authority db) _
          h1 in
      (
        record {
          checked = checked;
          written = ground (arith, written, h2);
          reported = ground (arith, h2);
        },
        ground (arith, h2),
      )

  update-Changed :
      (cmd : Command) (obj : ConfigObject) (p : Plan) (r : Outcome) (db u : Database)
      → find (has_id cmd.cfg_id) db.objects ≡ some obj
      → r.removed ≡ false
      → UpdateDone cmd obj p r db u
      → Changed cmd.cfg_id r db u
  unfolding validate_object
  update-Changed cmd obj p r db u f kept d =
      let (rows, audit, version) =
        updated_database cmd.cfg_id p.lifecycle p.retention p.authority db obj f d.written in
      let change = redimension p.lifecycle p.retention p.authority in
      let id = cmd.cfg_id in
      let reported : change obj ≡ redimension r.new_lifecycle r.new_retention r.new_authority obj =
        ground (arith, d.reported) in
      record {
        target = λ q. inr (
          kept,
          obj,
          f,
          version,
          ap (find (has_id id)) rows
              ∙ find-update id obj.row_version change (λ o. refl) db.objects obj f refl
              ∙ ap some reported,
        );
        others = λ c ne.
            ap (find (has_id c)) rows
            ∙ find-update_other id obj.row_version change (λ o. refl) c db.objects ne;
        unique = λ q. rw rows (update-Unique id obj.row_version change (λ o. refl) db.objects q);
        valid = λ q a.
            rw rows
              (update-All id obj.row_version change (λ o. refl) _ db.objects obj q f d.checked a);
        audit = audit;
      }

  -- The edge changes neither the object rows nor the audit tables.
  Changed-same :
      (id from : Text) (r : Outcome) (db s u : Database)
      → u.objects ≡ s.objects
      → u.audit ≡ s.audit
      → Changed id r db s
      → Changed id (record r { successor_id = from }) db u
  Changed-same id from r db s u rows audit c = record {
    target = λ q. rw rows (c.target q);
    others = λ d ne. rw rows (c.others d ne);
    unique = λ q. rw rows (c.unique q);
    valid = λ q a. rw rows (c.valid q a);
    audit = audit ∙ c.audit;
  }

  edge-Changed :
      (id : Text) (e : Option EdgeSpec) (r res : Outcome) (db s u : Database)
      → apply_edge ports e r s ≡ ok (res, u)
      → Changed id r db s
      → Changed id res db u
  unfolding apply_edge
  edge-Changed id none r res db s u h c =
      subst (λ (x : Outcome × Database). Changed id x.0 db x.1) (cc h) c
  edge-Changed id (some e) r res db s u h c =
      let (w, got, h1) = >>=-eq-ok (record_edge e.from e.to e.kind s) _ h in
      let (rows, audit) = edge_database e.from e.to s e got in
      subst (λ (x : Outcome × Database). Changed id x.0 db x.1) (cc h1)
        (Changed-same id e.from r db s w rows audit c)

  plan-Changed :
      (cmd : Command) (obj : ConfigObject) (p : Plan) (r : Outcome) (db u : Database)
      → find (has_id cmd.cfg_id) db.objects ≡ some obj
      → apply_plan ports cmd obj p (new_outcome cmd now) db ≡ ok (r, u)
      → Changed cmd.cfg_id r db u
  unfolding apply_plan
  plan-Changed cmd obj p r db u f h = elim (Bool-cases p.remove) [
    | inl e ↦ removal-Changed cmd obj (new_outcome cmd now) r db u f (rw e at h)
    | inr e ↦
        let (done, kept) = apply_update-ok cmd obj p (new_outcome cmd now) r db u (rw e at h) in
        update-Changed cmd obj p r db u f kept done
  ]

  pub Mutated-Changed :
      (json : Json) (cmd : Command) (res : Outcome) (db u : Database)
      → Mutated ports json sha256 cmd db res u
      → Changed cmd.cfg_id res db u
  Mutated-Changed json cmd res db u m =
      let f = found_object cmd.cfg_id db m.found in
      edge-Changed cmd.cfg_id m.plan.edge m.applied.0 res db m.applied.1 u m.relate
        (plan-Changed cmd m.obj m.plan m.applied.0 db m.applied.1 f m.apply)
