-- ===== src/Governance/Tables.antt =====
-- internal/store/postgres/governance_store.go over the tables configuration_object and
-- dependency_edge (20260722000001_init.sql, 20260722000002_graph.sql) beside the audit tables.
pub mod Rows
pub mod Execute
pub mod Invariant
pub mod History
use oneops.Base.{
  ℕ, ◌+◌, Bool, true, false, not, ◌&&◌, ◌||◌, Option, none, some, List, [], ◌∷◌, ◌++◌, Text, codes,
  text_eq, ◌==◌, if◌then◌else◌, find, any, filter, length, map,
}
use oneops.Domain.Enums.{
  Lifecycle, RetentionClass, Authority, EdgeKind, Operation, edge_kind_text, valid_edge_kind,
  valid_lifecycle, valid_retention, valid_authority,
}
use oneops.Domain.Errors.{
  Result, ok, err, not_found, conflict, version_mismatch, external, reject_if, ◌>>=◌, ◌>>◌,
}
use oneops.Domain.Objects.{ConfigObject, DependencyEdge}
use oneops.Domain.AuditTypes.{AuditEvent}
use oneops.Audit.Tables.{AuditTables}
use oneops.Audit.Appender.{audit_store, append_tx}
use oneops.Audit.Resolve.{AppendInput}
use oneops.Governance.Engine.{Ports, Outcome, allow_all}

pub record Database : Type 0 where
  pub objects : List ConfigObject
  pub edges : List DependencyEdge
  pub audit : AuditTables

abbrev pub has_id : Text → ConfigObject → Bool
has_id id o = text_eq o.cfg_id id

abbrev or_not_found : Option ConfigObject → Result ConfigObject
or_not_found none = err not_found
or_not_found (some o) = ok o

-- `GetForUpdate`
unfoldable pub get_for_update : Text → Database → Result ConfigObject
get_for_update id db = or_not_found (find (has_id id) db.objects)

abbrev pub at_version : Text → ℕ → ConfigObject → Bool
at_version id expected o = has_id id o && (o.row_version == expected)

abbrev redimension : Lifecycle → RetentionClass → Authority → ConfigObject → ConfigObject
redimension lifecycle retention authority o = record o {
  lifecycle = lifecycle;
  retention_class = retention;
  authority = authority;
  row_version = o.row_version + 1;
}

-- UPDATE … WHERE cfg_id AND row_version; cfg_id is the primary key.
unfoldable pub update_objects :
    (ConfigObject → Bool) → (ConfigObject → ConfigObject) → List ConfigObject → List ConfigObject
update_objects p f [] = []
update_objects p f (o ∷ os) = (if p o then f o else o) ∷ update_objects p f os

-- `ApplyDimensions`, with the checks of the table. `updated_at = now()` is not read by the model.
unfoldable pub apply_dimensions :
    Text → ℕ → Lifecycle → RetentionClass → Authority → Database → Result (ℕ × Database)
apply_dimensions id expected lifecycle retention authority db =
    elim (find (at_version id expected) db.objects) [
      | none ↦ err version_mismatch
      | some o ↦ do
        reject_if
            (not (
              valid_lifecycle lifecycle
              && (valid_retention retention && valid_authority authority)))
            (external (codes "governance apply dimensions: check"))
        ok (
          o.row_version + 1,
          record db {
            objects =
                update_objects (at_version id expected) (redimension lifecycle retention authority)
                  db.objects;
          },
        )
    ]

-- `CountDependents`
unfoldable pub count_dependents : Text → Database → Result ℕ
count_dependents id db = ok (length (filter (λ e. text_eq e.to_cfg id) db.edges))

-- `RemoveObject`, with ON DELETE CASCADE of the edges at both ends.
unfoldable pub remove_object : Text → ℕ → Database → Result Database
remove_object id expected db = do
  reject_if (not (any (at_version id expected) db.objects)) version_mismatch
  ok (record db {
    objects = filter (λ o. not (at_version id expected o)) db.objects;
    edges = filter (λ e. not (text_eq e.from_cfg id || text_eq e.to_cfg id)) db.edges;
  })

abbrev pub same_edge : Text → Text → EdgeKind → DependencyEdge → Bool
same_edge from to kind e =
    text_eq e.from_cfg from
    && (text_eq e.to_cfg to && text_eq (edge_kind_text e.edge_kind) (edge_kind_text kind))

-- `RecordEdge`: the unique constraint, then the foreign keys, then the check of the kind.
unfoldable pub record_edge : Text → Text → EdgeKind → Database → Result Database
record_edge from to kind db = do
  reject_if (not (valid_edge_kind kind)) (external (codes "ck_edge_kind"))
  reject_if (any (same_edge from to kind) db.edges) conflict
  reject_if (not (any (has_id from) db.objects && any (has_id to) db.objects)) not_found
  ok (record db {
    edges = db.edges ++ record { from_cfg = from; to_cfg = to; edge_kind = kind } ∷ [];
  })

module _ (sha256 : Text → Text) (jsonb_ok : Text → Bool) where
  abbrev within : Database → Result (AuditEvent × AuditTables) → Result (AuditEvent × Database)
  within db (ok (e, t)) = ok (e, record db { audit = t })
  within db (err x) = err x

  -- `AppendTx` on the audit tables, in the engine's transaction.
  unfoldable pub append_audit : AppendInput → Database → Result (AuditEvent × Database)
  append_audit e db = within db (append_tx sha256 (audit_store jsonb_ok) e db.audit)

  -- The engine's wiring: the store, `AllowAllAuthorizer` and the audit appender. The database
  -- decides whether the transaction begins and whether it commits.
  abbrev pub wiring :
      Result (Unit {0}) → Result (Unit {0}) → ℕ → (Outcome → Result Text) → Ports Database
  wiring begun committed now marshal = record {
    begin = λ db. begun >> ok db;
    commit = λ db. committed >> ok db;
    get_for_update = get_for_update;
    apply_dimensions = apply_dimensions;
    count_dependents = count_dependents;
    remove_object = remove_object;
    record_edge = record_edge;
    authorize = allow_all;
    append_audit = append_audit;
    now = now;
    marshal = marshal;
  }
