-- ===== src/Domain/Enums.antt =====
-- internal/domain/enums.go, audit.go and dependencyedge.go: the closed sets of names. A Go type of
-- named strings is a data type with a constructor for each constant, and `other` for any other text.
use oneops.Base.{Bool, true, false, [], Text, codes}

pub data Role : Type 0 where
  constitution governance eng_spec validation evidence audit planning reference working : Role
  other : Text → Role

unfoldable pub valid_role : Role → Bool
valid_role (Role.other s) = false
valid_role _ = true

pub data Lifecycle : Type 0 where
  draft in_review ratified approved in_progress complete suspended deprecated withdrawn : Lifecycle
  other : Text → Lifecycle

unfoldable pub valid_lifecycle : Lifecycle → Bool
valid_lifecycle (Lifecycle.other s) = false
valid_lifecycle _ = true

pub data Authority : Type 0 where
  active historical non_normative : Authority
  other : Text → Authority

unfoldable pub valid_authority : Authority → Bool
valid_authority (Authority.other s) = false
valid_authority _ = true

-- `a == ""`
unfoldable pub no_authority : Authority → Bool
no_authority (Authority.other []) = true
no_authority _ = false

pub data RetentionClass : Type 0 where
  current_baseline current_planning historical_record superseded_plan : RetentionClass
  historical_evidence audit_record working_material : RetentionClass
  other : Text → RetentionClass

unfoldable pub valid_retention : RetentionClass → Bool
valid_retention (RetentionClass.other s) = false
valid_retention _ = true

pub data Format : Type 0 where
  md mdx json : Format
  other : Text → Format

unfoldable pub valid_format : Format → Bool
valid_format (Format.other s) = false
valid_format _ = true

pub data EdgeKind : Type 0 where
  depends extends supersedes : EdgeKind
  other : Text → EdgeKind

unfoldable pub valid_edge_kind : EdgeKind → Bool
valid_edge_kind (EdgeKind.other s) = false
valid_edge_kind _ = true

-- The twelve configuration operations.
pub data Operation : Type 0 where
  ratification approval extension replacement suspension deprecation withdrawal : Operation
  archiving historical_preservation deletion baseline_freeze amendment : Operation
  other : Text → Operation

unfoldable pub valid_operation : Operation → Bool
valid_operation (Operation.other s) = false
valid_operation _ = true

-- `string(op)`
unfoldable pub operation_text : Operation → Text
operation_text ratification = codes "ratification"
operation_text approval = codes "approval"
operation_text extension = codes "extension"
operation_text replacement = codes "replacement"
operation_text suspension = codes "suspension"
operation_text deprecation = codes "deprecation"
operation_text withdrawal = codes "withdrawal"
operation_text archiving = codes "archiving"
operation_text historical_preservation = codes "historical_preservation"
operation_text deletion = codes "deletion"
operation_text baseline_freeze = codes "baseline_freeze"
operation_text amendment = codes "amendment"
operation_text (Operation.other s) = s

-- `string(kind)`
unfoldable pub edge_kind_text : EdgeKind → Text
edge_kind_text depends = codes "depends"
edge_kind_text extends = codes "extends"
edge_kind_text supersedes = codes "supersedes"
edge_kind_text (EdgeKind.other s) = s
