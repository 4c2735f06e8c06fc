-- ===== src/Domain/Objects.antt =====
-- internal/domain/configobject.go and dependencyedge.go: entities and their Validate. A message
-- leaves out the offending value that the Go text ends in.
use oneops.Base.{
  ℕ, ◌≡◌, refl, Bool, true, false, ◌&&◌, ◌||◌, not, List, [], ◌∷◌, Text, codes, is_blank, is_empty,
  length, ltb, leb, ◌==◌, if◌then◌else◌,
}
use oneops.Domain.Enums.{
  Role, Lifecycle, Authority, RetentionClass, EdgeKind, Format, historical, current_baseline,
  valid_role, valid_lifecycle, valid_authority, no_authority, valid_retention, valid_edge_kind,
  valid_format,
}
use oneops.Domain.Errors.{Result, validation, reject_if, ◌>>◌}

pub record ConfigObject : Type 0 where
  pub cfg_id : Text
  pub artifact : Text
  pub version : Text
  pub role : Role
  pub lifecycle : Lifecycle
  pub retention_class : RetentionClass
  pub authority : Authority
  pub ratified_by : Text
  pub review_cycle : Text
  pub retention_policy : Text
  pub metadata : List (Text × Text)
  pub row_version : ℕ
  pub created_at : ℕ
  pub updated_at : ℕ

abbrev pub is_baseline : RetentionClass → Bool
is_baseline current_baseline = true
is_baseline _ = false

abbrev pub is_historical : Authority → Bool
is_historical historical = true
is_historical _ = false

abbrev is_digit : ℕ → Bool
is_digit c = leb b'0' c && leb c b'9'

-- [0-9A-Za-z.-]
abbrev is_tag_char : ℕ → Bool
is_tag_char c =
    is_digit c
    || (leb b'A' c && leb c b'Z')
    || (leb b'a' c && leb c b'z')
    || (c == b'.')
    || (c == b'-')

-- The states of a matcher for `semverRe`: which part is being read, and whether that part has a
-- character yet.
pub data SemverState : Type 0 where
  major minor patch : Bool → SemverState
  pre build : Bool → SemverState

semver_from : SemverState → Text → Bool
semver_from (major seen) [] = false
semver_from (minor seen) [] = false
semver_from (patch seen) [] = seen
semver_from (pre seen) [] = seen
semver_from (build seen) [] = seen
semver_from (major seen) (c ∷ s) =
    let digit = semver_from (major true) s in
    let dot = semver_from (minor false) s in
    if is_digit c then digit else if seen && (c == b'.') then dot else false
semver_from (minor seen) (c ∷ s) =
    let digit = semver_from (minor true) s in
    let dot = semver_from (patch false) s in
    if is_digit c then digit else if seen && (c == b'.') then dot else false
semver_from (patch seen) (c ∷ s) =
    let digit = semver_from (patch true) s in
    let dash = semver_from (pre false) s in
    let plus = semver_from (build false) s in
    if is_digit c
    then digit
    else if seen && (c == b'-')
    then dash
    else if seen && (c == b'+')
    then plus
    else false
semver_from (pre seen) (c ∷ s) =
    let tag = semver_from (pre true) s in
    let plus = semver_from (build false) s in
    if is_tag_char c then tag else if seen && (c == b'+') then plus else false
semver_from (build seen) (c ∷ s) =
    let tag = semver_from (build true) s in if is_tag_char c then tag else false

-- `semverRe.MatchString`: MAJOR.MINOR.PATCH, then -PRE and +BUILD where they stand.
unfoldable pub is_semver : Text → Bool
unfolding semver_from
is_semver = semver_from (major false)

semver_test : is_semver (codes "1.20.3-rc.1+b7") ≡ true
unfolding is_semver
semver_test = refl

-- `ConfigObject.Validate`
unfoldable pub validate_object : ConfigObject → Result (Unit {0})
validate_object c = do
  reject_if (is_blank c.artifact) (validation "artifact" "must not be empty")
  reject_if (ltb 512 (length c.artifact)) (validation "artifact" "must be at most 512 characters")
  reject_if (not (is_semver c.version))
      (validation "version" "must be semantic version MAJOR.MINOR.PATCH")
  reject_if (not (valid_role c.role)) (validation "role" "unknown role")
  reject_if (not (valid_lifecycle c.lifecycle)) (validation "lifecycle" "unknown lifecycle")
  reject_if (not (valid_retention c.retention_class))
      (validation "retention_class" "unknown retention class")
  reject_if (not (no_authority c.authority) && not (valid_authority c.authority))
      (validation "authority" "unknown authority")
  reject_if (is_empty c.retention_policy) (validation "retention_policy" "must not be empty")
  reject_if (is_baseline c.retention_class && is_historical c.authority)
      (validation "retention_class" "current_baseline is incompatible with historical authority")

pub record ArtifactVersion : Type 0 where
  pub cfg_id : Text
  pub version : Text
  pub body_uri : Text
  pub content_hash : Text
  pub format : Format
  pub created_at : ℕ

-- `ArtifactVersion.Validate`
unfoldable pub validate_version : ArtifactVersion → Result (Unit {0})
validate_version a = do
  reject_if (is_blank a.cfg_id) (validation "cfg_id" "must not be empty")
  reject_if (is_blank a.body_uri) (validation "body_uri" "must not be empty")
  reject_if (not (length a.content_hash == 64))
      (validation "content_hash" "must be a hex sha256 (64 chars)")
  reject_if (not (valid_format a.format)) (validation "format" "unknown format")

-- `dependency_edge` without its id and times, which nothing modelled reads.
pub record DependencyEdge : Type 0 where
  pub from_cfg : Text
  pub to_cfg : Text
  pub edge_kind : EdgeKind

-- `DependencyEdge.Validate`
unfoldable pub validate_edge : DependencyEdge → Result (Unit {0})
validate_edge e = do
  reject_if (is_blank e.from_cfg) (validation "from_cfg" "must not be empty")
  reject_if (is_blank e.to_cfg) (validation "to_cfg" "must not be empty")
  reject_if (not (valid_edge_kind e.edge_kind)) (validation "edge_kind" "unknown edge kind")
