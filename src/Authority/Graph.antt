-- ===== src/Authority/Graph.antt =====
-- internal/domain/authority.go: the port of the resolver and its result.
use oneops.Base.{Bool, true, false, Option, List, Text}
use oneops.Domain.Errors.{Result}
use oneops.Domain.Enums.{EdgeKind, depends, extends, supersedes}
use oneops.Domain.Objects.{DependencyEdge}

pub data AuthorityState : Type 0 where
  active historical non_normative unknown : AuthorityState

pub data AuthorityReason : Type 0 where
  baseline_member reachable_from_baseline superseded not_reachable object_not_found :
      AuthorityReason
  inconsistent_baseline_superseded superseded_active_dependency : AuthorityReason
  replacement_incomplete active_artifact_citation operational_gap : AuthorityReason

-- `AuthorityEvidence` without its notes.
pub record AuthorityEvidence : Type 0 where
  pub is_baseline_member : Bool
  pub reachable_via : Text
  pub superseded_by : List Text
  pub active_dependents : List Text
  pub missing_responsibilities : List Text
  pub active_artifact_citations : List Text
  pub uncovered_capabilities : List Text

pub record AuthorityResult : Type 0 where
  pub cfg_id : Text
  pub state : AuthorityState
  pub reason : AuthorityReason
  pub evidence : AuthorityEvidence

-- `AuthorityGraph`, with the three sources of metadata that a data source may supply beside it.
pub record AuthorityGraph : Type 0 where
  pub baseline_roots : Result (List Text)
  pub object_exists : Text → Result Bool
  pub edges_from : Text → Result (List DependencyEdge)
  pub edges_to : Text → Result (List DependencyEdge)
  pub responsibilities : Option (Text → Result (List Text))
  pub citations : Option (Text → Result (List Text))
  pub coverage : Option (Text → Result (List Text))

-- `reachInfo`, and the map of what is active with the last entry first.
pub record ReachInfo : Type 0 where
  pub baseline : Bool
  pub via : Text

abbrev pub Active : Type 0
Active = List (Text × ReachInfo)

-- The edges that carry authority: depends and extends.
abbrev pub carries : EdgeKind → Bool
carries depends = true
carries extends = true
carries _ = false

abbrev pub is_supersedes : EdgeKind → Bool
is_supersedes supersedes = true
is_supersedes _ = false
