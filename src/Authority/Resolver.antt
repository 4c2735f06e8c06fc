-- ===== src/Authority/Resolver.antt =====
-- internal/authority/resolver.go: resolveOne, ResolveAuthority and ResolveBatch. The notes of the
-- evidence are left out. Each clause of the replacement test answers the result that it decides on,
-- or none.
pub mod Replacement
pub mod Batch
use oneops.Base.{
  ℕ, Bool, true, false, not, ◌&&◌, Option, none, some, List, [], ◌∷◌, Text, is_empty, if◌then◌else◌,
}
use oneops.Domain.Errors.{Result, ok, err, ◌>>=◌}
use oneops.Authority.Graph.{
  AuthorityGraph, AuthorityResult, AuthorityEvidence, AuthorityState, AuthorityReason, Active,
  ReachInfo,
}
use oneops.Authority.ActiveSet.{lookup, compute_active_set}
use oneops.Authority.Clauses.{
  superseded_by, active_dependents_of, replacement_complete, active_artifact_citers_of,
  gap_after_removal,
}

abbrev pub no_evidence : AuthorityEvidence
no_evidence = record {
  is_baseline_member = false;
  reachable_via = [];
  superseded_by = [];
  active_dependents = [];
  missing_responsibilities = [];
  active_artifact_citations = [];
  uncovered_capabilities = [];
}

abbrev pub verdict : Text → AuthorityState → AuthorityReason → AuthorityEvidence → AuthorityResult
verdict cfg_id state reason evidence = record {
  cfg_id = cfg_id;
  state = state;
  reason = reason;
  evidence = evidence;
}

-- `isActive && info.baseline`
abbrev pub is_baseline_root : Option ReachInfo → Bool
is_baseline_root none = false
is_baseline_root (some info) = info.baseline

-- Rules 2 and 3.
unfoldable pub resolve_unreplaced : Text → Option ReachInfo → AuthorityResult
resolve_unreplaced id none =
    verdict id AuthorityState.non_normative AuthorityReason.not_reachable no_evidence
resolve_unreplaced id (some info) =
    verdict id AuthorityState.active
      (if info.baseline
        then AuthorityReason.baseline_member
        else AuthorityReason.reachable_from_baseline)
      (record no_evidence { is_baseline_member = info.baseline; reachable_via = info.via })

-- A clause decides, or the next one is asked.
abbrev pub or_else :
    Result (Option AuthorityResult) → Result AuthorityResult → Result AuthorityResult
or_else (err x) next = err x
or_else (ok none) next = next
or_else (ok (some r)) next = ok r

-- A clause keeps the object active where it has found something.
abbrev pub kept_if : Bool → AuthorityResult → Option AuthorityResult
kept_if true r = some r
kept_if false r = none

module _ (graph : AuthorityGraph) (id : Text) (active : Active) (superseders : List Text) where
  abbrev kept_by : AuthorityReason → AuthorityEvidence → AuthorityResult
  kept_by reason evidence =
      verdict id AuthorityState.active reason (record evidence { superseded_by = superseders })

  unfoldable pub dependency_clause : Result (Option AuthorityResult)
  dependency_clause = do
    deps ← active_dependents_of graph id active
    ok (
        kept_if (not (is_empty deps)) (
          kept_by AuthorityReason.superseded_active_dependency
            (record no_evidence { active_dependents = deps })))

  unfoldable pub responsibility_clause : Result (Option AuthorityResult)
  responsibility_clause = elim graph.responsibilities [
    | none ↦ ok none
    | some source ↦ do
      r ← replacement_complete graph source id superseders
      ok (
          kept_if (not r.0) (
            kept_by AuthorityReason.replacement_incomplete
              (record no_evidence { missing_responsibilities = r.1 })))
  ]

  unfoldable pub citation_clause : Result (Option AuthorityResult)
  citation_clause = elim graph.citations [
    | none ↦ ok none
    | some source ↦ do
      citers ← active_artifact_citers_of graph source id active
      ok (
          kept_if (not (is_empty citers)) (
            kept_by AuthorityReason.active_artifact_citation
              (record no_evidence { active_artifact_citations = citers })))
  ]

  unfoldable pub gap_clause : Result (Option AuthorityResult)
  gap_clause = elim graph.coverage [
    | none ↦ ok none
    | some source ↦ do
      uncovered ← gap_after_removal graph source id active
      ok (
          kept_if (not (is_empty uncovered)) (
            kept_by AuthorityReason.operational_gap
              (record no_evidence { uncovered_capabilities = uncovered })))
  ]

  -- Rule 1, where there are superseders.
  unfoldable pub resolve_replaced : Result AuthorityResult
  resolve_replaced =
      let replaced =
        verdict id AuthorityState.historical AuthorityReason.superseded
          (record no_evidence { superseded_by = superseders }) in
      let inconsistent =
        verdict id AuthorityState.unknown AuthorityReason.inconsistent_baseline_superseded
          (record no_evidence { is_baseline_member = true; superseded_by = superseders }) in
      let tested = or_else dependency_clause (
        or_else responsibility_clause
          (or_else citation_clause (or_else gap_clause (ok replaced)))) in
      if is_baseline_root (lookup id active) then ok inconsistent else tested

module _ (graph : AuthorityGraph) where
  abbrev missing_object : Text → AuthorityResult
  missing_object id = verdict id AuthorityState.unknown AuthorityReason.object_not_found no_evidence

  -- What is left of `resolveOne` for an object that exists.
  unfoldable pub resolve_existing : Text → Active → Result AuthorityResult
  resolve_existing id active = do
    superseders ← superseded_by graph id
    let replaced = resolve_replaced graph id active superseders
    if is_empty superseders then ok (resolve_unreplaced id (lookup id active)) else replaced

  -- `resolveOne`
  unfoldable pub resolve_one : Text → Active → Result AuthorityResult
  resolve_one id active = do
    exists ← graph.object_exists id
    let existing = resolve_existing id active
    if exists then existing else ok (missing_object id)

  -- The loop of `ResolveBatch`.
  unfoldable pub resolve_each : List Text → Active → Result (List AuthorityResult)
  resolve_each [] active = ok []
  resolve_each (id ∷ ids) active = do
    res ← resolve_one id active
    rest ← resolve_each ids active
    ok (res ∷ rest)

  abbrev pub within {ℓ} :
      {A : Type ℓ} → Option (Result Active) → (Active → Result A) → Option (Result A)
  within none k = none
  within (some (err x)) k = some (err x)
  within (some (ok active)) k = some (k active)

  -- `ResolveAuthority`, with the fuel of the active set
  unfoldable pub resolve_authority : ℕ → Text → Option (Result AuthorityResult)
  resolve_authority fuel id = within (compute_active_set graph fuel) (resolve_one id)

  -- `ResolveBatch`, with the fuel of the active set
  unfoldable pub resolve_batch : ℕ → List Text → Option (Result (List AuthorityResult))
  resolve_batch fuel ids = within (compute_active_set graph fuel) (resolve_each ids)
