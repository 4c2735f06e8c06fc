-- ===== src/Authority/Clauses.antt =====
-- The clauses of the replacement test: activedeps.go, responsibility.go, citation.go and gap.go of
-- internal/authority, and supersededBy of resolver.go. A Go map used as a set is a list.
pub mod Witnessing
pub mod Gaps
use oneops.Base.{
  ℕ, Bool, true, false, not, ◌&&◌, ◌||◌, Option, none, some, List, [], ◌∷◌, ◌++◌, Text, text_eq,
  mem, trim_space, is_empty, filter, map, if◌then◌else◌,
}
use oneops.Base.Sorting.{sort_strings}
use oneops.Domain.Errors.{Error, Result, ok, err, inconsistent, reject_if, ◌>>=◌, ◌>>◌}
use oneops.Domain.Objects.{DependencyEdge}
use oneops.Authority.Graph.{AuthorityGraph, Active, carries, is_supersedes}
use oneops.Authority.ActiveSet.{seen}

unfoldable pub superseders_in : List DependencyEdge → List Text
superseders_in edges = map (λ e. e.from_cfg) (filter (λ e. is_supersedes e.edge_kind) edges)

-- The loop of `activeDependentsOf`; the list is `seen`.
unfoldable pub dependents_in : Active → List Text → List DependencyEdge → List Text
dependents_in active known [] = []
dependents_in active known (e ∷ es) =
    let rest = dependents_in active known es in
    let more = e.from_cfg ∷ dependents_in active (e.from_cfg ∷ known) es in
    if carries e.edge_kind && (seen e.from_cfg active && not (mem e.from_cfg known))
    then more
    else rest

-- The loop of `responsibilitiesOf`: a blank id is skipped, a repeated one is an error.
unfoldable pub distinct_or_skip : Text → List Text → List Text → Result (List Text)
distinct_or_skip cfg_id known [] = ok []
distinct_or_skip cfg_id known (r ∷ raw) =
    let id = trim_space r in
    let skipped = distinct_or_skip cfg_id known raw in
    let kept = distinct_or_skip cfg_id (id ∷ known) raw in
    if is_empty id then skipped else do
      reject_if (mem id known) (inconsistent "duplicate_responsibility" cfg_id)
      rest ← kept
      ok (id ∷ rest)

-- The loop of `citationsOf` and `coverageOf`: a blank id and a repeated one are errors.
unfoldable pub distinct_ids : Error → Error → List Text → List Text → Result (List Text)
distinct_ids malformed duplicate known [] = ok []
distinct_ids malformed duplicate known (r ∷ raw) =
    let id = trim_space r in
    let kept = distinct_ids malformed duplicate (id ∷ known) raw in
    do
      reject_if (is_empty id) malformed
      reject_if (mem id known) duplicate
      rest ← kept
      ok (id ∷ rest)

abbrev pub active_ids : Active → List Text
active_ids active = sort_strings (map (λ entry. entry.0) active)

module _ (graph : AuthorityGraph) where
  -- `supersededBy`
  unfoldable pub superseded_by : Text → Result (List Text)
  superseded_by cfg_id = do edges ← graph.edges_to cfg_id; ok (sort_strings (superseders_in edges))

  -- `activeDependentsOf`
  unfoldable pub active_dependents_of : Text → Active → Result (List Text)
  active_dependents_of cfg_id active = do
    edges ← graph.edges_to cfg_id
    ok (sort_strings (dependents_in active [] edges))

  -- `responsibilitiesOf`; the first argument is the source.
  unfoldable pub responsibilities_of : (Text → Result (List Text)) → Text → Result (List Text)
  responsibilities_of source cfg_id = do
    raw ← source cfg_id
    ids ← distinct_or_skip cfg_id [] raw
    ok (sort_strings ids)

  -- The union of what the superseders own.
  unfoldable pub owned_by : (Text → Result (List Text)) → List Text → Result (List Text)
  owned_by source [] = ok []
  owned_by source (s ∷ superseders) = do
    own ← responsibilities_of source s
    rest ← owned_by source superseders
    ok (own ++ rest)

  abbrev missing_from : List Text → List Text → Bool × List Text
  missing_from old covered =
      let missing = filter (λ r. not (mem r covered)) old in
      (is_empty missing, sort_strings missing)

  -- `replacementComplete`
  unfoldable pub replacement_complete :
      (Text → Result (List Text)) → Text → List Text → Result (Bool × List Text)
  replacement_complete source cfg_id superseders = do
    old ← responsibilities_of source cfg_id
    let covered = owned_by source superseders
    if is_empty old then ok (true, []) else covered >>= λ c. ok (missing_from old c)

  -- The check that each cited id exists.
  unfoldable pub check_cited : Text → List Text → Result (Unit {0})
  check_cited cfg_id [] = ok tt
  check_cited cfg_id (id ∷ ids) = do
    exists ← graph.object_exists id
    reject_if (not exists) (inconsistent "unknown_artifact_reference" cfg_id)
    check_cited cfg_id ids

  -- `citationsOf`
  unfoldable pub citations_of : (Text → Result (List Text)) → Text → Result (List Text)
  citations_of source cfg_id = do
    raw ← source cfg_id
    ids ←
        distinct_ids (inconsistent "malformed_citation_metadata" cfg_id)
          (inconsistent "duplicate_citation" cfg_id) [] raw
    check_cited cfg_id (sort_strings ids)
    ok (sort_strings ids)

  -- The loop of `activeArtifactCitersOf`.
  unfoldable pub citers_among : (Text → Result (List Text)) → Text → List Text → Result (List Text)
  citers_among source target [] = ok []
  citers_among source target (a ∷ ids) =
      let rest = citers_among source target ids in
      if text_eq a target then rest else do
        cites ← citations_of source a
        citers ← rest
        ok (if mem target cites then a ∷ citers else citers)

  -- `activeArtifactCitersOf`
  unfoldable pub active_artifact_citers_of :
      (Text → Result (List Text)) → Text → Active → Result (List Text)
  active_artifact_citers_of source target active = citers_among source target (active_ids active)

  -- `coverageOf`
  unfoldable pub coverage_of : (Text → Result (List Text)) → Text → Result (List Text)
  coverage_of source cfg_id = do
    raw ← source cfg_id
    ids ←
        distinct_ids (inconsistent "malformed_coverage_metadata" cfg_id)
          (inconsistent "duplicate_coverage" cfg_id) [] raw
    ok (sort_strings ids)

  -- The union of the coverage of all ids but one.
  unfoldable pub covered_without :
      (Text → Result (List Text)) → Text → List Text → Result (List Text)
  covered_without source cfg_id [] = ok []
  covered_without source cfg_id (a ∷ ids) =
      let rest = covered_without source cfg_id ids in
      if text_eq a cfg_id
      then rest
      else do own ← coverage_of source a; others ← rest; ok (own ++ others)

  -- `gapAfterRemoval`
  unfoldable pub gap_after_removal :
      (Text → Result (List Text)) → Text → Active → Result (List Text)
  gap_after_removal source cfg_id active = do
    own ← coverage_of source cfg_id
    let covered = covered_without source cfg_id (active_ids active)
    if is_empty own then ok [] else covered >>= λ c. ok (filter (λ id. not (mem id c)) own)
