-- ===== src/Authority/Evaluators.antt =====
-- The exported evaluators of the replacement test: activedeps.go, responsibility.go, citation.go and
-- gap.go of internal/authority, with their results of internal/domain.
pub mod Partition
use oneops.Base.{
  ℕ, Bool, true, false, not, Option, none, some, List, [], ◌∷◌, String, Text, is_blank, is_empty,
  mem, filter, if◌then◌else◌,
}
use oneops.Base.Sorting.{sort_strings}
use oneops.Domain.Errors.{Result, ok, err, inconsistent, reject_if, ◌>>=◌, ◌>>◌}
use oneops.Authority.Graph.{AuthorityGraph, Active}
use oneops.Authority.ActiveSet.{compute_active_set}
use oneops.Authority.Clauses.{
  active_dependents_of, responsibilities_of, active_artifact_citers_of, coverage_of,
  gap_after_removal,
}
use oneops.Authority.Resolver.{within}

-- `ActiveDependencyResult`, `ActiveCitationResult` and `GapResult`: an object, what was found for it
-- and whether that is anything.
pub record Finding : Type 0 where
  pub cfg_id : Text
  pub has_any : Bool
  pub found : List Text

-- `ResponsibilityResult`
pub record ResponsibilityResult : Type 0 where
  pub cfg_id : Text
  pub owned : List Text

-- `ReplacementResult`
pub record ReplacementResult : Type 0 where
  pub old_cfg_id : Text
  pub new_cfg_id : Text
  pub complete : Bool
  pub transferred : List Text
  pub missing : List Text

-- `GapReplacementResult`
pub record GapReplacementResult : Type 0 where
  pub old_cfg_id : Text
  pub new_cfg_id : Text
  pub complete : Bool
  pub covered : List Text
  pub missing : List Text

-- `CitationReplacementResult`
pub record CitationReplacementResult : Type 0 where
  pub old_cfg_id : Text
  pub new_cfg_id : Text
  pub cleared : Bool
  pub remaining : List Text

abbrev pub finding : Text → List Text → Finding
finding id found = record { cfg_id = id; has_any = not (is_empty found); found = found }

-- The end of `ResponsibilityEvaluator.EvaluateReplacement`: the old ids that are also new, and the others.
unfoldable pub compare_ids : Text → Text → List Text → List Text → ReplacementResult
compare_ids old_id new_id old new =
    let missing = filter (λ r. not (mem r new)) old in
    record {
      old_cfg_id = old_id;
      new_cfg_id = new_id;
      complete = is_empty missing;
      transferred = sort_strings (filter (λ r. mem r new) old);
      missing = sort_strings missing;
    }

-- The loop over the old coverage in `GapEvaluator.EvaluateReplacement`: what it appends to `covered` and
-- to `missing`.
unfoldable pub split_coverage : List Text → List Text → List Text × List Text
split_coverage new [] = ([], [])
split_coverage new (c ∷ old) =
    let rest = split_coverage new old in
    if mem c new then (c ∷ rest.0, rest.1) else (rest.0, c ∷ rest.1)

-- The end of `GapEvaluator.EvaluateReplacement`
unfoldable pub compare_coverage : Text → Text → List Text → List Text → GapReplacementResult
compare_coverage old_id new_id old new =
    let split = split_coverage new old in
    record {
      old_cfg_id = old_id;
      new_cfg_id = new_id;
      complete = is_empty split.1;
      covered = sort_strings split.0;
      missing = sort_strings split.1;
    }

module _ (graph : AuthorityGraph) where
  unfoldable pub require_object : String → Text → Result (Unit {0})
  require_object kind id = do
    exists ← graph.object_exists id
    reject_if (not exists) (inconsistent kind id)

  -- The checks of the two ids of a replacement.
  unfoldable pub require_pair : Text → Text → Result (Unit {0})
  require_pair old_id new_id = do
    reject_if (is_blank new_id) (inconsistent "empty_replacement_target" old_id)
    require_object "broken_replacement" old_id
    require_object "broken_replacement" new_id

  abbrev checked {ℓ} : {A : Type ℓ} → Result (Unit {0}) → Option (Result A) → Option (Result A)
  checked (err x) next = some (err x)
  checked (ok u) next = next

  -- The loop of the batches that share one active set.
  unfoldable pub evaluate_each :
      (Text → Active → Result Finding) → List Text → Active → Result (List Finding)
  evaluate_each evaluate [] active = ok []
  evaluate_each evaluate (id ∷ ids) active = do
    require_object "missing_object" id
    res ← evaluate id active
    rest ← evaluate_each evaluate ids active
    ok (res ∷ rest)

  -- `ActiveDependencyEvaluator.evaluate`
  unfoldable pub evaluate_dependents : Text → Active → Result Finding
  evaluate_dependents id active = do
    deps ← active_dependents_of graph id active
    ok (finding id deps)

  -- `EvaluateActiveDependencies` and its batch, with the fuel of the active set
  unfoldable pub evaluate_active_dependencies : ℕ → Text → Option (Result Finding)
  evaluate_active_dependencies fuel id =
      checked (require_object "missing_object" id)
        (within graph (compute_active_set graph fuel) (evaluate_dependents id))

  unfoldable pub evaluate_dependencies_batch : ℕ → List Text → Option (Result (List Finding))
  evaluate_dependencies_batch fuel ids =
      within graph (compute_active_set graph fuel) (evaluate_each evaluate_dependents ids)

  module _ (source : Text → Result (List Text)) where
    -- `EvaluateResponsibilities`
    unfoldable pub evaluate_responsibilities : Text → Result ResponsibilityResult
    evaluate_responsibilities id = do
      require_object "missing_object" id
      owned ← responsibilities_of graph source id
      ok (record { cfg_id = id; owned = owned })

    -- `ResponsibilityEvaluator.EvaluateReplacement`
    unfoldable pub evaluate_replacement : Text → Text → Result ReplacementResult
    evaluate_replacement old_id new_id = do
      require_pair old_id new_id
      old ← responsibilities_of graph source old_id
      new ← responsibilities_of graph source new_id
      ok (compare_ids old_id new_id old new)

    -- `ResponsibilityEvaluator.EvaluateBatch`
    unfoldable pub evaluate_responsibilities_batch : List Text → Result (List ResponsibilityResult)
    evaluate_responsibilities_batch [] = ok []
    evaluate_responsibilities_batch (id ∷ ids) = do
      res ← evaluate_responsibilities id
      rest ← evaluate_responsibilities_batch ids
      ok (res ∷ rest)

    unfoldable pub evaluate_citers : Text → Active → Result Finding
    evaluate_citers id active = do
      citers ← active_artifact_citers_of graph source id active
      ok (finding id citers)

    -- `EvaluateCitations`
    unfoldable pub evaluate_citations : ℕ → Text → Option (Result Finding)
    evaluate_citations fuel id =
        checked (require_object "missing_object" id)
          (within graph (compute_active_set graph fuel) (evaluate_citers id))

    -- `ArtifactCitationEvaluator.EvaluateReplacement`
    unfoldable pub evaluate_citation_replacement :
        ℕ → Text → Text → Option (Result CitationReplacementResult)
    evaluate_citation_replacement fuel old_id new_id = checked (require_pair old_id new_id) (
        within graph (compute_active_set graph fuel) (λ active.
          active_artifact_citers_of graph source old_id active >>= λ remaining. ok (record {
            old_cfg_id = old_id;
            new_cfg_id = new_id;
            cleared = is_empty remaining;
            remaining = remaining;
          })))

    -- `ArtifactCitationEvaluator.EvaluateBatch`
    unfoldable pub evaluate_citations_batch : ℕ → List Text → Option (Result (List Finding))
    evaluate_citations_batch fuel ids =
        within graph (compute_active_set graph fuel) (evaluate_each evaluate_citers ids)

    unfoldable pub evaluate_uncovered : Text → Active → Result Finding
    evaluate_uncovered id active = do
      uncovered ← gap_after_removal graph source id active
      ok (finding id uncovered)

    -- `EvaluateGap`
    unfoldable pub evaluate_gap : ℕ → Text → Option (Result Finding)
    evaluate_gap fuel id =
        checked (require_object "missing_object" id)
          (within graph (compute_active_set graph fuel) (evaluate_uncovered id))

    -- `GapEvaluator.EvaluateReplacement`
    unfoldable pub evaluate_gap_replacement : Text → Text → Result GapReplacementResult
    evaluate_gap_replacement old_id new_id = do
      require_pair old_id new_id
      old ← coverage_of graph source old_id
      new ← coverage_of graph source new_id
      ok (compare_coverage old_id new_id old new)

    -- `GapEvaluator.EvaluateBatch`
    unfoldable pub evaluate_gaps_batch : ℕ → List Text → Option (Result (List Finding))
    evaluate_gaps_batch fuel ids =
        within graph (compute_active_set graph fuel) (evaluate_each evaluate_uncovered ids)
