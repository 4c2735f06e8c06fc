-- ===== src/Examples/Authorities.antt =====
-- A baseline object, one that it depends on and one that the latter supersedes, and the theorems on
-- authority at them.
use oneops.Base.{
  ◌≡◌, ◌≢◌, refl, subst, inl, inr, ◌↔◌, Bool, true, List, [], ◌∷◌, Text, codes, mem, text_eq,
  trim_space, text_le, All, filter, none, some, if◌then◌else◌, Bool-cases, ◌&&◌,
}
use oneops.Base.Sorting.{sort_by}
use oneops.Domain.Errors.{Result, ok}
use oneops.Domain.Enums.{depends, supersedes, current_baseline}
use oneops.Domain.Objects.{ConfigObject, DependencyEdge}
use oneops.Authority.Graph.{
  AuthorityGraph, AuthorityResult, AuthorityState, AuthorityReason, Active,
}
use oneops.Traversal.Types.{join}
use oneops.Authority.Store.{
  authority_store, split_commas, stored_responsibilities, stored_coverage, stored_citations,
  metadata_value,
}
use oneops.Authority.Store.Parts.{CommaFree, stored_citations-join}
use oneops.Authority.ActiveSet.{
  seen, lookup, enter, enter_roots, follow, search, compute_active_set, root_info, via_info,
}
use oneops.Authority.ActiveSet.Termination.{compute_active_set-ends}
use oneops.Authority.ActiveSet.Reachability.{Reaches, compute_active_set-Reaches}
use oneops.Authority.Clauses.{
  superseders_in, dependents_in, superseded_by, active_dependents_of, active_ids, citations_of,
  check_cited, distinct_ids, citers_among, active_artifact_citers_of, coverage_of, covered_without,
  gap_after_removal,
}
use oneops.Authority.Clauses.Witnessing.{
  sources, mem-active_dependents_of, active_artifact_citers_of-exact,
}
use oneops.Authority.Clauses.Gaps.{Provides, gap_after_removal-exact}
use oneops.Authority.Resolver.{
  resolve_one, resolve_existing, resolve_unreplaced, verdict, no_evidence,
}
use oneops.Authority.Resolver.Replacement.{Replaced, resolve_one-Replaced}
use oneops.Examples.Fixtures.{draft_object}

abbrev pub base_id : Text
base_id = codes "base"

abbrev pub part_id : Text
part_id = codes "part"

abbrev pub old_id : Text
old_id = codes "old"

abbrev pub three_objects : List ConfigObject
three_objects =
    record draft_object { cfg_id = base_id; retention_class = current_baseline }
    ∷ record draft_object { cfg_id = part_id }
    ∷ record draft_object { cfg_id = old_id }
    ∷ []

abbrev pub two_edges : List DependencyEdge
two_edges =
    record { from_cfg = base_id; to_cfg = part_id; edge_kind = depends }
    ∷ record { from_cfg = part_id; to_cfg = old_id; edge_kind = supersedes }
    ∷ []

abbrev cites_old : Text → Result (List Text)
cites_old id = ok (if text_eq id base_id then old_id ∷ [] else [])

abbrev pub covers_dns : Text → Result (List Text)
covers_dns id = ok (codes "dns" ∷ [])

abbrev pub small_graph : AuthorityGraph
small_graph = authority_store three_objects two_edges

abbrev all_ids : List Text
all_ids = base_id ∷ part_id ∷ old_id ∷ []

filter-All :
    (P : DependencyEdge → Type 0) (p : DependencyEdge → Bool) (es : List DependencyEdge)
    → All P es
    → All P (filter p es)
filter-All P p [] h = tt
filter-All P p (e ∷ es) h = elim (Bool-cases (p e)) [
  | inl q ↦ rw q (h.0, filter-All P p es h.1)
  | inr q ↦ rw q (filter-All P p es h.1)
]

small_graph-closed :
    (n : Text) (es : List DependencyEdge)
    → small_graph.edges_from n ≡ ok es
    → All (λ e. mem e.to_cfg all_ids ≡ true) es
unfolding mem text_eq
small_graph-closed n es h = subst (All (λ e. mem e.to_cfg all_ids ≡ true)) (cc h) (
    filter-All (λ e. mem e.to_cfg all_ids ≡ true) (λ e. text_eq e.from_cfg n) two_edges
      (refl, (refl, tt)))

small_graph-roots : small_graph.baseline_roots ≡ ok (base_id ∷ [])
unfolding sort_by
small_graph-roots = refl

roots-known : All (λ r. mem r all_ids ≡ true) (base_id ∷ [])
unfolding mem text_eq
roots-known = (refl, tt)

compute_active_set-ends_example : compute_active_set small_graph 3 ≢ none
compute_active_set-ends_example =
    compute_active_set-ends small_graph all_ids small_graph-closed (base_id ∷ []) small_graph-roots
      roots-known

abbrev pub small_active : Active
small_active = (part_id, via_info base_id) ∷ (base_id, root_info) ∷ []

small_graph-active : compute_active_set small_graph 3 ≡ some (ok small_active)
unfolding compute_active_set search enter_roots enter follow seen sort_by text_eq
small_graph-active = refl

compute_active_set-Reaches_example :
    (seen part_id small_active ≡ true) ↔ Reaches small_graph (base_id ∷ []) part_id
compute_active_set-Reaches_example =
    compute_active_set-Reaches small_graph (base_id ∷ []) 3 small_active small_graph-roots
      small_graph-active part_id

resolve_one-Replaced_example :
    ((res : AuthorityResult) × (resolve_one small_graph old_id small_active ≡ ok res)
      × (res.state ≡ AuthorityState.historical))
    ↔ Replaced small_graph old_id small_active
resolve_one-Replaced_example = resolve_one-Replaced small_graph old_id small_active

abbrev pub base_result : AuthorityResult
base_result =
    verdict base_id AuthorityState.active AuthorityReason.baseline_member
      (record no_evidence { is_baseline_member = true })

pub base_resolved : resolve_one small_graph base_id small_active ≡ ok base_result
unfolding resolve_one resolve_existing resolve_unreplaced superseded_by superseders_in lookup
    text_eq sort_by
base_resolved = refl

part_dependents : active_dependents_of small_graph part_id small_active ≡ ok (base_id ∷ [])
unfolding active_dependents_of dependents_in seen mem text_eq sort_by
part_dependents = refl

abbrev part_edges : List DependencyEdge
part_edges = record { from_cfg = base_id; to_cfg = part_id; edge_kind = depends } ∷ []

part_edges-found : small_graph.edges_to part_id ≡ ok part_edges
unfolding text_eq
part_edges-found = refl

mem-active_dependents_of_example :
    mem base_id (base_id ∷ []) ≡ (seen base_id small_active && sources base_id part_edges)
mem-active_dependents_of_example =
    mem-active_dependents_of small_graph part_id base_id small_active part_edges (base_id ∷ [])
      part_edges-found part_dependents

old_citers : active_artifact_citers_of small_graph cites_old old_id small_active ≡ ok (base_id ∷ [])
unfolding active_artifact_citers_of citers_among citations_of check_cited distinct_ids mem text_eq
    sort_by trim_space text_le
old_citers = refl

active_artifact_citers_of-exact_example : (mem base_id (base_id ∷ []) ≡ true) ↔ (
    (seen base_id small_active ≡ true)
    × (base_id ≢ old_id)
    × (cites : List Text) × (citations_of small_graph cites_old base_id ≡ ok cites)
    × (mem old_id cites ≡ true))
active_artifact_citers_of-exact_example =
    active_artifact_citers_of-exact small_graph cites_old old_id base_id small_active (base_id ∷ [])
      old_citers

pub old_coverage : coverage_of small_graph covers_dns old_id ≡ ok (codes "dns" ∷ [])
unfolding coverage_of distinct_ids mem text_eq sort_by trim_space text_le
old_coverage = refl

old_gap : gap_after_removal small_graph covers_dns old_id small_active ≡ ok []
unfolding gap_after_removal coverage_of covered_without distinct_ids mem text_eq sort_by trim_space
    text_le
old_gap = refl

gap_after_removal-exact_example : (mem (codes "dns") [] ≡ true) ↔ (
    (mem (codes "dns") (codes "dns" ∷ []) ≡ true)
    × (¬ Provides small_graph covers_dns old_id (codes "dns") (active_ids small_active)))
gap_after_removal-exact_example =
    gap_after_removal-exact small_graph covers_dns old_id (codes "dns") small_active
      (codes "dns" ∷ []) [] old_coverage old_gap

abbrev citing : List ConfigObject
citing =
    record draft_object {
      cfg_id = base_id;
      metadata =
          (codes "citations", codes "old, part")
          ∷ (codes "responsibilities", codes " dns,,ops ")
          ∷ [];
    }
    ∷ []

owned_parts : stored_responsibilities citing base_id ≡ ok (codes "dns" ∷ codes "ops" ∷ [])
unfolding stored_responsibilities split_commas text_eq trim_space
owned_parts = refl

uncovered_object : stored_coverage citing base_id ≡ ok []
unfolding stored_coverage text_eq
uncovered_object = refl

citing_value : metadata_value citing (codes "citations") base_id ≡ some (codes "old, part")
unfolding text_eq
citing_value = refl

stored_citations-join_example :
    (parts : List Text) × (stored_citations citing base_id ≡ ok parts)
    × (join (codes ",") parts ≡ codes "old, part")
    × All CommaFree parts
stored_citations-join_example =
    stored_citations-join citing base_id (codes "old, part") citing_value
