-- ===== src/Examples/Replacements.antt =====
-- The theorems on replacements and batches at the objects of the authority examples.
use oneops.Base.{
  ◌≡◌, refl, false, List, [], ◌∷◌, Text, codes, mem, text_eq, text_le, trim_space, if◌then◌else◌,
}
use oneops.Base.Sorting.{sort_by}
use oneops.Domain.Errors.{Result, ok}
use oneops.Authority.Clauses.{
  distinct_or_skip, responsibilities_of, distinct_ids, coverage_of, superseders_in, superseded_by,
}
use oneops.Authority.ActiveSet.{lookup}
use oneops.Authority.Resolver.{resolve_one, resolve_existing, resolve_unreplaced, resolve_each}
use oneops.Authority.Evaluators.{
  ReplacementResult, GapReplacementResult, compare_ids, split_coverage, compare_coverage,
  require_object, require_pair, evaluate_replacement, evaluate_gap_replacement,
}
use oneops.Authority.Evaluators.Partition.{
  Partition, CoveragePartition, evaluate_replacement-Partition, evaluate_gap_replacement-Partition,
}
use oneops.Examples.Authorities.{base_id, part_id, old_id, small_graph, small_active, base_result}

-- The old object owns two responsibilities, any other owns one of them.
abbrev owners : Text → Result (List Text)
owners id = ok (if text_eq id old_id then codes "backup" ∷ codes "dns" ∷ [] else codes "dns" ∷ [])

abbrev one_missing : ReplacementResult
one_missing = record {
  old_cfg_id = old_id;
  new_cfg_id = part_id;
  complete = false;
  transferred = codes "dns" ∷ [];
  missing = codes "backup" ∷ [];
}

old_owns : responsibilities_of small_graph owners old_id ≡ ok (codes "backup" ∷ codes "dns" ∷ [])
unfolding responsibilities_of distinct_or_skip mem text_eq sort_by text_le trim_space
old_owns = refl

part_owns : responsibilities_of small_graph owners part_id ≡ ok (codes "dns" ∷ [])
unfolding responsibilities_of distinct_or_skip mem text_eq sort_by text_le trim_space
part_owns = refl

part_replaces : evaluate_replacement small_graph owners old_id part_id ≡ ok one_missing
unfolding evaluate_replacement require_pair require_object compare_ids responsibilities_of
    distinct_or_skip mem text_eq sort_by text_le trim_space
part_replaces = refl

evaluate_replacement-Partition_example :
    Partition (codes "backup" ∷ codes "dns" ∷ []) (codes "dns" ∷ []) one_missing
evaluate_replacement-Partition_example =
    evaluate_replacement-Partition small_graph owners old_id part_id
      (codes "backup" ∷ codes "dns" ∷ []) (codes "dns" ∷ []) one_missing old_owns part_owns
      part_replaces

-- The old object provides two coverage ids, any other provides one of them.
abbrev dns_not_covered : GapReplacementResult
dns_not_covered = record {
  old_cfg_id = old_id;
  new_cfg_id = part_id;
  complete = false;
  covered = codes "backup" ∷ [];
  missing = codes "dns" ∷ [];
}

abbrev providers : Text → Result (List Text)
providers id =
    ok (if text_eq id old_id then codes "dns" ∷ codes "backup" ∷ [] else codes "backup" ∷ [])

old_provides : coverage_of small_graph providers old_id ≡ ok (codes "backup" ∷ codes "dns" ∷ [])
unfolding coverage_of distinct_ids mem text_eq sort_by text_le trim_space
old_provides = refl

part_provides : coverage_of small_graph providers part_id ≡ ok (codes "backup" ∷ [])
unfolding coverage_of distinct_ids mem text_eq sort_by text_le trim_space
part_provides = refl

part_covers : evaluate_gap_replacement small_graph providers old_id part_id ≡ ok dns_not_covered
unfolding evaluate_gap_replacement require_pair require_object compare_coverage split_coverage
    coverage_of distinct_ids mem text_eq sort_by text_le trim_space
part_covers = refl

evaluate_gap_replacement-Partition_example :
    CoveragePartition (codes "backup" ∷ codes "dns" ∷ []) (codes "backup" ∷ []) dns_not_covered
evaluate_gap_replacement-Partition_example =
    evaluate_gap_replacement-Partition small_graph providers old_id part_id
      (codes "backup" ∷ codes "dns" ∷ []) (codes "backup" ∷ []) dns_not_covered old_provides
      part_provides part_covers

base_batch :
    resolve_each small_graph (base_id ∷ base_id ∷ []) small_active
    ≡ ok (base_result ∷ base_result ∷ [])
unfolding resolve_each resolve_one resolve_existing resolve_unreplaced superseded_by superseders_in
    lookup text_eq sort_by
base_batch = refl
