-- ===== src/Authority/Evaluators/Partition.antt =====
-- The two EvaluateReplacement of internal/authority/responsibility.go and gap.go.
use oneops.Base.{
  ◌≡◌, refl, subst, ◌∙◌, ◌↔◌, inl, inr, Bool, true, not, ◌&&◌, List, [], ◌∷◌, Text, text_eq,
  text_eq_iff, is_empty, mem, filter, arith, Bool-cases,
}
use oneops.Base.Sorting.{mem-sort_strings}
use oneops.Domain.Errors.{Result, ok, >>=-eq-ok}
use oneops.Authority.Graph.{AuthorityGraph}
use oneops.Authority.Clauses.{responsibilities_of, coverage_of}
use oneops.Authority.Evaluators.{
  ReplacementResult, GapReplacementResult, compare_ids, split_coverage, compare_coverage,
  require_pair, evaluate_replacement, evaluate_gap_replacement,
}

mem-filter-mem :
    (x : Text) (f : Bool → Bool) (xs ys : List Text)
    → mem x (filter (λ r. f (mem r ys)) xs) ≡ (mem x xs && f (mem x ys))
unfolding mem
mem-filter-mem x f [] ys = refl
mem-filter-mem x f (y ∷ xs) ys = elim (Bool-cases (text_eq y x)) [
  | inl e ↦
      let same : y ≡ x = (text_eq_iff y x).0 e in ground (arith, same, e, mem-filter-mem x f xs ys)
  | inr e ↦ ground (arith, e, mem-filter-mem x f xs ys)
]

-- What a replacement reports of the ids that the old and the new object have.
pub record Partition (old new : List Text) (r : ReplacementResult) : Type 0 where
  pub transferred : (x : Text) → mem x r.transferred ≡ (mem x old && mem x new)
  pub missing : (x : Text) → mem x r.missing ≡ (mem x old && not (mem x new))
  pub complete : (r.complete ≡ true) ↔ ((x : Text) → mem x old ≡ true → mem x new ≡ true)

empty_filter :
    (old new : List Text)
    → (is_empty (filter (λ r. not (mem r new)) old) ≡ true)
      ↔ ((x : Text) → mem x old ≡ true → mem x new ≡ true)
unfolding mem
empty_filter old new =
    ((λ e x h. ground (arith, e, h, mem-filter-mem x not old new)), (λ all. empty_if old all))
  where
    empty_if :
        (xs : List Text)
        → ((x : Text) → mem x xs ≡ true → mem x new ≡ true)
        → is_empty (filter (λ r. not (mem r new)) xs) ≡ true
    empty_if [] all = refl
    empty_if (y ∷ xs) all =
        let own : mem y new ≡ true = all y (ground (arith, text_eq_iff y y)) in
        ground (arith, own, empty_if xs (λ x h. all x (ground (arith, h))))

compare_ids-Partition :
    (a b : Text) (old new : List Text) → Partition old new (compare_ids a b old new)
unfolding compare_ids
compare_ids-Partition a b old new = record {
  transferred =
      λ x. mem-sort_strings x (filter (λ r. mem r new) old) ∙ mem-filter-mem x (λ t. t) old new;
  missing =
      λ x. mem-sort_strings x (filter (λ r. not (mem r new)) old) ∙ mem-filter-mem x not old new;
  complete = empty_filter old new;
}

module _ (graph : AuthorityGraph) (source : Text → Result (List Text)) (old_id new_id : Text)
    (old new : List Text) (r : ReplacementResult) where
  -- EvaluateReplacement of the responsibilities reports as transferred what both objects own, as
  -- missing what the old one alone owns, and as complete that the new one owns all that the old one
  -- does.
  pub evaluate_replacement-Partition :
      responsibilities_of graph source old_id ≡ ok old
      → responsibilities_of graph source new_id ≡ ok new
      → evaluate_replacement graph source old_id new_id ≡ ok r
      → Partition old new r
  unfolding evaluate_replacement
  evaluate_replacement-Partition a b h =
      let (u, checked, h1) = >>=-eq-ok (require_pair graph old_id new_id) _ h in
      let same : compare_ids old_id new_id old new ≡ r = cc (rw (a, b) at h1) in
      subst (Partition old new) same (compare_ids-Partition old_id new_id old new)

-- What the replacement of an object reports of coverage ids.
pub record CoveragePartition (old new : List Text) (r : GapReplacementResult) : Type 0 where
  pub covered : (x : Text) → mem x r.covered ≡ (mem x old && mem x new)
  pub missing : (x : Text) → mem x r.missing ≡ (mem x old && not (mem x new))
  pub complete : (r.complete ≡ true) ↔ ((x : Text) → mem x old ≡ true → mem x new ≡ true)

split_coverage-filter :
    (new old : List Text)
    → split_coverage new old ≡ (filter (λ r. mem r new) old, filter (λ r. not (mem r new)) old)
unfolding split_coverage
split_coverage-filter new [] = refl
split_coverage-filter new (c ∷ old) = elim (Bool-cases (mem c new)) [
  | inl e ↦ rw (e, split_coverage-filter new old) refl
  | inr e ↦ rw (e, split_coverage-filter new old) refl
]

compare_coverage-CoveragePartition :
    (a b : Text) (old new : List Text) → CoveragePartition old new (compare_coverage a b old new)
unfolding compare_coverage
compare_coverage-CoveragePartition a b old new = rw (split_coverage-filter new old) (record {
  covered =
      λ x. mem-sort_strings x (filter (λ r. mem r new) old) ∙ mem-filter-mem x (λ t. t) old new;
  missing =
      λ x. mem-sort_strings x (filter (λ r. not (mem r new)) old) ∙ mem-filter-mem x not old new;
  complete = empty_filter old new;
})

module _ (graph : AuthorityGraph) (source : Text → Result (List Text)) (old_id new_id : Text)
    (old new : List Text) (r : GapReplacementResult) where
  -- Where the coverage of both objects can be read and EvaluateReplacement of the coverage succeeds, it
  -- reports as covered the ids that both objects provide, as missing those that the old one alone
  -- provides, and as complete that the new one provides all that the old one does.
  pub evaluate_gap_replacement-Partition :
      coverage_of graph source old_id ≡ ok old
      → coverage_of graph source new_id ≡ ok new
      → evaluate_gap_replacement graph source old_id new_id ≡ ok r
      → CoveragePartition old new r
  unfolding evaluate_gap_replacement
  evaluate_gap_replacement-Partition a b h =
      let (u, checked, h1) = >>=-eq-ok (require_pair graph old_id new_id) _ h in
      let same : compare_coverage old_id new_id old new ≡ r = cc (rw (a, b) at h1) in
      subst (CoveragePartition old new) same
        (compare_coverage-CoveragePartition old_id new_id old new)
