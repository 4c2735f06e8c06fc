-- ===== src/Authority/Clauses/Gaps.antt =====
-- gapAfterRemoval of internal/authority/gap.go.
use oneops.Base.{
  ◌≡◌, ◌≢◌, refl, sym, ap, ◌∙◌, ◌⊎◌, inl, inr, ◌↔◌, true, false, not, ◌&&◌, List, [], ◌∷◌, ◌++◌,
  Text, text_eq, text_eq_iff, mem, mem-append, filter, arith, Bool-cases,
}
use oneops.Domain.Errors.{Result, ok, >>=-eq-ok}
use oneops.Authority.Graph.{AuthorityGraph, Active}
use oneops.Authority.Clauses.{active_ids, coverage_of, covered_without, gap_after_removal}

mem-filter-not-mem :
    (c : Text) (xs ys : List Text)
    → mem c (filter (λ id. not (mem id ys)) xs) ≡ (mem c xs && not (mem c ys))
unfolding mem
mem-filter-not-mem c [] ys = ground arith
mem-filter-not-mem c (x ∷ xs) ys = elim (Bool-cases (text_eq x c)) [
  | inl e ↦
      let same : x ≡ c = (text_eq_iff x c).0 e in
      ground (arith, same, e, mem-filter-not-mem c xs ys)
  | inr e ↦ ground (arith, e, mem-filter-not-mem c xs ys)
]

module _ (graph : AuthorityGraph) (source : Text → Result (List Text)) where
  -- Another object of the list provides the coverage id.
  pub record Provides (cfg_id c : Text) (ids : List Text) : Type 0 where
    pub provider : Text
    pub among : mem provider ids ≡ true
    pub other : provider ≢ cfg_id
    pub coverage : List Text
    pub declared : coverage_of graph source provider ≡ ok coverage
    pub covers : mem c coverage ≡ true

  Provides-cons :
      (cfg_id c a : Text) (ids : List Text) → Provides cfg_id c ids → Provides cfg_id c (a ∷ ids)
  unfolding mem
  Provides-cons cfg_id c a ids p = record {
    provider = p.provider;
    among = ground (arith, p.among);
    other = p.other;
    coverage = p.coverage;
    declared = p.declared;
    covers = p.covers;
  }

  Provides-tail :
      (cfg_id c a : Text) (ids : List Text) (p : Provides cfg_id c (a ∷ ids))
      → text_eq a p.provider ≡ false
      → Provides cfg_id c ids
  unfolding mem
  Provides-tail cfg_id c a ids p e = record {
    provider = p.provider;
    among = ground (arith, p.among, e);
    other = p.other;
    coverage = p.coverage;
    declared = p.declared;
    covers = p.covers;
  }

  -- An object other than the one to be removed, after its coverage was read.
  read-Provides :
      (cfg_id c a : Text) (ids own others : List Text)
      → text_eq a cfg_id ≡ false
      → coverage_of graph source a ≡ ok own
      → (mem c others ≡ true) ↔ Provides cfg_id c ids
      → (mem c (own ++ others) ≡ true) ↔ Provides cfg_id c (a ∷ ids)
  unfolding mem
  read-Provides cfg_id c a ids own others e declared ih = (
    (λ q. elim (Bool-cases (mem c own)) [
      | inr absent ↦
          Provides-cons cfg_id c a ids (ih.0 (ground (arith, q, absent, mem-append c own others)))
      | inl here ↦ record {
        provider = a;
        among = ground (arith, text_eq_iff a a);
        other = λ t. ground (arith, t, e, text_eq_iff a cfg_id);
        coverage = own;
        declared = declared;
        covers = here;
      }
    ]),
    (λ p. elim (Bool-cases (text_eq a p.provider)) [
      | inl same ↦
          let equal : p.coverage ≡ own =
            cc (p.declared, declared, (text_eq_iff a p.provider).0 same) in
          let covers : mem c own ≡ true = ap (mem c) (sym equal) ∙ p.covers in
          ground (arith, covers, mem-append c own others)
      | inr differs ↦
          ground (arith, ih.1 (Provides-tail cfg_id c a ids p differs), mem-append c own others)
    ]),
  )

  covered_without-Provides :
      (cfg_id c : Text) (ids out : List Text)
      → covered_without graph source cfg_id ids ≡ ok out
      → (mem c out ≡ true) ↔ Provides cfg_id c ids
  unfolding covered_without mem
  covered_without-Provides cfg_id c [] out h =
      ((λ q. absurd (ground (arith, h, q))), (λ p. absurd (ground (arith, p.among))))
  covered_without-Provides cfg_id c (a ∷ ids) out h = elim (Bool-cases (text_eq a cfg_id)) [
    | inl e ↦
        let same : a ≡ cfg_id = (text_eq_iff a cfg_id).0 e in
        let ih = covered_without-Provides cfg_id c ids out (rw e at h) in
        (
          (λ q. Provides-cons cfg_id c a ids (ih.0 q)),
          (λ p. ih.1 (
              Provides-tail cfg_id c a ids p
                (ground (arith, p.other, same, text_eq_iff a p.provider)))),
        )
    | inr e ↦
        let (own, declared, h1) = >>=-eq-ok (coverage_of graph source a) _ (rw e at h) in
        let (others, rest, h2) = >>=-eq-ok (covered_without graph source cfg_id ids) _ h1 in
        let result : out ≡ own ++ others = cc h2 in
        rw result (
          read-Provides cfg_id c a ids own others e declared
            (covered_without-Provides cfg_id c ids others rest))
  ]

  gap_lists :
      (cfg_id : Text) (active : Active) (own uncovered : List Text)
      → coverage_of graph source cfg_id ≡ ok own
      → gap_after_removal graph source cfg_id active ≡ ok uncovered
      → (uncovered ≡ []) × (own ≡ [])
        ⊎ ((covered : List Text) × (covered_without graph source cfg_id (active_ids active)
              ≡ ok covered)
            × (uncovered ≡ filter (λ id. not (mem id covered)) own))
  unfolding gap_after_removal
  gap_lists cfg_id active [] uncovered d h = inl (cc (rw (d, gap_after_removal) at h), refl)
  gap_lists cfg_id active (x ∷ xs) uncovered d h =
      let (covered, got, rest) =
        >>=-eq-ok (covered_without graph source cfg_id (active_ids active)) _
          (rw (d, gap_after_removal) at h) in
      inr (covered, got, cc rest)

  -- `gapAfterRemoval` returns exactly the coverage ids of the object that no other active object
  -- declares.
  pub gap_after_removal-exact :
      (cfg_id c : Text) (active : Active) (own uncovered : List Text)
      → coverage_of graph source cfg_id ≡ ok own
      → gap_after_removal graph source cfg_id active ≡ ok uncovered
      → (mem c uncovered ≡ true) ↔ ((mem c own ≡ true) × (¬ Provides cfg_id c (active_ids active)))
  unfolding mem
  gap_after_removal-exact cfg_id c active own uncovered d h =
      elim (gap_lists cfg_id active own uncovered d h) [
        | inl (empty, nothing) ↦ (
          (λ q. absurd (ground (arith, empty, q))),
          (λ (q, p). absurd (ground (arith, nothing, q))),
        )
        | inr (covered, got, same) ↦
            let provided = covered_without-Provides cfg_id c (active_ids active) covered got in
            let split : mem c uncovered ≡ (mem c own && not (mem c covered)) =
              ap (mem c) same ∙ mem-filter-not-mem c own covered in
            (
              (λ q. (ground (arith, split, q), λ p. ground (arith, split, q, provided.1 p))),
              (λ (q, none_provides). elim (Bool-cases (mem c covered)) [
                | inl in_covered ↦ absurd (none_provides (provided.0 in_covered))
                | inr out ↦ ground (arith, split, q, out)
              ]),
            )
      ]
