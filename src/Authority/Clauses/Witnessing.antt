-- ===== src/Authority/Clauses/Witnessing.antt =====
-- activeDependentsOf and activeArtifactCitersOf of internal/authority.
use oneops.Base.{
  ◌≡◌, ◌≢◌, refl, sym, ap, ◌∙◌, inl, inr, ◌↔◌, Bool, true, false, not, ◌&&◌, ◌||◌, List, [], ◌∷◌,
  Text, text_eq, text_eq_iff, mem, map, if◌then◌else◌, arith, Bool-cases,
}
use oneops.Base.Sorting.{sort_strings, mem-sort_strings}
use oneops.Domain.Errors.{Result, ok, >>=-eq-ok}
use oneops.Domain.Objects.{DependencyEdge}
use oneops.Authority.Graph.{AuthorityGraph, Active, carries}
use oneops.Authority.ActiveSet.{seen}
use oneops.Authority.Clauses.{
  dependents_in, active_dependents_of, active_ids, citations_of, citers_among,
  active_artifact_citers_of,
}

-- Whether an edge that carries authority comes from `m`.
abbrev pub sources : Text → List DependencyEdge → Bool
sources m [] = false
sources m (e ∷ es) = (carries e.edge_kind && text_eq e.from_cfg m) || sources m es

mem-dependents_in :
    (m : Text) (active : Active) (known : List Text) (es : List DependencyEdge)
    → mem m (dependents_in active known es) ≡ (not (mem m known) && (seen m active && sources m es))
unfolding dependents_in mem
mem-dependents_in m active known [] = ground arith
mem-dependents_in m active known (e ∷ es) = elim (Bool-cases (text_eq e.from_cfg m)) [
  | inl q ↦
      let same : e.from_cfg ≡ m = (text_eq_iff e.from_cfg m).0 q in
      ground (
        arith,
        same,
        q,
        mem-dependents_in m active known es,
        mem-dependents_in m active (e.from_cfg ∷ known) es,
      )
  | inr q ↦ ground (
    arith,
    q,
    mem-dependents_in m active known es,
    mem-dependents_in m active (e.from_cfg ∷ known) es,
  )
]

seen-mem : (m : Text) (active : Active) → mem m (map (λ entry. entry.0) active) ≡ seen m active
unfolding seen mem
seen-mem m [] = refl
seen-mem m ((key, info) ∷ rest) = ground (arith, seen-mem m rest)

pub mem-active_ids : (m : Text) (active : Active) → mem m (active_ids active) ≡ seen m active
mem-active_ids m active = mem-sort_strings m (map (λ entry. entry.0) active) ∙ seen-mem m active

module _ (graph : AuthorityGraph) where
  -- `activeDependentsOf` returns exactly the active nodes from which an edge that carries authority
  -- goes to the object.
  pub mem-active_dependents_of :
      (id m : Text) (active : Active) (edges : List DependencyEdge) (deps : List Text)
      → graph.edges_to id ≡ ok edges
      → active_dependents_of graph id active ≡ ok deps
      → mem m deps ≡ (seen m active && sources m edges)
  unfolding active_dependents_of mem
  mem-active_dependents_of id m active edges deps got h =
      let found : ok (sort_strings (dependents_in active [] edges)) ≡ ok deps =
        rw (got, active_dependents_of) at h in
      let same : deps ≡ sort_strings (dependents_in active [] edges) = cc found in
      rw same
        (mem-sort_strings m (dependents_in active [] edges) ∙ mem-dependents_in m active [] edges)

module _ (graph : AuthorityGraph) (source : Text → Result (List Text)) where
  -- An object of the list, other than the target, that cites the target.
  record Cites (target m : Text) (ids : List Text) : Type 0 where
    among : mem m ids ≡ true
    other : m ≢ target
    cites : List Text
    cited : citations_of graph source m ≡ ok cites
    names : mem target cites ≡ true

  Cites-cons : (target m a : Text) (ids : List Text) → Cites target m ids → Cites target m (a ∷ ids)
  unfolding mem
  Cites-cons target m a ids c = record {
    among = ground (arith, c.among);
    other = c.other;
    cites = c.cites;
    cited = c.cited;
    names = c.names;
  }

  Cites-tail :
      (target m a : Text) (ids : List Text)
      → text_eq a m ≡ false
      → Cites target m (a ∷ ids)
      → Cites target m ids
  unfolding mem
  Cites-tail target m a ids e c = record {
    among = ground (arith, c.among, e);
    other = c.other;
    cites = c.cites;
    cited = c.cited;
    names = c.names;
  }

  -- An object that is not the target, after its citations were read.
  read-Cites :
      (target m a : Text) (ids cites citers : List Text)
      → text_eq a target ≡ false
      → citations_of graph source a ≡ ok cites
      → (mem m citers ≡ true) ↔ Cites target m ids
      → (mem m (if mem target cites then a ∷ citers else citers) ≡ true) ↔ Cites target m (a ∷ ids)
  unfolding mem
  read-Cites target m a ids cites citers e cited ih = elim (Bool-cases (text_eq a m)) [
    | inr other ↦ (
      (λ q. Cites-cons target m a ids (ih.0 (ground (arith, q, other)))),
      (λ c. ground (arith, ih.1 (Cites-tail target m a ids other c), other)),
    )
    | inl own ↦
        let same : a ≡ m = (text_eq_iff a m).0 own in
        (
          (λ q. elim (Bool-cases (mem target cites)) [
            | inr unnamed ↦ Cites-cons target m a ids (ih.0 (ground (arith, unnamed, q)))
            | inl named ↦ record {
              among = ground (arith, own);
              other = λ t. ground (arith, same, t, e, text_eq_iff a target);
              cites = cites;
              cited = cc (cited, same);
              names = named;
            }
          ]),
          (λ c.
              let equal : c.cites ≡ cites = cc (c.cited, cited, same) in
              let names : mem target cites ≡ true = ap (mem target) (sym equal) ∙ c.names in
              ground (arith, names, own)),
        )
  ]

  citers_among-Cites :
      (target m : Text) (ids out : List Text)
      → citers_among graph source target ids ≡ ok out
      → (mem m out ≡ true) ↔ Cites target m ids
  unfolding citers_among mem
  citers_among-Cites target m [] out h =
      ((λ q. absurd (ground (arith, h, q))), (λ c. absurd (ground (arith, c.among))))
  citers_among-Cites target m (a ∷ ids) out h = elim (Bool-cases (text_eq a target)) [
    | inl e ↦
        let same : a ≡ target = (text_eq_iff a target).0 e in
        let ih = citers_among-Cites target m ids out (rw e at h) in
        (
          (λ q. Cites-cons target m a ids (ih.0 q)),
          (λ c.
              ih.1 (Cites-tail target m a ids (ground (arith, c.other, same, text_eq_iff a m)) c)),
        )
    | inr e ↦
        let (cites, cited, h1) = >>=-eq-ok (citations_of graph source a) _ (rw e at h) in
        let (citers, rest, h2) = >>=-eq-ok (citers_among graph source target ids) _ h1 in
        let result : out ≡ (if mem target cites then a ∷ citers else citers) = cc h2 in
        rw result (
          read-Cites target m a ids cites citers e cited
            (citers_among-Cites target m ids citers rest))
  ]

  -- `activeArtifactCitersOf` returns exactly the active objects, other than the object itself, whose
  -- citations name it.
  pub active_artifact_citers_of-exact :
      (target m : Text) (active : Active) (citers : List Text)
      → active_artifact_citers_of graph source target active ≡ ok citers
      → (mem m citers ≡ true) ↔ (
          (seen m active ≡ true)
          × (m ≢ target)
          × (cites : List Text) × (citations_of graph source m ≡ ok cites)
          × (mem target cites ≡ true))
  unfolding active_artifact_citers_of
  active_artifact_citers_of-exact target m active citers h =
      let (right, left) = citers_among-Cites target m (active_ids active) citers h in
      (
        (λ q.
            let c = right q in
            (sym (mem-active_ids m active) ∙ c.among, c.other, c.cites, c.cited, c.names)),
        (λ (s, o, cites, cited, names). left (record {
          among = mem-active_ids m active ∙ s;
          other = o;
          cites = cites;
          cited = cited;
          names = names;
        })),
      )
