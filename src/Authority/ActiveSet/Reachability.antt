-- ===== src/Authority/ActiveSet/Reachability.antt =====
-- computeActiveSet of internal/authority/resolver.go against reachability from the baseline roots.
use oneops.Base.{
  ℕ, zero, suc, ◌≡◌, refl, subst, inl, inr, ◌↔◌, Bool, true, false, not, some, List, [], ◌∷◌, Text,
  text_eq, text_eq_iff, mem, mem-append, arith, Bool-cases, ◌&&◌, ◌||◌,
}
use oneops.Domain.Errors.{ok, Result-cases}
use oneops.Domain.Objects.{DependencyEdge}
use oneops.Authority.Graph.{AuthorityGraph, ReachInfo, Active, carries}
use oneops.Authority.ActiveSet.{
  seen, Search, enter, enter_roots, follow, search, compute_active_set, root_info, via_info,
  empty_search,
}

-- Whether an edge that carries authority goes to `m`.
abbrev pub targets : Text → List DependencyEdge → Bool
targets m [] = false
targets m (e ∷ es) = (carries e.edge_kind && text_eq e.to_cfg m) || targets m es

-- The nodes that the roots reach over the edges that carry authority.
pub data Reaches (graph : AuthorityGraph) (roots : List Text) : Text → Type 0 where
  root : {n : Text} → mem n roots ≡ true → Reaches graph roots n
  edge :
      {n m : Text} {es : List DependencyEdge}
      → Reaches graph roots n
      → graph.edges_from n ≡ ok es
      → targets m es ≡ true
      → Reaches graph roots m

enter-seen :
    (m x : Text) (i : ReachInfo) (s : Search)
    → seen m (enter x i s).found ≡ (seen m s.found || text_eq x m)
unfolding enter seen
enter-seen m x i s = elim (Bool-cases (text_eq x m)) [
  | inl e ↦ let same : x ≡ m = (text_eq_iff x m).0 e in ground (arith, same, e)
  | inr e ↦ ground (arith, e)
]

enter-queue :
    (m x : Text) (i : ReachInfo) (s : Search)
    → mem m (enter x i s).queue ≡ (mem m s.queue || (not (seen m s.found) && text_eq x m))
unfolding enter mem
enter-queue m x i s = elim (Bool-cases (text_eq x m)) [
  | inl e ↦
      let same : x ≡ m = (text_eq_iff x m).0 e in
      ground (arith, same, e, mem-append m s.queue (x ∷ []))
  | inr e ↦ ground (arith, e, mem-append m s.queue (x ∷ []))
]

follow-seen :
    (m n : Text) (es : List DependencyEdge) (s : Search)
    → seen m (follow n es s).found ≡ (seen m s.found || targets m es)
unfolding follow
follow-seen m n [] s = ground arith
follow-seen m n (e ∷ es) s = ground (
  arith,
  enter-seen m e.to_cfg (via_info n) s,
  follow-seen m n es s,
  follow-seen m n es (enter e.to_cfg (via_info n) s),
)

follow-queue :
    (m n : Text) (es : List DependencyEdge) (s : Search)
    → mem m (follow n es s).queue ≡ (mem m s.queue || (not (seen m s.found) && targets m es))
unfolding follow
follow-queue m n [] s = ground arith
follow-queue m n (e ∷ es) s = ground (
  arith,
  enter-seen m e.to_cfg (via_info n) s,
  enter-queue m e.to_cfg (via_info n) s,
  follow-queue m n es s,
  follow-queue m n es (enter e.to_cfg (via_info n) s),
)

enter_roots-seen :
    (m : Text) (rs : List Text) (s : Search)
    → seen m (enter_roots rs s).found ≡ (seen m s.found || mem m rs)
unfolding enter_roots mem
enter_roots-seen m [] s = ground arith
enter_roots-seen m (r ∷ rs) s =
    ground (arith, enter-seen m r root_info s, enter_roots-seen m rs (enter r root_info s))

enter_roots-queue :
    (m : Text) (rs : List Text) (s : Search)
    → mem m (enter_roots rs s).queue ≡ (mem m s.queue || (not (seen m s.found) && mem m rs))
unfolding enter_roots mem
enter_roots-queue m [] s = ground arith
enter_roots-queue m (r ∷ rs) s = ground (
  arith,
  enter-seen m r root_info s,
  enter-queue m r root_info s,
  enter_roots-queue m rs (enter r root_info s),
)

module _ (graph : AuthorityGraph) (roots : List Text) where
  -- The nodes that are found are reached, hold the roots, and each one outside the queue has been
  -- followed.
  record Progress (found : Active) (queue : List Text) : Type 0 where
    sound : (n : Text) → seen n found ≡ true → Reaches graph roots n
    rooted : (n : Text) → mem n roots ≡ true → seen n found ≡ true
    queued : (n : Text) → mem n queue ≡ true → seen n found ≡ true
    followed :
        (n m : Text) (es : List DependencyEdge)
        → seen n found ≡ true
        → mem n queue ≡ false
        → graph.edges_from n ≡ ok es
        → targets m es ≡ true
        → seen m found ≡ true

  empty_search-Progress : let s = enter_roots roots empty_search in Progress s.found s.queue
  unfolding seen mem
  empty_search-Progress = record {
    sound = λ n h. Reaches.root (ground (arith, enter_roots-seen n roots empty_search, h));
    rooted = λ n h. ground (arith, enter_roots-seen n roots empty_search, h);
    queued = λ n h.
        ground
          (arith, enter_roots-seen n roots empty_search, enter_roots-queue n roots empty_search, h);
    followed = λ n m es f q g t. absurd (
        ground (
          arith,
          enter_roots-seen n roots empty_search,
          enter_roots-queue n roots empty_search,
          f,
          q,
        ));
  }

  step-Progress :
      (n : Text) (found : Active) (queue : List Text) (es : List DependencyEdge)
      → graph.edges_from n ≡ ok es
      → Progress found (n ∷ queue)
      → let s = follow n es (record { found = found; queue = queue }) in Progress s.found s.queue
  unfolding mem
  step-Progress n found queue es got p =
      let before : Search = record { found = found; queue = queue } in
      let own : seen n found ≡ true = p.queued n (ground (arith, text_eq_iff n n)) in
      record {
        sound = λ a h. elim (Bool-cases (seen a found)) [
          | inl old ↦ p.sound a old
          | inr new ↦
              Reaches.edge (p.sound n own) got (ground (arith, follow-seen a n es before, h, new))
        ];
        rooted = λ a h. ground (arith, follow-seen a n es before, p.rooted a h);
        queued = λ a h.
            ground (arith, follow-seen a n es before, follow-queue a n es before, h, p.queued a);
        followed = λ a m es' f q g t. elim (Bool-cases (text_eq n a)) [
          | inl e ↦
              let same : n ≡ a = (text_eq_iff n a).0 e in
              let edges : es ≡ es' = cc (got, g, same) in
              rw (follow-seen m n es before) (ground (arith, edges, t))
          | inr e ↦
              let old : seen a found ≡ true =
                ground (arith, follow-seen a n es before, follow-queue a n es before, f, q) in
              let out : mem a queue ≡ false = ground (arith, follow-queue a n es before, q) in
              rw (follow-seen m n es before) (ground (arith, p.followed a m es' old (rw e out) g t))
        ];
      }

  search-Progress :
      (k : ℕ) (found : Active) (queue : List Text) (active : Active)
      → Progress found queue
      → search graph k found queue ≡ some (ok active)
      → Progress active []
  unfolding search
  search-Progress k found [] active p h = subst (λ a. Progress a []) (cc h) p
  search-Progress zero found (n ∷ queue) active p h = cc h
  search-Progress (suc k) found (n ∷ queue) active p h = elim (Result-cases (graph.edges_from n)) [
    | inr (x, got) ↦ cc (rw (got, search) at h)
    | inl (es, got) ↦
        let s = follow n es (record { found = found; queue = queue }) in
        search-Progress k s.found s.queue active (step-Progress n found queue es got p)
          (rw (got, search) at h)
  ]

  reached-seen :
      (n : Text) (active : Active)
      → Progress active []
      → Reaches graph roots n
      → seen n active ≡ true
  unfolding mem
  reached-seen n active p (Reaches.root h) = p.rooted n h
  reached-seen n active p (Reaches.edge {n = a} {es = es} r got t) =
      p.followed a n es (reached-seen a active p r) refl got t

  -- If `computeActiveSet` returns a map, then exactly the nodes that the baseline roots reach over
  -- depends and extends edges are in it.
  pub compute_active_set-Reaches :
      (fuel : ℕ) (active : Active)
      → graph.baseline_roots ≡ ok roots
      → compute_active_set graph fuel ≡ some (ok active)
      → (n : Text) → (seen n active ≡ true) ↔ Reaches graph roots n
  unfolding compute_active_set search
  compute_active_set-Reaches fuel active got h n =
      let s = enter_roots roots empty_search in
      let p = search-Progress fuel s.found s.queue active empty_search-Progress (rw got at h) in
      ((λ q. p.sound n q), (λ r. reached-seen n active p r))
