-- ===== src/Authority/ActiveSet/Termination.antt =====
-- The fuel of computeActiveSet of internal/authority/resolver.go.
use oneops.Base.{
  ℕ, zero, suc, ◌+◌, ◌≤◌, ◌<◌, ◌≡◌, ◌≢◌, inl, inr, true, false, none, List, [], ◌∷◌, Text, text_eq,
  text_eq_iff, mem, length, length-append, arith, if◌then◌else◌, Bool-cases, ◌||◌, All,
}
use oneops.Domain.Errors.{ok, Result-cases}
use oneops.Domain.Objects.{DependencyEdge}
use oneops.Authority.Graph.{AuthorityGraph, ReachInfo, Active, carries}
use oneops.Authority.ActiveSet.{
  seen, Search, enter, enter_roots, follow, search, root_info, via_info, empty_search,
  compute_active_set,
}

-- How many of the nodes have not been found.
unseen : List Text → Active → ℕ
unseen [] found = 0
unseen (n ∷ nodes) found = if seen n found then unseen nodes found else suc (unseen nodes found)

-- What is left to do: the queue, and what may still enter it.
abbrev work : List Text → Search → ℕ
work nodes s = unseen nodes s.found + length s.queue

seen-cons :
    (n m : Text) (i : ReachInfo) (found : Active)
    → seen n ((m, i) ∷ found) ≡ (text_eq m n || seen n found)
unfolding seen
seen-cons n m i found = ground arith

unseen-cons :
    (nodes : List Text) (m : Text) (i : ReachInfo) (found : Active)
    → unseen nodes ((m, i) ∷ found) ≤ unseen nodes found
unfolding unseen
unseen-cons [] m i found = omega arith
unseen-cons (n ∷ nodes) m i found =
    ground (arith, seen-cons n m i found, unseen-cons nodes m i found)

unseen-found :
    (nodes : List Text) (m : Text) (i : ReachInfo) (found : Active)
    → mem m nodes ≡ true
    → seen m found ≡ false
    → unseen nodes ((m, i) ∷ found) < unseen nodes found
unfolding unseen mem
unseen-found [] m i found h new = ground arith
unseen-found (n ∷ nodes) m i found h new = ground (
  arith,
  seen-cons n m i found,
  unseen-cons nodes m i found,
  unseen-found nodes m i found,
  text_eq_iff n m,
  text_eq_iff m n,
)

enter-work :
    (nodes : List Text) (m : Text) (i : ReachInfo) (s : Search)
    → mem m nodes ≡ true
    → work nodes (enter m i s) ≤ work nodes s
unfolding enter
enter-work nodes m i s h =
    ground (arith, unseen-found nodes m i s.found h, length-append s.queue (m ∷ []))

enter_roots-work :
    (nodes roots : List Text) (s : Search)
    → All (λ r. mem r nodes ≡ true) roots
    → work nodes (enter_roots roots s) ≤ work nodes s
unfolding enter_roots
enter_roots-work nodes [] s h = omega arith
enter_roots-work nodes (r ∷ rs) s h =
    omega (
      arith,
      enter-work nodes r root_info s h.0,
      enter_roots-work nodes rs (enter r root_info s) h.1,
    )

follow-work :
    (nodes : List Text) (n : Text) (es : List DependencyEdge) (s : Search)
    → All (λ e. mem e.to_cfg nodes ≡ true) es
    → work nodes (follow n es s) ≤ work nodes s
unfolding follow
follow-work nodes n [] s h = omega arith
follow-work nodes n (e ∷ es) s h = elim (Bool-cases (carries e.edge_kind)) [
  | inr c ↦ rw (c, follow) (follow-work nodes n es s h.1)
  | inl c ↦
      rw (c, follow)
        (omega (
          arith,
          enter-work nodes e.to_cfg (via_info n) s h.0,
          follow-work nodes n es (enter e.to_cfg (via_info n) s) h.1,
        ))
]

module _ (graph : AuthorityGraph) (nodes : List Text)
    (closed : (n : Text) (es : List DependencyEdge)
      → graph.edges_from n ≡ ok es
      → All (λ e. mem e.to_cfg nodes ≡ true) es) where
  search-ends :
      (k : ℕ) (found : Active) (queue : List Text)
      → unseen nodes found + length queue ≤ k
      → search graph k found queue ≢ none
  unfolding search
  search-ends k found [] h e = cc e
  search-ends zero found (n ∷ queue) h e = absurd (omega arith)
  search-ends (suc k) found (n ∷ queue) h e = elim (Result-cases (graph.edges_from n)) [
    | inr (x, got) ↦ cc (rw (got, search) at e)
    | inl (es, got) ↦
        let s = follow n es (record { found = found; queue = queue }) in
        let less =
          follow-work nodes n es (record { found = found; queue = queue }) (closed n es got) in
        search-ends k s.found s.queue (omega (arith, less, h)) (rw (got, search) at e)
  ]

  unseen-none : (ns : List Text) → unseen ns [] ≤ length ns
  unfolding unseen seen
  unseen-none [] = omega arith
  unseen-none (n ∷ ns) = ground (arith, unseen-none ns)

  -- `computeActiveSet` ends: where `nodes` holds the baseline roots and the target of every edge, it
  -- takes at most as many rounds of its loop as there are nodes.
  pub compute_active_set-ends :
      (roots : List Text)
      → graph.baseline_roots ≡ ok roots
      → All (λ r. mem r nodes ≡ true) roots
      → compute_active_set graph (length nodes) ≢ none
  unfolding compute_active_set search
  compute_active_set-ends roots got known e =
      let s = enter_roots roots empty_search in
      let less = enter_roots-work nodes roots empty_search known in
      search-ends (length nodes) s.found s.queue (omega (arith, less, unseen-none nodes))
        (rw got at e)
