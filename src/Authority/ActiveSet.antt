-- ===== src/Authority/ActiveSet.antt =====
-- computeActiveSet of internal/authority/resolver.go: the search from the baseline roots. The loop
-- runs on fuel; it answers `none` where the fuel ends.
pub mod Termination
pub mod Reachability
use oneops.Base.{
  ℕ, zero, suc, Bool, true, false, not, ◌&&◌, Option, none, some, List, [], ◌∷◌, ◌++◌, Text,
  text_eq, if◌then◌else◌,
}
use oneops.Domain.Errors.{Result, ok, err}
use oneops.Domain.Objects.{DependencyEdge}
use oneops.Authority.Graph.{AuthorityGraph, ReachInfo, Active, carries}

-- `active[id]`
unfoldable pub lookup : Text → Active → Option ReachInfo
lookup id [] = none
lookup id ((key, info) ∷ rest) = if text_eq key id then some info else lookup id rest

-- `_, seen := active[id]`
unfoldable pub seen : Text → Active → Bool
seen id [] = false
seen id ((key, info) ∷ rest) = if text_eq key id then true else seen id rest

-- The map and the queue of the loop.
pub record Search : Type 0 where
  pub found : Active
  pub queue : List Text

abbrev pub root_info : ReachInfo
root_info = record { baseline = true; via = [] }

abbrev pub via_info : Text → ReachInfo
via_info n = record { baseline = false; via = n }

abbrev pub empty_search : Search
empty_search = record { found = []; queue = [] }

-- `if _, seen := active[id]; !seen { active[id] = info; queue = append(queue, id) }`
unfoldable pub enter : Text → ReachInfo → Search → Search
enter id info s =
    if seen id s.found
    then s
    else record { found = (id, info) ∷ s.found; queue = s.queue ++ id ∷ [] }

unfoldable pub enter_roots : List Text → Search → Search
enter_roots [] s = s
enter_roots (r ∷ rs) s = enter_roots rs (enter r root_info s)

-- The loop over the edges out of `n`.
unfoldable pub follow : Text → List DependencyEdge → Search → Search
follow n [] s = s
follow n (e ∷ es) s = follow n es (if carries e.edge_kind then enter e.to_cfg (via_info n) s else s)

module _ (graph : AuthorityGraph) where
  unfoldable pub search : ℕ → Active → List Text → Option (Result Active)
  search k found [] = some (ok found)
  search zero found (n ∷ queue) = none
  search (suc k) found (n ∷ queue) = elim (graph.edges_from n) [
    | err x ↦ some (err x)
    | ok edges ↦
        let s = follow n edges (record { found = found; queue = queue }) in search k s.found s.queue
  ]

  -- `computeActiveSet`
  unfoldable pub compute_active_set : ℕ → Option (Result Active)
  compute_active_set fuel = elim graph.baseline_roots [
    | err x ↦ some (err x)
    | ok roots ↦ let s = enter_roots roots empty_search in search fuel s.found s.queue
  ]
