-- ===== src/Traversal/Service.antt =====
-- internal/graph/service.go. Go ranges over a map in any order: `order` gives the order in which the cycles found are visited.
use oneops.Base.{
  ℕ, suc, ◌-◌, Option, none, some, List, [], ◌∷◌, ◌++◌, Text, codes, text_eq, text_le, ◌==◌,
  if◌then◌else◌, length, take, drop, map, any,
}
use mathlib.Core.Option
use oneops.Base.Sorting.{sort_by}
use oneops.Domain.Errors.{Result, ok, ◌>>=◌}
use oneops.Traversal.Types.{
  Direction, dependencies, dependents, TraversalResult, GraphPath, join, path_string, Cycle,
  GraphTraversal,
}

module _ (repo : GraphTraversal) where
  -- `Service.walk`
  unfoldable pub walk : Text → Direction → Result TraversalResult
  walk root dependents = repo.recursive_dependents root >>= λ found.
      ok (record { root = root; direction = dependents; nodes = found })
  walk root dependencies = repo.recursive_dependencies root >>= λ found.
      ok (record { root = root; direction = dependencies; nodes = found })

  -- `Service.WalkDependencies`
  abbrev pub walk_dependencies : Text → Result TraversalResult
  walk_dependencies root = walk root dependencies

  -- `Service.WalkDependents`
  abbrev pub walk_dependents : Text → Result TraversalResult
  walk_dependents root = walk root dependents

-- `path[len(path)-1]`, of the path `n ∷ ns`.
unfoldable pub last_of : Text → List Text → Text
last_of n [] = n
last_of n (m ∷ ns) = last_of m ns

-- The first position of `last`, which the code keeps as -1 where there is none.
unfoldable pub position_of : Text → List Text → Option ℕ
position_of last [] = none
position_of last (n ∷ ns) = if text_eq n last then some 0 else Option.map suc (position_of last ns)

-- The search for `minIdx`: `i` is the position of the first node left, `least` the node at `min_idx`.
unfoldable pub min_index : ℕ → ℕ → Text → List Text → ℕ
min_index i min_idx least [] = min_idx
min_index i min_idx least (n ∷ ns) =
    if text_le least n then min_index (suc i) min_idx least ns else min_index (suc i) i n ns

-- The rotation that begins at the smallest node.
unfoldable pub rotated : List Text → List Text
rotated [] = []
rotated (n ∷ ns) =
    let min_idx = min_index 0 0 n (n ∷ ns) in drop min_idx (n ∷ ns) ++ take min_idx (n ∷ ns)

-- `canonicalLoop` from `first` on: `path[first : len(path)-1]`, rotated.
unfoldable pub loop_from : List Text → Option ℕ → List Text
loop_from path none = []
loop_from path (some first) =
    if first == length path - 1
    then []
    else rotated (take (length path - 1 - first) (drop first path))

-- `canonicalLoop`
unfoldable pub canonical_loop : List Text → List Text
canonical_loop [] = []
canonical_loop (n ∷ []) = []
canonical_loop (n ∷ m ∷ ns) =
    let path = n ∷ m ∷ ns in loop_from path (position_of (last_of m ns) path)

-- The map `seen`, by key, the last one entered first.
abbrev pub Seen : Type 0
Seen = List (Text × Cycle)

-- The body of the loop on the paths: what is done with a loop.
unfoldable pub enter_loop : Seen → List Text → Seen
enter_loop seen [] = seen
enter_loop seen (n ∷ ns) =
    let key = join (codes ",") (n ∷ ns) in
    if any (λ s. text_eq s.0 key) seen
    then seen
    else (key, record { path = record { nodes = (n ∷ ns) ++ n ∷ [] } }) ∷ seen

unfoldable pub enter_paths : Seen → List GraphPath → Seen
enter_paths seen [] = seen
enter_paths seen (p ∷ paths) = enter_paths (enter_loop seen (canonical_loop p.nodes)) paths

module _ (order : Seen → Seen) where
  -- `canonicalCycles`
  unfoldable pub canonical_cycles : List GraphPath → List Cycle
  canonical_cycles paths =
      sort_by (λ a b. text_le (path_string a.path) (path_string b.path))
        (map (λ s. s.1) (order (enter_paths [] paths)))

  -- `Service.DetectCycles`
  unfoldable pub detect_cycles : GraphTraversal → Text → Result (List Cycle)
  detect_cycles repo root =
      repo.cycle_paths root dependencies >>= λ paths. ok (canonical_cycles paths)
