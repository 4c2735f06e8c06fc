-- ===== src/Traversal/Types.antt =====
-- internal/domain/graphtraversal.go, and the columns of a direction in
-- internal/store/postgres/graph_traversal_repo.go. The port is a record of functions, which read one state of the store.
use oneops.Base.{
  ℕ, List, [], ◌∷◌, ◌++◌, Text, codes, text_eq, ◌||◌, Bool, ltb, if◌then◌else◌, length, map,
}
use oneops.Domain.Errors.{Result}

pub data Direction : Type 0 where
  dependencies dependents : Direction

-- `Direction.Valid`, of the text of a direction.
unfoldable pub direction_valid : Text → Bool
direction_valid d = text_eq d (codes "dependencies") || text_eq d (codes "dependents")

-- `directionColumns`: the near and the far column.
unfoldable pub direction_columns : Direction → Text × Text
direction_columns dependents = (codes "to_cfg", codes "from_cfg")
direction_columns dependencies = (codes "from_cfg", codes "to_cfg")

pub record TraversalNode : Type 0 where
  pub cfg_id : Text
  pub depth : ℕ

pub record TraversalResult : Type 0 where
  pub root : Text
  pub direction : Direction
  pub nodes : List TraversalNode

-- `TraversalResult.Count`
abbrev pub node_count : TraversalResult → ℕ
node_count r = length r.nodes

-- The loop of `TraversalResult.MaxDepth`, where `deepest` is the greatest depth so far.
abbrev pub deepest_of : ℕ → List TraversalNode → ℕ
deepest_of deepest [] = deepest
deepest_of deepest (n ∷ nodes) = deepest_of (if ltb deepest n.depth then n.depth else deepest) nodes

-- `TraversalResult.MaxDepth`
abbrev pub max_depth : TraversalResult → ℕ
max_depth r = deepest_of 0 r.nodes

-- `TraversalResult.IDs`
abbrev pub ids : TraversalResult → List Text
ids r = map (λ n. n.cfg_id) r.nodes

pub record GraphPath : Type 0 where
  pub nodes : List Text

-- `GraphPath.Len`
abbrev pub path_len : GraphPath → ℕ
path_len p = length p.nodes

-- strings.Join
unfoldable pub join : Text → List Text → Text
join sep [] = []
join sep (x ∷ []) = x
join sep (x ∷ y ∷ ys) = x ++ sep ++ join sep (y ∷ ys)

-- `GraphPath.String`
unfoldable pub path_string : GraphPath → Text
path_string p = join (codes " -> ") p.nodes

pub record Cycle : Type 0 where
  pub path : GraphPath

-- `GraphTraversal`
pub record GraphTraversal : Type 0 where
  pub direct_dependencies : Text → Result (List Text)
  pub direct_dependents : Text → Result (List Text)
  pub recursive_dependencies : Text → Result (List TraversalNode)
  pub recursive_dependents : Text → Result (List TraversalNode)
  pub cycle_paths : Text → Direction → Result (List GraphPath)
