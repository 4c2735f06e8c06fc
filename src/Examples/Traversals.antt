-- ===== src/Examples/Traversals.antt =====
-- A graph with one cycle, and the theorem on its detection at it.
use oneops.Base.{
  ◌≡◌, refl, subst, true, List, [], ◌∷◌, Text, codes, text_eq, text_le, ◌&&◌, any, All,
}
use oneops.Base.Sorting.{sort_by}
use mathlib.Core.List.Permᴰ
use oneops.Domain.Errors.{ok, ok_inj}
use oneops.Traversal.Types.{
  dependencies, dependents, direction_valid, direction_columns, GraphTraversal, Cycle, join,
  path_string,
}
use oneops.Traversal.Service.{
  walk, last_of, position_of, min_index, rotated, loop_from, canonical_loop, enter_loop,
  enter_paths, canonical_cycles, detect_cycles,
}
use oneops.Traversal.Cycles.{Walk, IsCycle, detect_cycles-IsCycle}

abbrev edges : List (Text × Text)
edges = (codes "a", codes "c") ∷ (codes "c", codes "b") ∷ (codes "b", codes "c") ∷ []

abbrev EdgeOf : Text → Text → Type 0
EdgeOf x y = any (λ e. text_eq e.0 x && text_eq e.1 y) edges ≡ true

abbrev small_store : GraphTraversal
small_store = record {
  direct_dependencies = λ x. ok [];
  direct_dependents = λ x. ok [];
  recursive_dependencies = λ x. ok [];
  recursive_dependents = λ x. ok [];
  cycle_paths = λ x d. ok (
      record { nodes = codes "a" ∷ codes "c" ∷ codes "b" ∷ codes "c" ∷ [] }
      ∷ record { nodes = codes "c" ∷ codes "b" ∷ codes "c" ∷ [] }
      ∷ []);
}

abbrev reported : List Cycle
reported = record { path = record { nodes = codes "b" ∷ codes "c" ∷ codes "b" ∷ [] } } ∷ []

detected : detect_cycles (λ s. s) small_store (codes "a") ≡ ok reported
unfolding last_of position_of min_index rotated loop_from canonical_loop enter_loop enter_paths
    canonical_cycles detect_cycles join path_string sort_by text_eq text_le
detected = refl

valid_names : direction_valid (codes "dependents") ≡ true
unfolding direction_valid text_eq
valid_names = refl

reverse_columns : direction_columns dependents ≡ (codes "to_cfg", codes "from_cfg")
unfolding direction_columns
reverse_columns = refl

walked :
    walk small_store (codes "a") dependencies
    ≡ ok (record { root = codes "a"; direction = dependencies; nodes = [] })
unfolding walk
walked = refl

detect_cycles-IsCycle_example : All (λ c. IsCycle EdgeOf c.path.nodes) reported
unfolding text_eq
detect_cycles-IsCycle_example =
    detect_cycles-IsCycle EdgeOf (λ s. s) (λ s. Permᴰ.refl s) small_store (codes "a") reported
      (λ paths h.
        subst (All (λ p. Walk EdgeOf p.nodes)) (ok_inj h)
          ((refl, (refl, (refl, tt))), ((refl, (refl, tt)), tt)))
      detected
