-- ===== src/Traversal/Cycles.antt =====
-- Cycles that internal/graph reports are closed walks along the edges that the paths follow.
use oneops.Base.{
  ℕ, zero, suc, ◌-◌, ◌≡◌, refl, ap, sym, subst, inl, inr, Option, none, some, List, [], ◌∷◌, ◌++◌,
  append-nil, append_assoc, Text, text_eq, text_eq_iff, text_le, ◌==◌, Bool-cases, Option-cases,
  length, length-drop, take, drop, take-drop, map, arith, All, map-All,
}
use oneops.Base.Sorting.{All-sort_by, All-Permᴰ}
use mathlib.Core.Option
use mathlib.Core.List.{Permᴰ}
use oneops.Domain.Errors.{ok, >>=-eq-ok, ok_inj}
use oneops.Traversal.Types.{dependencies, GraphPath, path_string, Cycle, GraphTraversal}
use oneops.Traversal.Service.{
  last_of, position_of, min_index, rotated, loop_from, canonical_loop, Seen, enter_loop,
  enter_paths, canonical_cycles, detect_cycles,
}

module _ (Edge : Text → Text → Type 0) where
  -- Each node has an edge to the next one.
  abbrev pub Walk : List Text → Type 0
  Walk [] = Unit
  Walk (a ∷ []) = Unit
  Walk (a ∷ b ∷ ns) = Edge a b × Walk (b ∷ ns)

  -- A walk that ends where it begins.
  pub record IsCycle (nodes : List Text) : Type 0 where
    pub begin : Text
    pub middle : List Text
    pub shape : nodes ≡ (begin ∷ middle) ++ begin ∷ []
    pub follows : Walk nodes

  Walk-append :
      (xs : List Text) (m : Text) (ys : List Text)
      → Walk (xs ++ m ∷ [])
      → Walk (m ∷ ys)
      → Walk (xs ++ m ∷ ys)
  Walk-append [] m ys h k = k
  Walk-append (a ∷ []) m ys h k = (h.0, k)
  Walk-append (a ∷ b ∷ xs) m ys h k = (h.0, Walk-append (b ∷ xs) m ys h.1 k)

  Walk-front :
      (xs : List Text) (m : Text) (ys : List Text) → Walk (xs ++ m ∷ ys) → Walk (xs ++ m ∷ [])
  Walk-front [] m ys h = tt
  Walk-front (a ∷ []) m ys h = (h.0, tt)
  Walk-front (a ∷ b ∷ xs) m ys h = (h.0, Walk-front (b ∷ xs) m ys h.1)

  Walk-tail : (a : Text) (xs : List Text) → Walk (a ∷ xs) → Walk xs
  Walk-tail a [] h = tt
  Walk-tail a (b ∷ xs) h = h.1

  Walk-drop : (n : ℕ) (xs : List Text) → Walk xs → Walk (drop n xs)
  Walk-drop zero xs h = h
  Walk-drop (suc n) [] h = tt
  Walk-drop (suc n) (a ∷ xs) h = Walk-drop n xs (Walk-tail a xs h)

  Walk-back : (xs ys : List Text) → Walk (xs ++ ys) → Walk ys
  Walk-back [] ys h = h
  Walk-back (a ∷ xs) ys h = Walk-back xs ys (Walk-tail a (xs ++ ys) h)

  -- `nodes` are the distinct nodes of a cycle, in the order of the walk.
  abbrev Closes : List Text → Type 0
  Closes [] = Unit
  Closes (a ∷ xs) = Walk ((a ∷ xs) ++ a ∷ [])

  -- A closed walk that begins at a later node is one too.
  Closes-swap : (xs ys : List Text) → Closes (xs ++ ys) → Closes (ys ++ xs)
  Closes-swap [] ys h = rw (append-nil ys) h
  Closes-swap (a ∷ xs) [] h = subst Closes (append-nil (a ∷ xs)) h
  Closes-swap (a ∷ xs) (b ∷ ys) h =
      let whole = subst Walk (append_assoc (a ∷ xs) (b ∷ ys) (a ∷ [])) h in
      let front = Walk-front (a ∷ xs) b (ys ++ a ∷ []) whole in
      let back = Walk-back (a ∷ xs) (b ∷ (ys ++ a ∷ [])) whole in
      subst Walk (sym (append_assoc (b ∷ ys) (a ∷ xs) (b ∷ [])))
        (Walk-append (b ∷ ys) a (xs ++ b ∷ []) back front)

  rotated-Closes : (xs : List Text) → Closes xs → Closes (rotated xs)
  unfolding rotated
  rotated-Closes [] h = tt
  rotated-Closes (n ∷ ns) h =
      let min_idx = min_index 0 0 n (n ∷ ns) in
      Closes-swap (take min_idx (n ∷ ns)) (drop min_idx (n ∷ ns))
        (subst Closes (sym (take-drop min_idx (n ∷ ns))) h)

  -- The loop as a cycle, from the node it begins at.
  Closes-IsCycle : (a : Text) (xs : List Text) → Closes (a ∷ xs) → IsCycle ((a ∷ xs) ++ a ∷ [])
  Closes-IsCycle a xs h = record { begin = a; middle = xs; shape = refl; follows = h }

some_inj {ℓ} : {A : Type ℓ} {a b : A} → ◌≡◌ {A = Option A} (some a) (some b) → a ≡ b
some_inj e = cc

-- A position found holds the node.
position_of-drop :
    (last : Text) (ns : List Text) (i : ℕ)
    → position_of last ns ≡ some i
    → (rest : List Text) × (drop i ns ≡ last ∷ rest)
unfolding position_of
position_of-drop last [] i h = cc
position_of-drop last (n ∷ ns) i h = elim (Bool-cases (text_eq n last)) [
  | inl e ↦
      let found : some 0 ≡ some i = rw e at h in
      subst (λ j. (rest : List Text) × (drop j (n ∷ ns) ≡ last ∷ rest)) (some_inj found)
        (ns, ap {B = List Text} (λ m. m ∷ ns) ((text_eq_iff n last).0 e))
  | inr e ↦
      let later : Option.map suc (position_of last ns) ≡ some i = rw e at h in
      elim (Option-cases (position_of last ns)) [
        | inl f ↦ cc (subst (λ o. Option.map suc o ≡ some i) f later)
        | inr f ↦
            subst (λ j. (rest : List Text) × (drop j (n ∷ ns) ≡ last ∷ rest))
              (some_inj (subst (λ o. Option.map suc o ≡ some i) f.1 later))
              (position_of-drop last ns f.0 f.1)
      ]
]

-- A tail that is not empty has the same last node.
last_of-drop :
    (i : ℕ) (n : Text) (ns : List Text) (m : Text) (ms : List Text)
    → drop i (n ∷ ns) ≡ m ∷ ms
    → last_of m ms ≡ last_of n ns
unfolding last_of
last_of-drop zero n ns m ms h = cc
last_of-drop (suc zero) n [] m ms h = cc
last_of-drop (suc (suc i)) n [] m ms h = cc
last_of-drop (suc i) n (k ∷ ns) m ms h = last_of-drop i k ns m ms h

-- A path without its last node, followed by it.
take-last_of : (n : Text) (ns : List Text) → take (length ns) (n ∷ ns) ++ last_of n ns ∷ [] ≡ n ∷ ns
unfolding last_of
take-last_of n [] = refl
take-last_of n (m ∷ ns) = ap {B = List Text} (λ r. n ∷ r) (take-last_of m ns)

module _ (Edge : Text → Text → Type 0) where
  -- A walk that returns to its first node, without the return.
  slice-Closes :
      (last : Text) (rest : List Text)
      → last_of last rest ≡ last
      → Walk Edge (last ∷ rest)
      → Closes Edge (take (length rest) (last ∷ rest))
  slice-Closes last [] e w = tt
  slice-Closes last (m ∷ rest) e w =
      let whole = subst (Walk Edge) (sym (take-last_of last (m ∷ rest))) w in
      subst (λ x. Walk Edge (take (length (m ∷ rest)) (last ∷ m ∷ rest) ++ x ∷ [])) e whole

  loop_from-Closes :
      (n m : Text) (ns : List Text) (first : Option ℕ)
      → position_of (last_of m ns) (n ∷ m ∷ ns) ≡ first
      → Walk Edge (n ∷ m ∷ ns)
      → Closes Edge (loop_from (n ∷ m ∷ ns) first)
  unfolding loop_from last_of
  loop_from-Closes n m ns none e w = tt
  loop_from-Closes n m ns (some first) e w =
      let path = n ∷ m ∷ ns in
      let last = last_of m ns in
      let found = position_of-drop last path first e in
      let rest = found.0 in
      let size : length path - 1 - first ≡ length rest =
        ground (arith, length-drop first path, ap length found.1) in
      let ends : last_of last rest ≡ last = last_of-drop first n (m ∷ ns) last rest found.1 in
      let tail = subst (Walk Edge) found.1 (Walk-drop Edge first path w) in
      let closes : Closes Edge (take (length path - 1 - first) (drop first path)) =
        subst (λ q. Closes Edge (take (length path - 1 - first) q)) (sym found.1)
          (subst (λ k. Closes Edge (take k (last ∷ rest))) (sym size)
            (slice-Closes last rest ends tail)) in
      elim (Bool-cases (first == length path - 1)) [
        | inl f ↦ rw f tt
        | inr f ↦
            rw f (rotated-Closes Edge (take (length path - 1 - first) (drop first path)) closes)
      ]

  canonical_loop-Closes : (path : List Text) → Walk Edge path → Closes Edge (canonical_loop path)
  unfolding canonical_loop
  canonical_loop-Closes [] w = tt
  canonical_loop-Closes (n ∷ []) w = tt
  canonical_loop-Closes (n ∷ m ∷ ns) w =
      loop_from-Closes n m ns (position_of (last_of m ns) (n ∷ m ∷ ns)) refl w

  enter_loop-IsCycle :
      (seen : Seen) (loop : List Text)
      → Closes Edge loop
      → All (λ s. IsCycle Edge s.1.path.nodes) seen
      → All (λ s. IsCycle Edge s.1.path.nodes) (enter_loop seen loop)
  unfolding enter_loop
  enter_loop-IsCycle seen [] c h = h
  enter_loop-IsCycle seen (n ∷ ns) c h = ground (arith, Closes-IsCycle Edge n ns c)

  enter_paths-IsCycle :
      (seen : Seen) (paths : List GraphPath)
      → All (λ p. Walk Edge p.nodes) paths
      → All (λ s. IsCycle Edge s.1.path.nodes) seen
      → All (λ s. IsCycle Edge s.1.path.nodes) (enter_paths seen paths)
  unfolding enter_paths
  enter_paths-IsCycle seen [] w h = h
  enter_paths-IsCycle seen (p ∷ paths) w h =
      let loop = canonical_loop p.nodes in
      enter_paths-IsCycle (enter_loop seen loop) paths w.1
        (enter_loop-IsCycle seen loop (canonical_loop-Closes p.nodes w.0) h)

  module _ (order : Seen → Seen) (visits : (seen : Seen) → Permᴰ seen (order seen)) where
    canonical_cycles-IsCycle :
        (paths : List GraphPath)
        → All (λ p. Walk Edge p.nodes) paths
        → All (λ c. IsCycle Edge c.path.nodes) (canonical_cycles order paths)
    unfolding canonical_cycles
    canonical_cycles-IsCycle paths w =
        let found = enter_paths [] paths in
        All-sort_by (λ a b. text_le (path_string a.path) (path_string b.path))
          (λ c. IsCycle Edge c.path.nodes) (map (λ s. s.1) (order found))
          (map-All (λ c. IsCycle Edge c.path.nodes) (λ s. s.1) (order found)
            (All-Permᴰ (λ s. IsCycle Edge s.1.path.nodes) (visits found)
              (enter_paths-IsCycle [] paths w tt)))

    -- Where the store answers with paths in which each node has an edge to the next one, each cycle
    -- that DetectCycles returns is a path that ends at the node it begins at and in which each node
    -- has an edge to the next one. The order in which the map of cycles is visited is arbitrary.
    pub detect_cycles-IsCycle :
        (repo : GraphTraversal) (root : Text) (cycles : List Cycle)
        → ((paths : List GraphPath)
            → repo.cycle_paths root dependencies ≡ ok paths
            → All (λ p. Walk Edge p.nodes) paths)
        → detect_cycles order repo root ≡ ok cycles
        → All (λ c. IsCycle Edge c.path.nodes) cycles
    unfolding detect_cycles
    detect_cycles-IsCycle repo root cycles walks h =
        let got = >>=-eq-ok (repo.cycle_paths root dependencies) _ h in
        subst (All (λ c. IsCycle Edge c.path.nodes)) (ok_inj got.2)
          (canonical_cycles-IsCycle got.0 (walks got.0 got.1))
