-- ===== src/Sequence/Graph.antt =====
-- `ConcreteOpGraph`: a graph of operations that remembers the order of insertion. An operation is
-- named by a number.
pub mod Edges
pub mod Nodes
use structured_additive_ir.Common.{
  ℕ, Bool, true, false, Option, none, some, List, [], ◌∷◌, ◌++◌, ◌==◌, if◌then◌else◌, mem,
}

pub record OpGraph : Type 0 where
  pub keys : List ℕ
  pub adjacency : ℕ → Option (List ℕ)

abbrev pub empty_graph : OpGraph
empty_graph = record { keys = []; adjacency = λ _. none }

-- `SetVector::insert`, with whether the element was new.
unfoldable pub set_vector_insert : ℕ → List ℕ → List ℕ × Bool
set_vector_insert a xs = if mem a xs then (xs, false) else (xs ++ a ∷ [], true)

-- Inserts a node. The result says whether it is new.
unfoldable pub insert : OpGraph → ℕ → OpGraph × Bool
insert g key = elim (g.adjacency key) [
  | some _ ↦ (g, false)
  | none ↦ (
    record {
      keys = g.keys ++ key ∷ [];
      adjacency = λ k. if k == key then some [] else g.adjacency k;
    },
    true,
  )
]

-- The adjacency list of a node; a node that was not inserted has none.
unfoldable pub lookup : OpGraph → ℕ → List ℕ
lookup g key = elim (g.adjacency key) [ some ops ↦ ops | none ↦ [] ]

-- `graph[key] = ops`.
unfoldable pub assign : OpGraph → ℕ → List ℕ → OpGraph
unfolding insert
assign g key ops =
    let g' = (insert g key).0 in
    record g' { adjacency = λ k. if k == key then some ops else g'.adjacency k }

-- `graph[key].insert(op)`.
unfoldable pub add_edge : OpGraph → ℕ → ℕ → OpGraph
unfolding assign lookup set_vector_insert
add_edge g key op = assign g key (set_vector_insert op (lookup g key)).0

-- `SetVector::remove`.
unfoldable pub without : ℕ → List ℕ → List ℕ
without a [] = []
without a (x ∷ xs) = let rest = without a xs in if a == x then rest else x ∷ rest

-- `graph[key].remove(op)`.
unfoldable pub remove_edge : OpGraph → ℕ → ℕ → OpGraph
unfolding assign lookup without
remove_edge g key op = assign g key (without op (lookup g key))

-- The loop of `RemoveSelfDependencies` over the keys.
unfoldable pub remove_self_edges : List ℕ → OpGraph → OpGraph
unfolding remove_edge
remove_self_edges [] g = g
remove_self_edges (op ∷ ops) g = remove_self_edges ops (remove_edge g op op)

unfoldable pub remove_self_dependencies : OpGraph → OpGraph
unfolding remove_self_edges
remove_self_dependencies g = remove_self_edges g.keys g
