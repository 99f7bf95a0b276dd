-- ===== src/Sequence/Default.antt =====
-- `FindEdgesToCut`, `OpsBefore` and `SequenceAnalysis::ComputeDefaultSequence`.
pub mod Entries
pub mod Origin
pub mod Ordered
pub mod Nodes
pub mod Cutting
pub mod Ends
use structured_additive_ir.Common.{
  ℕ, ℤ, zero, suc, ◌+◌, Bool, true, false, Option, none, some, List, [], ◌∷◌, ◌++◌, ◌==◌, ltb_ℤ,
  leb, if◌then◌else◌, mem, ◌>>=◌, map_option, length, map,
}
use structured_additive_ir.Sequence.Graph.{
  OpGraph, empty_graph, insert, assign, add_edge, remove_edge, lookup, remove_self_dependencies,
}
use structured_additive_ir.Sequence.Program.{Program, insert_all, compute_op_frontier}
use structured_additive_ir.Sequence.Traversal.{
  Traversal, complete, cyclic, unfinished, traverse, find_cycle_on_stack,
}

-- `predecessors[op].insert(defining_op)` for each of the values that are given.
unfoldable pub add_edges : List (Option ℕ) → ℕ → OpGraph → OpGraph
unfolding add_edge
add_edges [] op g = g
add_edges (none ∷ values) op g = add_edges values op g
add_edges (some defining_op ∷ values) op g = add_edges values op (add_edge g op defining_op)

-- The graph of Sair predecessors.
unfoldable pub predecessor_graph : Program → List ℕ → OpGraph → OpGraph
unfolding add_edges insert
predecessor_graph p [] g = g
predecessor_graph p (op ∷ ops) g =
    predecessor_graph p ops (
      add_edges (p.operands op) op (add_edges (map (λ d. some d) (p.domain op)) op (insert g op).0))

-- The first edge of a cycle that is the `Value` operand of an `fby`. The cycle ends with its first
-- node once more.
unfoldable pub edge_to_cut : Program → List ℕ → Option (ℕ × ℕ)
edge_to_cut p [] = none
edge_to_cut p (op ∷ []) = none
edge_to_cut p (op ∷ next ∷ cycle) =
    let rest = edge_to_cut p (next ∷ cycle) in
    elim (p.fby op) [
      | none ↦ rest
      | some (_, none) ↦ rest
      | some (_, some defining_op) ↦ if defining_op == next then some (op, next) else rest
    ]

-- From the top of the stack down, to from the bottom up and closed.
abbrev pub reverse : List ℕ → List ℕ → List ℕ
reverse [] acc = acc
reverse (x ∷ xs) acc = reverse xs (x ∷ acc)

abbrev pub close : List ℕ → List ℕ
close [] = []
close (x ∷ xs) = (x ∷ xs) ++ x ∷ []

-- `cut` holds the operations whose `Value` edge is cut; `invalid_cycle` a cycle that cannot be.
pub data Cuts : Type 0 where
  cut : List ℕ → Cuts
  invalid_cycle : List ℕ → Cuts
  unfinished_cuts : Cuts

-- The outer loop. `fuel` and `rounds` are for each traversal, `edges` bounds the number of cuts.
unfoldable pub cut_cycles : ℕ → ℕ → ℕ → Program → OpGraph → List ℕ → Cuts
unfolding edge_to_cut remove_edge find_cycle_on_stack traverse
cut_cycles fuel rounds zero p g fby_ops_to_cut = unfinished_cuts
cut_cycles fuel rounds (suc edges) p g fby_ops_to_cut = elim (traverse fuel rounds g) [
  | complete _ ↦ cut fby_ops_to_cut
  | unfinished ↦ unfinished_cuts
  | cyclic _ state ↦ elim (find_cycle_on_stack g state) [
    | none ↦ unfinished_cuts
    | some found ↦
        (let cycle = close (reverse found []) in
          elim (edge_to_cut p cycle) [
            | none ↦ invalid_cycle cycle
            | some (op, next) ↦
                cut_cycles fuel rounds edges p (remove_edge g op next) (fby_ops_to_cut ++ op ∷ [])
          ])
  ]
]

unfoldable pub find_edges_to_cut : ℕ → ℕ → ℕ → Program → Cuts
unfolding cut_cycles predecessor_graph
find_edges_to_cut fuel rounds edges p =
    cut_cycles fuel rounds edges p (predecessor_graph p p.ops empty_graph) []

-- `multimap::emplace`: behind the entries with the same number.
unfoldable pub emplace : ℤ → ℕ → List (ℤ × ℕ) → List (ℤ × ℕ)
emplace number op [] = (number, op) ∷ []
emplace number op ((n, o) ∷ entries) =
    if ltb_ℤ number n then (number, op) ∷ (n, o) ∷ entries else (n, o) ∷ emplace number op entries

-- The operations with a sequence number, in the order of their numbers.
unfoldable pub initial_sequence : Program → List ℕ → List (ℤ × ℕ) → List (ℤ × ℕ)
unfolding emplace
initial_sequence p [] entries = entries
initial_sequence p (op ∷ ops) entries =
    initial_sequence p ops
      (elim (p.sequence op) [ none ↦ entries | some number ↦ emplace number op entries ])

-- The entries before `lower_bound(number)`.
unfoldable pub entries_before : ℤ → List (ℤ × ℕ) → List ℕ
entries_before number [] = []
entries_before number ((n, o) ∷ entries) =
    let rest = entries_before number entries in if ltb_ℤ n number then o ∷ rest else []

unfoldable pub ops_before : Program → List (ℤ × ℕ) → ℕ → List ℕ
unfolding entries_before
ops_before p sequenced_ops op = elim (p.sequence op) [
  | none ↦ []
  | some number ↦ entries_before number sequenced_ops
]

-- The predecessors of one compute operation.
unfoldable pub predecessors_of : ℕ → Program → List ℕ → List (ℤ × ℕ) → ℕ → Option (List ℕ)
unfolding compute_op_frontier ops_before
predecessors_of fuel p fby_ops_to_cut initial op =
    map_option (insert_all (ops_before p initial op)) (compute_op_frontier fuel p fby_ops_to_cut op)

-- The graph of the predecessors of all compute operations.
unfoldable pub compute_predecessors : (ℕ → Option (List ℕ)) → List ℕ → OpGraph → Option OpGraph
unfolding insert assign
compute_predecessors predecessors [] g = some g
compute_predecessors predecessors (op ∷ ops) g = predecessors op >>= λ before.
    compute_predecessors predecessors ops (assign (insert g op).0 op before)

-- `failure` covers the two errors that are reported: a use-def cycle, and sequence attributes
-- that contradict use-def chains.
pub data Sequenced : Type 0 where
  sequenced : List ℕ → Sequenced
  failure : List ℕ → Sequenced
  unfinished_sequence : Sequenced

-- The fuel of the traversals of both graphs, of the cuts and of the frontiers.
pub record Fuel : Type 0 where
  pub visit : ℕ
  pub rounds : ℕ
  pub edges : ℕ
  pub depth : ℕ

unfoldable pub traverse_predecessors : Fuel → OpGraph → Sequenced
unfolding remove_self_dependencies traverse find_cycle_on_stack
traverse_predecessors fuel predecessors =
    let g = remove_self_dependencies predecessors in
    elim (traverse fuel.visit fuel.rounds g) [
      | complete ops ↦ sequenced ops
      | unfinished ↦ unfinished_sequence
      | cyclic _ state ↦ elim (find_cycle_on_stack g state) [
        | none ↦ unfinished_sequence
        | some cycle ↦ failure (reverse cycle [])
      ]
    ]

unfoldable pub compute_default_sequence : Fuel → Program → Sequenced
unfolding find_edges_to_cut initial_sequence predecessors_of compute_predecessors
    traverse_predecessors
compute_default_sequence fuel p =
    let initial = initial_sequence p p.compute_ops [] in
    elim (find_edges_to_cut fuel.visit fuel.rounds fuel.edges p) [
      | invalid_cycle cycle ↦ failure cycle
      | unfinished_cuts ↦ unfinished_sequence
      | cut fby_ops_to_cut ↦
          elim (compute_predecessors (predecessors_of fuel.depth p fby_ops_to_cut initial)
            p.compute_ops empty_graph) [
              | none ↦ unfinished_sequence
              | some predecessors ↦ traverse_predecessors fuel predecessors
            ]
    ]
