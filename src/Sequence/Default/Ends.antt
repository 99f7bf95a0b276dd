-- ===== src/Sequence/Default/Ends.antt =====
-- The fuel for the loops of `FindEdgesToCut` and `ComputeDefaultSequence`.
use structured_additive_ir.Common.{
  ℕ, zero, suc, ◌<◌, ◌≡◌, ◌≢◌, refl, true, false, Option, none, some, List, [], ◌∷◌, ◌++◌, arith,
  mem, length,
}
use structured_additive_ir.Sequence.Graph.{
  OpGraph, empty_graph, remove_edge, remove_self_dependencies,
}
use structured_additive_ir.Sequence.Graph.Nodes.{
  InNodes, remove_edge-InNodes, remove_self_dependencies-InNodes,
}
use structured_additive_ir.Sequence.Program.{Program, frontier_sources}
use structured_additive_ir.Sequence.Program.Frontier.{IsSource, compute_op_frontier-ne-none}
use structured_additive_ir.Sequence.Traversal.{Traversal, complete, cyclic, unfinished, traverse}
use structured_additive_ir.Sequence.Traversal.Cycle.{find_cycle_on_stack-traverse}
use structured_additive_ir.Sequence.Traversal.Ends.{Within, traverse-ne-unfinished}
use structured_additive_ir.Sequence.Default.{
  Cuts, cut, invalid_cycle, unfinished_cuts, predecessor_graph, edge_to_cut, reverse, close,
  cut_cycles, find_edges_to_cut, initial_sequence, predecessors_of, compute_predecessors,
  unfinished_sequence, Fuel, traverse_predecessors, compute_default_sequence,
}
use structured_additive_ir.Sequence.Default.Cutting.{
  Steps, close-Steps, edge_to_cut-IsValueEdge, value_edges, value_edges-le, value_edges-remove_edge,
}
use structured_additive_ir.Sequence.Default.Nodes.{
  IsClosed, predecessor_graph-InNodes, empty-InNodes, predecessors_of-Subset,
  predecessors_of-ne-none, compute_predecessors-InNodes, compute_predecessors-ne-none,
}

InNodes-Within : (nodes : List ℕ) (g : OpGraph) → InNodes nodes g → Within nodes g
InNodes-Within nodes g w = record { keys = w.keys; children = λ x on a m. (w.edges x a m).1 }

-- Enough fuel for the traversals of a graph with these nodes.
abbrev pub Enough : List ℕ → ℕ → ℕ → Type 0
Enough nodes fuel rounds = (length nodes < fuel) × (length nodes < rounds)

abbrev CutsEnd : ℕ → ℕ → ℕ → List ℕ → Program → Type 0
CutsEnd fuel rounds edges nodes p =
    (g : OpGraph) (cuts : List ℕ)
    → InNodes nodes g
    → Enough nodes fuel rounds
    → value_edges p g nodes < edges
    → cut_cycles fuel rounds edges p g cuts ≢ unfinished_cuts

cut_cycles-ne-unfinished_cuts :
    (fuel rounds edges : ℕ) (nodes : List ℕ) (p : Program) (g : OpGraph) (cuts : List ℕ)
    → InNodes nodes g
    → Enough nodes fuel rounds
    → value_edges p g nodes < edges
    → cut_cycles fuel rounds edges p g cuts ≢ unfinished_cuts
unfolding cut_cycles
cut_cycles-ne-unfinished_cuts fuel rounds zero nodes p g cuts w enough lt = absurd (omega arith)
cut_cycles-ne-unfinished_cuts fuel rounds (suc edges) nodes p g cuts w enough lt =
    at_traversal (traverse fuel rounds g) refl
      (cut_cycles-ne-unfinished_cuts fuel rounds edges nodes p)
  where
    at_cycle :
        (found : List ℕ)
        → Steps g (close (reverse found []))
        → CutsEnd fuel rounds edges nodes p
        → (edge : Option (ℕ × ℕ)) → edge_to_cut p (close (reverse found [])) ≡ edge
        → (elim edge [
          | none ↦ invalid_cycle (close (reverse found []))
          | some (op, next) ↦
              cut_cycles fuel rounds edges p (remove_edge g op next) (cuts ++ op ∷ [])
        ])
          ≢ unfinished_cuts
    at_cycle found steps later none e = cc
    at_cycle found steps later (some (op, next)) e =
        let value = edge_to_cut-IsValueEdge p g (close (reverse found [])) op next steps e in
        let on = (w.edges op next value.edge).0 in
        later (remove_edge g op next) (cuts ++ op ∷ []) (remove_edge-InNodes nodes g op next on w)
          enough (omega (arith, value_edges-remove_edge p g op next nodes value on))

    at_traversal :
        (t : Traversal)
        → traverse fuel rounds g ≡ t
        → CutsEnd fuel rounds edges nodes p
        → cut_cycles fuel rounds (suc edges) p g cuts ≢ unfinished_cuts
    at_traversal (complete ops) e later = rw (e, cut_cycles) (cc)
    at_traversal unfinished e later =
        absurd (
          traverse-ne-unfinished fuel rounds nodes g (InNodes-Within nodes g w) enough.0 enough.1 e)
    at_traversal (cyclic ops s) e later =
        let (found, at_found, is) = find_cycle_on_stack-traverse fuel rounds g ops s e in
        rw (e, cut_cycles)
          (rw (at_found, cut_cycles)
            (at_cycle found (close-Steps g found is) later
              (edge_to_cut p (close (reverse found []))) refl))

pub find_edges_to_cut-ne-unfinished_cuts :
    (fuel rounds edges : ℕ) (nodes : List ℕ) (p : Program)
    → IsClosed p nodes
    → Enough nodes fuel rounds
    → length nodes < edges
    → find_edges_to_cut fuel rounds edges p ≢ unfinished_cuts
unfolding find_edges_to_cut
find_edges_to_cut-ne-unfinished_cuts fuel rounds edges nodes p c enough lt =
    let g = predecessor_graph p p.ops empty_graph in
    cut_cycles-ne-unfinished_cuts fuel rounds edges nodes p g []
      (predecessor_graph-InNodes nodes p p.ops empty_graph c c.ops (empty-InNodes nodes)) enough
      (omega (arith, value_edges-le p g nodes))

traverse_predecessors-ne-unfinished_sequence :
    (fuel : Fuel) (nodes : List ℕ) (g : OpGraph)
    → InNodes nodes g
    → Enough nodes fuel.visit fuel.rounds
    → traverse_predecessors fuel g ≢ unfinished_sequence
unfolding traverse_predecessors
traverse_predecessors-ne-unfinished_sequence fuel nodes g w enough =
    at_traversal (traverse fuel.visit fuel.rounds (remove_self_dependencies g)) refl
  where
    at_traversal :
        (t : Traversal)
        → traverse fuel.visit fuel.rounds (remove_self_dependencies g) ≡ t
        → traverse_predecessors fuel g ≢ unfinished_sequence
    at_traversal (complete ops) e = rw (e, traverse_predecessors) (cc)
    at_traversal unfinished e = absurd (
        traverse-ne-unfinished fuel.visit fuel.rounds nodes (remove_self_dependencies g)
          (InNodes-Within nodes _ (remove_self_dependencies-InNodes nodes g w)) enough.0 enough.1 e)
    at_traversal (cyclic ops s) e =
        let (found, at_found, is) =
          find_cycle_on_stack-traverse fuel.visit fuel.rounds (remove_self_dependencies g) ops s
            e in
        rw (e, traverse_predecessors) (rw (at_found, traverse_predecessors) (cc))

-- `ComputeDefaultSequence` ends, with a sequence or a failure. The nodes hold the operations and are
-- closed under their operands and domains; the fuel of the traversals and of the cuts is above their
-- number. A rank falls along the dependencies on operations that are not compute operations, for the
-- edges that are cut; the depth of the frontiers is above the rank of each compute operation.
pub compute_default_sequence-ne-unfinished_sequence :
    (fuel : Fuel) (p : Program) (nodes : List ℕ) (rank : ℕ → ℕ)
    → IsClosed p nodes
    → Enough nodes fuel.visit fuel.rounds
    → length nodes < fuel.edges
    → ((cuts : List ℕ) (x b : ℕ)
        → find_edges_to_cut fuel.visit fuel.rounds fuel.edges p ≡ cut cuts
        → IsSource b (frontier_sources p cuts x)
        → p.is_compute b ≡ false
        → rank b < rank x)
    → ((op : ℕ) → mem op p.compute_ops ≡ true → rank op < fuel.depth)
    → compute_default_sequence fuel p ≢ unfinished_sequence
unfolding compute_default_sequence
compute_default_sequence-ne-unfinished_sequence fuel p nodes rank c enough lt falls deep =
    at_cuts (find_edges_to_cut fuel.visit fuel.rounds fuel.edges p) refl
  where
    with_cuts :
        (cuts : List ℕ)
        → find_edges_to_cut fuel.visit fuel.rounds fuel.edges p ≡ cut cuts
        → (r : Option OpGraph)
        → compute_predecessors
            (predecessors_of fuel.depth p cuts (initial_sequence p p.compute_ops []))
            p.compute_ops
            empty_graph
          ≡ r
        → (elim r [
          | none ↦ unfinished_sequence
          | some predecessors ↦ traverse_predecessors fuel predecessors
        ])
          ≢ unfinished_sequence
    with_cuts cuts e none bad = absurd (
        compute_predecessors-ne-none
          (predecessors_of fuel.depth p cuts (initial_sequence p p.compute_ops [])) p.compute_ops
          empty_graph
          (λ op m. predecessors_of-ne-none fuel.depth p cuts op (
            compute_op_frontier-ne-none rank p cuts fuel.depth op (λ x b. falls cuts x b e)
              (deep op m)))
          bad)
    with_cuts cuts e (some g) found =
        traverse_predecessors-ne-unfinished_sequence fuel nodes g
          (compute_predecessors-InNodes
            (predecessors_of fuel.depth p cuts (initial_sequence p p.compute_ops [])) nodes
            p.compute_ops empty_graph g
            (λ op before on. predecessors_of-Subset fuel.depth nodes p cuts op before c on)
            c.compute_ops (empty-InNodes nodes) found)
          enough

    at_cuts :
        (found : Cuts)
        → find_edges_to_cut fuel.visit fuel.rounds fuel.edges p ≡ found
        → compute_default_sequence fuel p ≢ unfinished_sequence
    at_cuts (invalid_cycle cycle) e = rw (e, compute_default_sequence) (cc)
    at_cuts unfinished_cuts e = absurd (
        find_edges_to_cut-ne-unfinished_cuts fuel.visit fuel.rounds fuel.edges nodes p c enough lt
          e)
    at_cuts (cut cuts) e = rw (e, compute_default_sequence) (with_cuts cuts e _ refl)
