-- ===== src/Sequence/Traversal.antt =====
-- `DFSPostorderTraversal`: the nodes of a graph in depth-first postorder, with an explicit stack.
-- The top of the stack is the head of the list, and so is the node visited last in `visited`.
pub mod Order
pub mod Whole
pub mod Cycle
pub mod Ends
use structured_additive_ir.Common.{
  ℕ, zero, suc, ◌+◌, Bool, true, false, not, Option, none, some, List, [], ◌∷◌, ◌++◌, ◌==◌, length,
  if◌then◌else◌, mem,
}
use structured_additive_ir.Sequence.Graph.{OpGraph, lookup}

pub record DfsState : Type 0 where
  pub visited : List ℕ
  pub stack : List ℕ

-- `insert` into the stack or the visited set: on top, unless it is there.
abbrev pub push : ℕ → List ℕ → List ℕ
push a xs = if mem a xs then xs else a ∷ xs

-- The first child that is not visited.
unfoldable pub first_unvisited : List ℕ → List ℕ → Option ℕ
first_unvisited visited [] = none
first_unvisited visited (child ∷ children) =
    if mem child visited then first_unvisited visited children else some child

-- What `VisitDFSPostorder` returns: the next node; the null node, at a cycle; or nothing, where
-- the program ends at `llvm_unreachable` or the model's fuel runs out.
pub data Visit : Type 0 where
  visit : ℕ → DfsState → Visit
  hit_cycle : DfsState → Visit
  stuck : Visit

-- The loop of `VisitDFSPostorder`.
unfoldable pub visit_loop : ℕ → OpGraph → DfsState → Visit
unfolding first_unvisited lookup
visit_loop zero graph state = stuck
visit_loop (suc fuel) graph state = elim state.stack [
  | [] ↦ stuck
  | current ∷ rest ↦ elim (first_unvisited state.visited (lookup graph current)) [
    | none ↦ visit current (record { visited = push current state.visited; stack = rest })
    | some child ↦
        (let stack = push current rest in
          let next = visit_loop fuel graph (record state { stack = child ∷ stack }) in
          if mem child stack then hit_cycle (record state { stack = stack }) else next)
  ]
]

unfoldable pub visit_dfs_postorder : ℕ → ℕ → OpGraph → DfsState → Visit
unfolding visit_loop
visit_dfs_postorder fuel root graph state =
    visit_loop fuel graph (record state { stack = push root state.stack })

-- What the loop over the iterator sees: all nodes in order, or those before a cycle and the stack
-- at the cycle.
pub data Traversal : Type 0 where
  complete : List ℕ → Traversal
  cyclic : List ℕ → DfsState → Traversal
  unfinished : Traversal

-- The iterator from `root` and `state` on: its dereferenced nodes go onto `ops`, and `++` goes on
-- from the root or takes the next root among the keys. `fuel` bounds each visit, `rounds` the
-- number of visits.
unfoldable pub iterate : ℕ → ℕ → OpGraph → ℕ → DfsState → List ℕ → Traversal
unfolding visit_dfs_postorder
iterate fuel zero graph root state ops = unfinished
iterate fuel (suc rounds) graph root state ops = elim (visit_dfs_postorder fuel root graph state) [
  | stuck ↦ unfinished
  | hit_cycle state' ↦ cyclic ops state'
  | visit current state' ↦ elim (current == root) [
    | false ↦ iterate fuel rounds graph root state' (ops ++ current ∷ [])
    | true ↦ elim (first_unvisited state'.visited graph.keys) [
      | none ↦ complete (ops ++ current ∷ [])
      | some op ↦ iterate fuel rounds graph op state' (ops ++ current ∷ [])
    ]
  ]
]

unfoldable pub traverse : ℕ → ℕ → OpGraph → Traversal
unfolding iterate
traverse fuel rounds graph = elim graph.keys [
  | [] ↦ complete []
  | root ∷ _ ↦ iterate fuel rounds graph root (record { visited = []; stack = [] }) []
]

-- The stack from its top down to the first occurrence of a node.
abbrev pub down_to : ℕ → List ℕ → List ℕ
down_to a [] = []
down_to a (x ∷ xs) = if a == x then x ∷ [] else x ∷ down_to a xs

-- The loop of `FindCycleOnStack` over the children of the node on top; `none` where the program
-- ends at `llvm_unreachable`.
unfoldable pub find_on_stack : List ℕ → List ℕ → Option (List ℕ)
find_on_stack stack [] = none
find_on_stack stack (child ∷ children) =
    if mem child stack then some (down_to child stack) else find_on_stack stack children

-- The range of nodes that form the cycle, the node on top of the stack first.
unfoldable pub find_cycle_on_stack : OpGraph → DfsState → Option (List ℕ)
unfolding find_on_stack lookup
find_cycle_on_stack graph state = elim state.stack [
  | [] ↦ none
  | pre_cycle_op ∷ _ ↦ find_on_stack state.stack (lookup graph pre_cycle_op)
]
