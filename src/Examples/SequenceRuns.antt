-- ===== src/Examples/SequenceRuns.antt =====
-- A graph without a cycle, one with a cycle, and a program with an operation that is not a compute
-- operation.
use structured_additive_ir.Common.{◌≤◌, pos, negsuc}
use structured_additive_ir.Common.{
  ℕ, zero, suc, ◌-◌, ◌<◌, ◌≡◌, ◌≢◌, ◌↔◌, ◌⊎◌, inl, inr, refl, true, false, ◌||◌, Option, none, some,
  List, [], ◌∷◌, arith, ◌==◌, if◌then◌else◌, mem, Bool-cases, Subset, Distinct,
}
use structured_additive_ir.Sequence.Graph.{OpGraph, lookup}
use structured_additive_ir.Sequence.Analysis.{
  SequenceAnalysis, assign_numbers, create, before, after, insert_at, erase, is_before,
}
use structured_additive_ir.Sequence.Analysis
use structured_additive_ir.Sequence.Analysis.Positions.{IsConsistent}
use structured_additive_ir.Sequence.Analysis.Edits.{in_order}
use structured_additive_ir.Sequence.Analysis.Kept.{
  create-IsConsistent, insert_at-IsConsistent, erase-insert_at,
}
use structured_additive_ir.Sequence.Analysis.Points.{get_span, get_span-bounds}
use structured_additive_ir.Sequence.Analysis.Orders.{insert-placed, is_before-position}
use structured_additive_ir.Sequence.Default.{
  cut, sequenced, find_edges_to_cut, Fuel, compute_default_sequence,
}
use structured_additive_ir.Sequence.Default.{unfinished_sequence}
use structured_additive_ir.Sequence.Default.Nodes.{IsClosed}
use structured_additive_ir.Sequence.Default.Ends.{compute_default_sequence-ne-unfinished_sequence}
use structured_additive_ir.Common.{sym, ◌∙◌, subst, ◌++◌}
use structured_additive_ir.Sequence.Default.Ordered.{
  compute_default_sequence_complete, compute_default_sequence-Depends,
  compute_default_sequence-sequence,
}
use structured_additive_ir.Sequence.Program.{Program, compute_op_frontier, frontier_sources}
use structured_additive_ir.Sequence.Program.Frontier.{
  Depends, direct, through, IsSource, mem-compute_op_frontier, compute_op_frontier-ne-none,
}
use structured_additive_ir.Sequence.Traversal.{traverse, unfinished, find_cycle_on_stack}
use structured_additive_ir.Sequence.Traversal.Whole.{Outcome, traverse-Outcome}
use structured_additive_ir.Sequence.Traversal.Cycle.{IsCycle, find_cycle_on_stack-traverse}
use structured_additive_ir.Sequence.Traversal.Ends.{Within, traverse-ne-unfinished}

-- 1 needs 2 and 3, and 2 needs 3.
abbrev acyclic_adjacency : ℕ → Option (List ℕ)
acyclic_adjacency zero = none
acyclic_adjacency (suc zero) = some (2 ∷ 3 ∷ [])
acyclic_adjacency (suc (suc zero)) = some (3 ∷ [])
acyclic_adjacency (suc (suc (suc zero))) = some []
acyclic_adjacency (suc (suc (suc (suc x)))) = none

abbrev acyclic : OpGraph
acyclic = record { keys = 1 ∷ 2 ∷ 3 ∷ []; adjacency = acyclic_adjacency }

-- 1 needs 2, and 2 needs 1.
abbrev two_cycle : OpGraph
two_cycle = record {
  keys = 1 ∷ 2 ∷ [];
  adjacency = λ k. if k == 1 then some (2 ∷ []) else if k == 2 then some (1 ∷ []) else none;
}

traverse-Outcome_example : Outcome acyclic (traverse 4 4 acyclic)
traverse-Outcome_example = traverse-Outcome 4 4 acyclic

find_cycle_on_stack-traverse_example :
    (cycle : List ℕ) × (find_cycle_on_stack two_cycle (record { visited = []; stack = 2 ∷ 1 ∷ [] })
      ≡ some cycle)
    × IsCycle two_cycle cycle
unfolding traverse
find_cycle_on_stack-traverse_example =
    find_cycle_on_stack-traverse 3 3 two_cycle [] (record { visited = []; stack = 2 ∷ 1 ∷ [] }) refl

acyclic-children : (x a : ℕ) → mem a (lookup acyclic x) ≡ true → mem a (1 ∷ 2 ∷ 3 ∷ []) ≡ true
unfolding lookup
acyclic-children zero a m = cc
acyclic-children (suc zero) a m = ground arith
acyclic-children (suc (suc zero)) a m = ground arith
acyclic-children (suc (suc (suc zero))) a m = cc
acyclic-children (suc (suc (suc (suc x)))) a m = cc

acyclic-Within : Within (1 ∷ 2 ∷ 3 ∷ []) acyclic
acyclic-Within = record { keys = λ a m. m; children = λ x m a. acyclic-children x a }

traverse-ne-unfinished_example : traverse 4 4 acyclic ≢ unfinished
traverse-ne-unfinished_example =
    traverse-ne-unfinished 4 4 (1 ∷ 2 ∷ 3 ∷ []) acyclic acyclic-Within (omega arith) (omega arith)

-- Operation `x` reads operation `x - 1`; only 0 and 2 are compute operations, with the sequence
-- numbers -42 and -1.
abbrev chain : Program
chain = record {
  ops = 0 ∷ 1 ∷ 2 ∷ [];
  compute_ops = 0 ∷ 2 ∷ [];
  is_compute = λ x. x == 0 || x == 2;
  domain = λ x. [];
  operands = λ x. if x == 0 then [] else some (x - 1) ∷ [];
  fby = λ x. none;
  sequence = λ x. if x == 0 then some (negsuc 41) else if x == 2 then some (negsuc 0) else none;
}

mem-compute_op_frontier_example : (mem 0 (0 ∷ []) ≡ true) ↔ Depends chain [] 2 0
unfolding compute_op_frontier frontier_sources
mem-compute_op_frontier_example = mem-compute_op_frontier 3 chain [] 2 (0 ∷ []) 0 refl

falls : (x b : ℕ) → IsSource b (frontier_sources chain [] x) → chain.is_compute b ≡ false → b < x
unfolding frontier_sources
falls x b s c = elim (Bool-cases (x == 0)) [
  | inl e ↦ elim (rw e at s) [ ]
  | inr ne ↦ below (rw ne at s) ne
]
  where
    below : (b ≡ x - 1) ⊎ ⊥ → (x == 0) ≡ false → b < x
    below (inl e) ne = ground (arith, e)
    below (inr bad) ne = elim bad [ ]

compute_op_frontier-ne-none_example : compute_op_frontier 3 chain [] 2 ≢ none
compute_op_frontier-ne-none_example =
    compute_op_frontier-ne-none (λ x. x) chain [] 3 2 falls (omega arith)

abbrev enough : Fuel
enough = record { visit = 4; rounds = 4; edges = 4; depth = 4 }

sequence-chain : compute_default_sequence enough chain ≡ sequenced (0 ∷ 2 ∷ [])
unfolding compute_default_sequence
sequence-chain = refl

cuts-chain : find_edges_to_cut 4 4 4 chain ≡ cut []
unfolding find_edges_to_cut
cuts-chain = refl

Depends-chain : Depends chain [] 2 0
unfolding frontier_sources
Depends-chain =
    through {op = 2} {b = 1} {a = 0} (inl refl) refl (direct {op = 1} {a = 0} (inl refl) refl)

compute_default_sequence_complete_example : Subset (0 ∷ 2 ∷ []) (0 ∷ 2 ∷ []) × Distinct (0 ∷ 2 ∷ [])
compute_default_sequence_complete_example =
    compute_default_sequence_complete enough chain (0 ∷ 2 ∷ []) sequence-chain

compute_default_sequence-Depends_example : mem 0 (0 ∷ []) ≡ true
compute_default_sequence-Depends_example =
    compute_default_sequence-Depends enough chain (0 ∷ 2 ∷ []) [] 0 2 sequence-chain cuts-chain refl
      Depends-chain refl (0 ∷ []) [] refl

-- The `fby` 1 starts with 0 and goes on with 2, which reads it.
abbrev looping_operands : ℕ → List (Option ℕ)
looping_operands (suc zero) = some 0 ∷ some 2 ∷ []
looping_operands (suc (suc zero)) = some 1 ∷ []
looping_operands zero = []
looping_operands (suc (suc (suc x))) = []

abbrev looping_fby : ℕ → Option (Option ℕ × Option ℕ)
looping_fby (suc zero) = some (some 0, some 2)
looping_fby zero = none
looping_fby (suc (suc x)) = none

abbrev looping : Program
looping = record {
  ops = 0 ∷ 1 ∷ 2 ∷ [];
  compute_ops = 0 ∷ 2 ∷ [];
  is_compute = λ x. x == 0 || x == 2;
  domain = λ x. [];
  operands = looping_operands;
  fby = looping_fby;
  sequence = λ x. none;
}

cuts-looping : find_edges_to_cut 4 4 4 looping ≡ cut (1 ∷ [])
unfolding find_edges_to_cut
cuts-looping = refl

sequence-looping : compute_default_sequence enough looping ≡ sequenced (0 ∷ 2 ∷ [])
unfolding compute_default_sequence
sequence-looping = refl

looping-sources :
    (cuts : List ℕ) (x b : ℕ)
    → mem x (0 ∷ 1 ∷ 2 ∷ []) ≡ true
    → IsSource b (frontier_sources looping cuts x)
    → mem b (0 ∷ 1 ∷ 2 ∷ []) ≡ true
unfolding frontier_sources
looping-sources cuts x b on s = elim (Bool-cases (mem x cuts)) [
  | inl c ↦ started x (rw c at s)
  | inr c ↦ reads x (rw c at s)
]
  where
    started :
        (x : ℕ)
        → IsSource b ((elim (looping_fby x) [ some (init, _) ↦ init ∷ [] | none ↦ [] ]) ++ [])
        → mem b (0 ∷ 1 ∷ 2 ∷ []) ≡ true
    started zero h = elim h [ ]
    started (suc zero) (inl e) = ground (arith, e)
    started (suc zero) (inr h) = elim h [ ]
    started (suc (suc x)) h = elim h [ ]

    reads : (x : ℕ) → IsSource b (looping_operands x ++ []) → mem b (0 ∷ 1 ∷ 2 ∷ []) ≡ true
    reads zero h = elim h [ ]
    reads (suc zero) (inl e) = ground (arith, e)
    reads (suc zero) (inr (inl e)) = ground (arith, e)
    reads (suc zero) (inr (inr h)) = elim h [ ]
    reads (suc (suc zero)) (inl e) = ground (arith, e)
    reads (suc (suc zero)) (inr h) = elim h [ ]
    reads (suc (suc (suc x))) h = elim h [ ]

looping-IsClosed : IsClosed looping (0 ∷ 1 ∷ 2 ∷ [])
looping-IsClosed = record {
  ops = λ a m. m;
  compute_ops = λ a m. ground (arith, m);
  sources = looping-sources;
}

looping-falls :
    (x b : ℕ)
    → IsSource b (frontier_sources looping (1 ∷ []) x)
    → looping.is_compute b ≡ false
    → b < x
unfolding frontier_sources
looping-falls zero b s c = elim s [ ]
looping-falls (suc zero) b (inl e) c = ground (arith, e)
looping-falls (suc zero) b (inr h) c = elim h [ ]
looping-falls (suc (suc zero)) b (inl e) c = ground (arith, e)
looping-falls (suc (suc zero)) b (inr h) c = elim h [ ]
looping-falls (suc (suc (suc x))) b s c =
    let kept : mem (suc (suc (suc x))) (1 ∷ []) ≡ false = ground arith in elim (rw kept at s) [ ]

compute_default_sequence-ne-unfinished_sequence_example :
    compute_default_sequence enough looping ≢ unfinished_sequence
compute_default_sequence-ne-unfinished_sequence_example =
    compute_default_sequence-ne-unfinished_sequence enough looping (0 ∷ 1 ∷ 2 ∷ []) (λ x. x)
      looping-IsClosed (omega arith, omega arith) (omega arith)
      (λ cuts x b found s.
        let same : cut (1 ∷ []) ≡ cut cuts = sym cuts-looping ∙ found in
        let one : cuts ≡ 1 ∷ [] = cc in
        looping-falls x b (subst (λ c. IsSource b (frontier_sources looping c x)) one s))
      (λ op m. ground (arith, m))

-- Two compute operations that read nothing: 0 with the number 3, and 1 with the number -42.
abbrev by_number : Program
by_number = record {
  ops = 0 ∷ 1 ∷ [];
  compute_ops = 0 ∷ 1 ∷ [];
  is_compute = λ x. true;
  domain = λ x. [];
  operands = λ x. [];
  fby = λ x. none;
  sequence = λ x. if x == 0 then some (pos 3) else some (negsuc 41);
}

sequence-by_number : compute_default_sequence enough by_number ≡ sequenced (1 ∷ 0 ∷ [])
unfolding compute_default_sequence
sequence-by_number = refl

compute_default_sequence-sequence_example : mem 1 (1 ∷ []) ≡ true
compute_default_sequence-sequence_example =
    compute_default_sequence-sequence enough by_number (1 ∷ 0 ∷ []) 1 0 (negsuc 41) (pos 3)
      sequence-by_number refl refl refl refl (omega arith) (1 ∷ []) [] refl

abbrev created : SequenceAnalysis
created = record { compute_ops = 0 ∷ 2 ∷ []; numbers = assign_numbers (0 ∷ 2 ∷ []) 0 (λ _. none) }

create-chain : create enough chain ≡ some created
unfolding create
create-chain = refl

create-IsConsistent_example : IsConsistent created
create-IsConsistent_example = create-IsConsistent enough chain created create-chain

two-IsConsistent : IsConsistent (in_order (0 ∷ 2 ∷ []))
two-IsConsistent = record { once = (refl, (refl, tt)); positions = λ q. refl }

insert_at-IsConsistent_example : IsConsistent (insert_at (in_order (0 ∷ 2 ∷ [])) 5 1)
insert_at-IsConsistent_example =
    insert_at-IsConsistent (in_order (0 ∷ 2 ∷ [])) 5 1 two-IsConsistent refl (omega arith)

erase-insert_at_example :
    erase (insert_at (in_order (0 ∷ 2 ∷ [])) 5 1) 5 ≡ some (in_order (0 ∷ 2 ∷ []))
erase-insert_at_example =
    erase-insert_at (in_order (0 ∷ 2 ∷ [])) 5 1 two-IsConsistent refl (omega arith)

insert-placed_example :
    (Analysis.insert 4 chain [] (in_order (0 ∷ 2 ∷ [])) 5 (some 2) before
      ≡ some (in_order (0 ∷ 5 ∷ 2 ∷ [])))
    × (Analysis.insert 4 chain [] (in_order (0 ∷ 2 ∷ [])) 5 (some 2) after
        ≡ some (in_order (0 ∷ 2 ∷ 5 ∷ [])))
insert-placed_example =
    insert-placed 4 chain [] (in_order (0 ∷ 2 ∷ [])) 5 2 (0 ∷ []) [] two-IsConsistent refl refl refl

is_before-position_example : is_before 4 chain [] (in_order (0 ∷ 2 ∷ [])) 0 2 ≡ some true
is_before-position_example =
    is_before-position 4 chain [] (in_order (0 ∷ 2 ∷ [])) 0 2 (0 ∷ []) [] two-IsConsistent refl refl
      refl

span-two : get_span (in_order (0 ∷ 2 ∷ 5 ∷ 7 ∷ [])) (5 ∷ 2 ∷ []) ≡ some (2, 5)
unfolding get_span
span-two = refl

get_span-bounds_example :
    (mem 2 (5 ∷ 2 ∷ []) ≡ true)
    × (mem 5 (5 ∷ 2 ∷ []) ≡ true)
    × ((l h : ℕ) × ((in_order (0 ∷ 2 ∷ 5 ∷ 7 ∷ [])).numbers 2 ≡ some l)
        × ((in_order (0 ∷ 2 ∷ 5 ∷ 7 ∷ [])).numbers 5 ≡ some h)
        × (l ≤ 1)
        × (1 ≤ h))
get_span-bounds_example =
    get_span-bounds (in_order (0 ∷ 2 ∷ 5 ∷ 7 ∷ [])) (5 ∷ 2 ∷ []) 2 5 2 1
      (record { once = (refl, (refl, (refl, (refl, tt)))); positions = λ q. refl }) span-two refl
      refl
