-- ===== src/Sequence/Default/Nodes.antt =====
-- The operations that the graphs of `ComputeDefaultSequence` hold.
use structured_additive_ir.Common.{
  ℕ, ℤ, ◌≡◌, ◌≢◌, refl, sym, ap, ◌∙◌, subst, true, ◌||◌, ◌⊎◌, inl, inr, Bool-cases, Option, none,
  some, Option-cases, List, [], ◌∷◌, ◌++◌, ◌==◌, ==_iff, arith, mem, map, Subset, >>=-eq-some,
  map_option-eq-some, ltb_ℤ,
}
use structured_additive_ir.Sequence.Graph.{OpGraph, empty_graph, insert, assign, lookup, add_edge}
use structured_additive_ir.Sequence.Graph.Nodes.{
  InNodes, insert-InNodes, assign-InNodes, add_edge-InNodes,
}
use structured_additive_ir.Sequence.Program.{
  Program, frontier_sources, insert_all, compute_op_frontier,
}
use structured_additive_ir.Sequence.Program.Frontier.{
  IsSource, Depends, direct, through, mem-insert_all, mem-compute_op_frontier,
}
use structured_additive_ir.Sequence.Default.{
  add_edges, predecessor_graph, emplace, initial_sequence, entries_before, ops_before,
  predecessors_of, compute_predecessors,
}

-- The operations of the program, and the values that a node reads, are nodes.
pub record IsClosed (p : Program) (nodes : List ℕ) : Type 0 where
  pub ops : Subset p.ops nodes
  pub compute_ops : Subset p.compute_ops nodes
  pub sources :
      (cuts : List ℕ) (x b : ℕ)
      → mem x nodes ≡ true
      → IsSource b (frontier_sources p cuts x)
      → mem b nodes ≡ true

IsSource-append :
    (b : ℕ) (vs ws : List (Option ℕ)) → IsSource b vs ⊎ IsSource b ws → IsSource b (vs ++ ws)
IsSource-append b [] ws (inl h) = elim h [ ]
IsSource-append b [] ws (inr h) = h
IsSource-append b (none ∷ vs) ws h = IsSource-append b vs ws h
IsSource-append b (some v ∷ vs) ws (inl (inl e)) = inl e
IsSource-append b (some v ∷ vs) ws (inl (inr h)) = inr (IsSource-append b vs ws (inl h))
IsSource-append b (some v ∷ vs) ws (inr h) = inr (IsSource-append b vs ws (inr h))

add_edges-InNodes :
    (nodes : List ℕ) (vs : List (Option ℕ)) (op : ℕ) (g : OpGraph)
    → mem op nodes ≡ true
    → ((b : ℕ) → IsSource b vs → mem b nodes ≡ true)
    → InNodes nodes g
    → InNodes nodes (add_edges vs op g)
unfolding add_edges
add_edges-InNodes nodes [] op g on sub w = w
add_edges-InNodes nodes (none ∷ vs) op g on sub w = add_edges-InNodes nodes vs op g on sub w
add_edges-InNodes nodes (some b ∷ vs) op g on sub w =
    add_edges-InNodes nodes vs op (add_edge g op b) on (λ a s. sub a (inr s))
      (add_edge-InNodes nodes g op b on (sub b (inl refl)) w)

pub predecessor_graph-InNodes :
    (nodes : List ℕ) (p : Program) (ops : List ℕ) (g : OpGraph)
    → IsClosed p nodes
    → Subset ops nodes
    → InNodes nodes g
    → InNodes nodes (predecessor_graph p ops g)
unfolding predecessor_graph frontier_sources
predecessor_graph-InNodes nodes p [] g c sub w = w
predecessor_graph-InNodes nodes p (op ∷ ops) g c sub w =
    let on : mem op nodes ≡ true = sub op (ground arith) in
    let domain = map (λ d. some d) (p.domain op) in
    let with_domain =
      add_edges-InNodes nodes domain op (insert g op).0 on
        (λ b s. c.sources [] op b on (IsSource-append b (p.operands op) domain (inr s)))
        (insert-InNodes nodes g op on w) in
    predecessor_graph-InNodes nodes p ops _ c (λ a m. sub a (ground (arith, m)))
      (add_edges-InNodes nodes (p.operands op) op _ on
        (λ b s. c.sources [] op b on (IsSource-append b (p.operands op) domain (inl s)))
        with_domain)

pub empty-InNodes : (nodes : List ℕ) → InNodes nodes empty_graph
unfolding lookup
empty-InNodes nodes = record { keys = λ a m. cc; edges = λ x y m. cc }

-- The operations of the entries are nodes.
abbrev EntriesIn : List ℕ → List (ℤ × ℕ) → Type 0
EntriesIn nodes [] = Unit
EntriesIn nodes ((n, o) ∷ entries) = (mem o nodes ≡ true) × EntriesIn nodes entries

emplace-EntriesIn :
    (nodes : List ℕ) (number : ℤ) (op : ℕ) (entries : List (ℤ × ℕ))
    → mem op nodes ≡ true
    → EntriesIn nodes entries
    → EntriesIn nodes (emplace number op entries)
unfolding emplace
emplace-EntriesIn nodes number op [] on h = (on, tt)
emplace-EntriesIn nodes number op ((n, o) ∷ entries) on h = elim (Bool-cases (ltb_ℤ number n)) [
  | inl e ↦ rw e (on, h)
  | inr ne ↦ rw ne (h.0, emplace-EntriesIn nodes number op entries on h.1)
]

initial_sequence-EntriesIn :
    (nodes : List ℕ) (p : Program) (ops : List ℕ) (entries : List (ℤ × ℕ))
    → Subset ops nodes
    → EntriesIn nodes entries
    → EntriesIn nodes (initial_sequence p ops entries)
unfolding initial_sequence
initial_sequence-EntriesIn nodes p [] entries sub h = h
initial_sequence-EntriesIn nodes p (op ∷ ops) entries sub h =
    let later : Subset ops nodes = λ a m. sub a (ground (arith, m)) in
    elim (Option-cases (p.sequence op)) [
      | inl e ↦ rw e (initial_sequence-EntriesIn nodes p ops entries later h)
      | inr (number, e) ↦ rw e (
          initial_sequence-EntriesIn nodes p ops (emplace number op entries) later
            (emplace-EntriesIn nodes number op entries (sub op (ground arith)) h))
    ]

entries_before-Subset :
    (nodes : List ℕ) (number : ℤ) (entries : List (ℤ × ℕ))
    → EntriesIn nodes entries
    → Subset (entries_before number entries) nodes
unfolding entries_before
entries_before-Subset nodes number [] h a m = cc
entries_before-Subset nodes number ((n, o) ∷ entries) h a m = elim (Bool-cases (ltb_ℤ n number)) [
  | inr ne ↦ cc (rw (ne, entries_before) at m)
  | inl e ↦ elim (Bool-cases (a == o)) [
    | inl same ↦ subst (λ x. mem x nodes ≡ true) (sym ((==_iff a o).0 same)) h.0
    | inr other ↦
        entries_before-Subset nodes number entries h.1 a (rw other at (rw (e, entries_before) at m))
  ]
]

ops_before-Subset :
    (nodes : List ℕ) (p : Program) (entries : List (ℤ × ℕ)) (op : ℕ)
    → EntriesIn nodes entries
    → Subset (ops_before p entries op) nodes
unfolding ops_before
ops_before-Subset nodes p entries op h a m = elim (Option-cases (p.sequence op)) [
  | inl e ↦ cc (rw (e, ops_before) at m)
  | inr (number, e) ↦ entries_before-Subset nodes number entries h a (rw (e, ops_before) at m)
]

Depends-mem :
    (nodes : List ℕ) (p : Program) (cuts : List ℕ) (op a : ℕ)
    → IsClosed p nodes
    → mem op nodes ≡ true
    → Depends p cuts op a
    → mem a nodes ≡ true
Depends-mem nodes p cuts op a c on (direct s compute) = c.sources cuts op a on s
Depends-mem nodes p cuts op a c on (through {b} s not_compute rest) =
    Depends-mem nodes p cuts b a c (c.sources cuts op b on s) rest

-- The predecessors that an operation of the program gets are nodes.
pub predecessors_of-Subset :
    (depth : ℕ) (nodes : List ℕ) (p : Program) (cuts : List ℕ) (op : ℕ) (before : List ℕ)
    → IsClosed p nodes
    → mem op nodes ≡ true
    → predecessors_of depth p cuts (initial_sequence p p.compute_ops []) op ≡ some before
    → Subset before nodes
unfolding predecessors_of
predecessors_of-Subset depth nodes p cuts op before c on h a m =
    let initial = initial_sequence p p.compute_ops [] in
    let (frontier, reached, value) =
      map_option-eq-some (insert_all (ops_before p initial op))
        (compute_op_frontier depth p cuts op) h in
    let inside : mem a (ops_before p initial op) || mem a frontier ≡ true =
      sym (mem-insert_all a (ops_before p initial op) frontier) ∙ ap (mem a) value ∙ m in
    elim (Bool-cases (mem a frontier)) [
      | inl found ↦
          Depends-mem nodes p cuts op a c on
            ((mem-compute_op_frontier depth p cuts op frontier a reached).0 found)
      | inr not_found ↦
          ops_before-Subset nodes p initial op
            (initial_sequence-EntriesIn nodes p p.compute_ops [] c.compute_ops tt) a
            (ground (arith, inside, not_found))
    ]

pub predecessors_of-ne-none :
    (depth : ℕ) (p : Program) (cuts : List ℕ) (op : ℕ)
    → compute_op_frontier depth p cuts op ≢ none
    → predecessors_of depth p cuts (initial_sequence p p.compute_ops []) op ≢ none
unfolding predecessors_of
predecessors_of-ne-none depth p cuts op reached =
    elim (Option-cases (compute_op_frontier depth p cuts op)) [
      | inl bad ↦ absurd (reached bad)
      | inr (frontier, e) ↦ rw (e, predecessors_of) (cc)
    ]

pub compute_predecessors-InNodes :
    (predecessors : ℕ → Option (List ℕ)) (nodes ops : List ℕ) (g g' : OpGraph)
    → ((op : ℕ) (before : List ℕ)
        → mem op nodes ≡ true
        → predecessors op ≡ some before
        → Subset before nodes)
    → Subset ops nodes
    → InNodes nodes g
    → compute_predecessors predecessors ops g ≡ some g'
    → InNodes nodes g'
unfolding compute_predecessors
compute_predecessors-InNodes predecessors nodes [] g g' among sub w h =
    let same : g ≡ g' = cc in subst (InNodes nodes) same w
compute_predecessors-InNodes predecessors nodes (op ∷ ops) g g' among sub w h =
    let on : mem op nodes ≡ true = sub op (ground arith) in
    let (before, e, rest) = >>=-eq-some (predecessors op) _ h in
    compute_predecessors-InNodes predecessors nodes ops (assign (insert g op).0 op before) g' among
      (λ a m. sub a (ground (arith, m)))
      (assign-InNodes nodes (insert g op).0 op before on (among op before on e)
        (insert-InNodes nodes g op on w))
      rest

pub compute_predecessors-ne-none :
    (predecessors : ℕ → Option (List ℕ)) (ops : List ℕ) (g : OpGraph)
    → ((op : ℕ) → mem op ops ≡ true → predecessors op ≢ none)
    → compute_predecessors predecessors ops g ≢ none
unfolding compute_predecessors
compute_predecessors-ne-none predecessors [] g given = cc
compute_predecessors-ne-none predecessors (op ∷ ops) g given =
    elim (Option-cases (predecessors op)) [
      | inl bad ↦ absurd (given op (ground arith) bad)
      | inr (before, e) ↦
          rw (e, compute_predecessors)
            (compute_predecessors-ne-none predecessors ops (assign (insert g op).0 op before)
              (λ a m. given a (ground (arith, m))))
    ]
