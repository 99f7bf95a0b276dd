-- ===== src/Sequence/Default/Origin.antt =====
-- What a default sequence is computed from: the graph of predecessors.
use structured_additive_ir.Common.{
  ℕ, ◌≡◌, refl, sym, ap, ◌∙◌, subst, true, ◌⊎◌, inl, inr, Bool-cases, Option, none, some, List, [],
  ◌∷◌, ◌==◌, ==_iff, arith, mem, Option-cases, >>=-eq-some,
}
use structured_additive_ir.Sequence.Graph.{
  OpGraph, empty_graph, insert, assign, lookup, remove_self_dependencies,
}
use structured_additive_ir.Sequence.Graph.Edges.{
  lookup-insert, lookup-assign, Keyed, insert-keys, insert-mem, insert-Keyed, assign-Keyed,
}
use structured_additive_ir.Sequence.Program.{Program}
use structured_additive_ir.Sequence.Traversal.{
  Traversal, DfsState, complete, cyclic, unfinished, traverse, find_cycle_on_stack,
}
use structured_additive_ir.Sequence.Default.{
  Cuts, cut, invalid_cycle, unfinished_cuts, find_edges_to_cut, initial_sequence, predecessors_of,
  compute_predecessors, sequenced, unfinished_sequence, Fuel, traverse_predecessors,
  compute_default_sequence,
}

-- The nodes that have their predecessors: each one has those that `predecessors` gives it.
pub compute_predecessors-lookup :
    (predecessors : ℕ → Option (List ℕ)) (b : ℕ) (before : List ℕ) (ops : List ℕ) (g g' : OpGraph)
    → predecessors b ≡ some before
    → (mem b ops ≡ true) ⊎ (lookup g b ≡ before)
    → compute_predecessors predecessors ops g ≡ some g'
    → lookup g' b ≡ before
unfolding compute_predecessors
compute_predecessors-lookup predecessors b before [] g g' e (inl at_b) r = cc
compute_predecessors-lookup predecessors b before [] g g' e (inr at_b) r =
    let same : g ≡ g' = cc in subst (λ x. lookup x b ≡ before) same at_b
compute_predecessors-lookup predecessors b before (op ∷ ops) g g' e at_b r =
    let (found, eq, r') = >>=-eq-some (predecessors op) _ r in
    compute_predecessors-lookup predecessors b before ops (assign (insert g op).0 op found) g' e
      (placed found eq at_b) r'
  where
    placed :
        (found : List ℕ)
        → predecessors op ≡ some found
        → (mem b (op ∷ ops) ≡ true) ⊎ (lookup g b ≡ before)
        → (mem b ops ≡ true) ⊎ (lookup (assign (insert g op).0 op found) b ≡ before)
    placed found eq at_b = elim (Bool-cases (b == op)) [
      | inl here ↦
          (let same : b ≡ op = (==_iff b op).0 here in
            let value : found ≡ before = cc in
            inr (lookup-assign (insert g op).0 b op found ∙ rw here value))
      | inr ne ↦ elim at_b [
        | inl m ↦ inl (ground (arith, m, ne))
        | inr known ↦
            inr (lookup-assign (insert g op).0 b op found ∙ rw ne (lookup-insert g b op ∙ known))
      ]
    ]

pub compute_predecessors-keys :
    (predecessors : ℕ → Option (List ℕ)) (b : ℕ) (ops : List ℕ) (g g' : OpGraph)
    → Keyed g
    → (mem b ops ≡ true) ⊎ (mem b g.keys ≡ true)
    → compute_predecessors predecessors ops g ≡ some g'
    → mem b g'.keys ≡ true
unfolding compute_predecessors assign
compute_predecessors-keys predecessors b [] g g' keyed (inl at_b) r = cc
compute_predecessors-keys predecessors b [] g g' keyed (inr at_b) r =
    let same : g ≡ g' = cc in subst (λ x. mem b x.keys ≡ true) same at_b
compute_predecessors-keys predecessors b (op ∷ ops) g g' keyed at_b r =
    let (found, eq, r') = >>=-eq-some (predecessors op) _ r in
    compute_predecessors-keys predecessors b ops (assign (insert g op).0 op found) g'
      (assign-Keyed (insert g op).0 op found (insert-Keyed g op keyed)) (placed found at_b) r'
  where
    placed :
        (found : List ℕ)
        → (mem b (op ∷ ops) ≡ true) ⊎ (mem b g.keys ≡ true)
        → (mem b ops ≡ true) ⊎ (mem b (assign (insert g op).0 op found).keys ≡ true)
    placed found (inr known) = inr (insert-keys (insert g op).0 b op (insert-keys g b op known))
    placed found (inl m) = elim (Bool-cases (b == op)) [
      | inl here ↦ inr (
          subst (λ x. mem x (insert (insert g op).0 op).0.keys ≡ true) (sym ((==_iff b op).0 here))
            (insert-mem (insert g op).0 op (insert-Keyed g op keyed)))
      | inr ne ↦ inl (ground (arith, m, ne))
    ]

-- A graph of predecessors is only given where every operation has its predecessors.
pub compute_predecessors-some :
    (predecessors : ℕ → Option (List ℕ)) (b : ℕ) (ops : List ℕ) (g g' : OpGraph)
    → mem b ops ≡ true
    → compute_predecessors predecessors ops g ≡ some g'
    → (before : List ℕ) × (predecessors b ≡ some before)
unfolding compute_predecessors
compute_predecessors-some predecessors b [] g g' m r = cc
compute_predecessors-some predecessors b (op ∷ ops) g g' m r =
    let (found, eq, r') = >>=-eq-some (predecessors op) _ r in
    elim (Bool-cases (b == op)) [
      | inl here ↦ (found, ap predecessors ((==_iff b op).0 here) ∙ eq)
      | inr ne ↦
          compute_predecessors-some predecessors b ops (assign (insert g op).0 op found) g'
            (ground (arith, m, ne)) r'
    ]

Cuts-cases :
    (c : Cuts)
    → ((ops : List ℕ) × (c ≡ cut ops))
      ⊎ ((ops : List ℕ) × (c ≡ invalid_cycle ops))
      ⊎ (c ≡ unfinished_cuts)
Cuts-cases (cut ops) = inl (ops, refl)
Cuts-cases (invalid_cycle ops) = inr (inl (ops, refl))
Cuts-cases unfinished_cuts = inr (inr refl)

Traversal-cases :
    (t : Traversal)
    → ((ops : List ℕ) × (t ≡ complete ops))
      ⊎ ((ops : List ℕ) × (s : DfsState) × (t ≡ cyclic ops s))
      ⊎ (t ≡ unfinished)
Traversal-cases (complete ops) = inl (ops, refl)
Traversal-cases (cyclic ops s) = inr (inl (ops, s, refl))
Traversal-cases unfinished = inr (inr refl)

traverse_predecessors-sequenced :
    (fuel : Fuel) (g : OpGraph) (ops : List ℕ)
    → traverse_predecessors fuel g ≡ sequenced ops
    → traverse fuel.visit fuel.rounds (remove_self_dependencies g) ≡ complete ops
unfolding traverse_predecessors
traverse_predecessors-sequenced fuel g ops h =
    elim (Traversal-cases (traverse fuel.visit fuel.rounds (remove_self_dependencies g))) [
      | inl (done, e) ↦ (let done_ops = simp (e, traverse_predecessors) at h in cc)
      | inr (inl (done, s, e)) ↦
          elim (Option-cases (find_cycle_on_stack (remove_self_dependencies g) s)) [
            | inl none_found ↦ cc (simp (e, none_found, traverse_predecessors) at h)
            | inr (cycle, found) ↦ cc (simp (e, found, traverse_predecessors) at h)
          ]
      | inr (inr e) ↦ cc (simp (e, traverse_predecessors) at h)
    ]

-- What a default sequence comes from: the operations whose edge is cut, and the graph of
-- predecessors.
pub record Origin (fuel : Fuel) (p : Program) (ops : List ℕ) : Type 0 where
  pub cuts : List ℕ
  pub graph : OpGraph
  pub cuts_found : find_edges_to_cut fuel.visit fuel.rounds fuel.edges p ≡ cut cuts
  pub predecessors_found :
      compute_predecessors
        (predecessors_of fuel.depth p cuts (initial_sequence p p.compute_ops []))
        p.compute_ops
        empty_graph
      ≡ some graph
  pub completed : traverse fuel.visit fuel.rounds (remove_self_dependencies graph) ≡ complete ops

pub compute_default_sequence-Origin :
    (fuel : Fuel) (p : Program) (ops : List ℕ)
    → compute_default_sequence fuel p ≡ sequenced ops
    → Origin fuel p ops
unfolding compute_default_sequence
compute_default_sequence-Origin fuel p ops h =
    elim (Cuts-cases (find_edges_to_cut fuel.visit fuel.rounds fuel.edges p)) [
      | inl (cuts, e) ↦ with_cuts cuts e (simp (e, compute_default_sequence) at h)
      | inr (inl (cycle, e)) ↦ cc (simp (e, compute_default_sequence) at h)
      | inr (inr e) ↦ cc (simp (e, compute_default_sequence) at h)
    ]
  where
    with_cuts :
        (cuts : List ℕ)
        → find_edges_to_cut fuel.visit fuel.rounds fuel.edges p ≡ cut cuts
        → elim (compute_predecessors
            (predecessors_of fuel.depth p cuts (initial_sequence p p.compute_ops []))
            p.compute_ops
            empty_graph) [
              | none ↦ unfinished_sequence
              | some predecessors ↦ traverse_predecessors fuel predecessors
            ]
          ≡ sequenced ops
        → Origin fuel p ops
    with_cuts cuts e h =
        elim (Option-cases (
          compute_predecessors
            (predecessors_of fuel.depth p cuts (initial_sequence p p.compute_ops [])) p.compute_ops
            empty_graph)) [
              | inl failed ↦ cc (rw failed at h)
              | inr (graph, found) ↦ record {
                cuts = cuts;
                graph = graph;
                cuts_found = e;
                predecessors_found = found;
                completed = traverse_predecessors-sequenced fuel graph ops (rw found at h);
              }
            ]
