-- ===== src/Sequence/Default/Ordered.antt =====
-- The order of the operations in `ComputeDefaultSequence` of sequence.cc.
use structured_additive_ir.Common.{
  ℕ, ℤ, ◌<ℤ◌, <ℤ-irrefl, ◌≡◌, refl, sym, ap, ◌∙◌, subst, true, false, ◌||◌, inl, inr, Bool-cases,
  some, List, [], ◌∷◌, ◌++◌, ◌==◌, ==_iff, arith, mem, Subset, Distinct, map_option-eq-some,
}
use structured_additive_ir.Sequence.Graph.{OpGraph, empty_graph, lookup, remove_self_dependencies}
use structured_additive_ir.Sequence.Graph.Edges.{
  Keyed, remove_self_dependencies-keys, mem-remove_self_dependencies,
}
use structured_additive_ir.Sequence.Program.{Program, insert_all, compute_op_frontier}
use structured_additive_ir.Sequence.Program.Frontier.{
  Depends, mem-insert_all, mem-compute_op_frontier,
}
use structured_additive_ir.Sequence.Traversal.Whole.{
  Postorder, Outcome, reverse_onto, mem-reverse_onto, traverse-Outcome,
}
use structured_additive_ir.Sequence.Default.{
  cut, find_edges_to_cut, initial_sequence, ops_before, predecessors_of, sequenced, Fuel,
  compute_default_sequence,
}
use structured_additive_ir.Sequence.Default.Entries.{mem-ops_before}
use structured_additive_ir.Sequence.Default.Origin.{
  Origin, compute_predecessors-lookup, compute_predecessors-keys, compute_predecessors-some,
  compute_default_sequence-Origin,
}

Postorder-suffix :
    (g : OpGraph) (a b : ℕ) (seen xs ys : List ℕ)
    → Postorder g seen (xs ++ b ∷ ys)
    → mem a (lookup g b) ≡ true
    → mem a (reverse_onto xs seen) ≡ true
Postorder-suffix g a b seen [] ys h m = h.0 a m
Postorder-suffix g a b seen (x ∷ xs) ys h m = Postorder-suffix g a b (x ∷ seen) xs ys h.2 m

-- In postorder a child stands before its parents.
Postorder-before :
    (g : OpGraph) (a b : ℕ) (ops : List ℕ)
    → Postorder g [] ops
    → mem a (lookup g b) ≡ true
    → (xs ys : List ℕ) → ops ≡ xs ++ b ∷ ys
    → mem a xs ≡ true
Postorder-before g a b ops h m xs ys e =
    let inside = Postorder-suffix g a b [] xs ys (subst (Postorder g []) e h) m in
    ground (arith, mem-reverse_onto a xs [])

Postorder-fresh :
    (g : OpGraph) (a : ℕ) (seen ops : List ℕ)
    → Postorder g seen ops
    → mem a seen ≡ true
    → mem a ops ≡ false
Postorder-fresh g a seen [] h m = refl
Postorder-fresh g a seen (x ∷ xs) h m =
    let later = Postorder-fresh g a (x ∷ seen) xs h.2 (ground (arith, m)) in
    elim (Bool-cases (a == x)) [
      | inl same ↦ cc (subst (λ y. mem y seen ≡ true) ((==_iff a x).0 same) m, h.1)
      | inr ne ↦ ground (arith, later, ne)
    ]

Postorder-Distinct : (g : OpGraph) (seen ops : List ℕ) → Postorder g seen ops → Distinct ops
Postorder-Distinct g seen [] h = tt
Postorder-Distinct g seen (x ∷ xs) h =
    (Postorder-fresh g x (x ∷ seen) xs h.2 (ground arith), Postorder-Distinct g (x ∷ seen) xs h.2)

empty-Keyed : Keyed empty_graph
empty-Keyed k = inl refl

Origin-Outcome :
    (fuel : Fuel) (p : Program) (ops : List ℕ) (o : Origin fuel p ops)
    → Postorder (remove_self_dependencies o.graph) [] ops
      × Subset (remove_self_dependencies o.graph).keys ops
unfolding Outcome
Origin-Outcome fuel p ops o =
    subst (Outcome (remove_self_dependencies o.graph)) o.completed
      (traverse-Outcome fuel.visit fuel.rounds (remove_self_dependencies o.graph))

-- Where `ComputeDefaultSequence` succeeds, the sequence holds each compute operation, and nothing
-- twice.
pub compute_default_sequence_complete :
    (fuel : Fuel) (p : Program) (ops : List ℕ)
    → compute_default_sequence fuel p ≡ sequenced ops
    → Subset p.compute_ops ops × Distinct ops
compute_default_sequence_complete fuel p ops h =
    let o = compute_default_sequence-Origin fuel p ops h in
    let (order, all) = Origin-Outcome fuel p ops o in
    (
      λ a m. all a (
          remove_self_dependencies-keys o.graph a (
            compute_predecessors-keys
              (predecessors_of fuel.depth p o.cuts (initial_sequence p p.compute_ops [])) a
              p.compute_ops empty_graph o.graph empty-Keyed (inl m) o.predecessors_found)),
      Postorder-Distinct (remove_self_dependencies o.graph) [] ops order,
    )

-- What `a` has to be to stand before `b`: in the frontier, or one of the operations before `b`.
predecessors_of-before :
    (fuel : Fuel) (p : Program) (ops : List ℕ) (o : Origin fuel p ops) (a b : ℕ)
    → mem b p.compute_ops ≡ true
    → (a == b) ≡ false
    → ((frontier : List ℕ)
        → compute_op_frontier fuel.depth p o.cuts b ≡ some frontier
        → (mem a (ops_before p (initial_sequence p p.compute_ops []) b) || mem a frontier) ≡ true)
    → (xs ys : List ℕ) → ops ≡ xs ++ b ∷ ys
    → mem a xs ≡ true
unfolding predecessors_of
predecessors_of-before fuel p ops o a b listed ne m xs ys split =
    let initial = initial_sequence p p.compute_ops [] in
    let predecessors = predecessors_of fuel.depth p o.cuts initial in
    let (before, e) =
      compute_predecessors-some predecessors b p.compute_ops empty_graph o.graph listed
        o.predecessors_found in
    let (frontier, reached, value) =
      map_option-eq-some (insert_all (ops_before p initial b))
        (compute_op_frontier fuel.depth p o.cuts b) e in
    let found : lookup o.graph b ≡ before =
      compute_predecessors-lookup predecessors b before p.compute_ops empty_graph o.graph e
        (inl listed) o.predecessors_found in
    let inside : mem a before ≡ true =
      ap (mem a) (sym value)
      ∙ mem-insert_all a (ops_before p initial b) frontier
      ∙ m frontier reached in
    Postorder-before (remove_self_dependencies o.graph) a b ops (Origin-Outcome fuel p ops o).0
      (mem-remove_self_dependencies o.graph a b ne (ap (mem a) found ∙ inside)) xs ys split

-- Where `ComputeDefaultSequence` succeeds, a compute operation stands before each other one that
-- depends on it through operations that are not; for the `fby` operations that are cut only the
-- initial value counts.
pub compute_default_sequence-Depends :
    (fuel : Fuel) (p : Program) (ops cuts : List ℕ) (a b : ℕ)
    → compute_default_sequence fuel p ≡ sequenced ops
    → find_edges_to_cut fuel.visit fuel.rounds fuel.edges p ≡ cut cuts
    → mem b p.compute_ops ≡ true
    → Depends p cuts b a
    → (a == b) ≡ false
    → (xs ys : List ℕ) → ops ≡ xs ++ b ∷ ys
    → mem a xs ≡ true
compute_default_sequence-Depends fuel p ops cuts a b h found listed depends ne xs ys split =
    let o = compute_default_sequence-Origin fuel p ops h in
    let same : cuts ≡ o.cuts = cc (found, o.cuts_found) in
    predecessors_of-before fuel p ops o a b listed ne
      (λ frontier reached.
        let inside =
          (mem-compute_op_frontier fuel.depth p o.cuts b frontier a reached).1
            (subst (λ c. Depends p c b a) same depends) in
        ground (arith, inside))
      xs ys split

-- Where `ComputeDefaultSequence` succeeds, a compute operation stands before each one with a
-- greater sequence number; the numbers are signed.
pub compute_default_sequence-sequence :
    (fuel : Fuel) (p : Program) (ops : List ℕ) (a b : ℕ) (m n : ℤ)
    → compute_default_sequence fuel p ≡ sequenced ops
    → mem a p.compute_ops ≡ true
    → mem b p.compute_ops ≡ true
    → p.sequence a ≡ some m
    → p.sequence b ≡ some n
    → m <ℤ n
    → (xs ys : List ℕ) → ops ≡ xs ++ b ∷ ys
    → mem a xs ≡ true
compute_default_sequence-sequence fuel p ops a b m n h la lb sa sb less xs ys split =
    predecessors_of-before fuel p ops (compute_default_sequence-Origin fuel p ops h) a b lb differs
      (λ frontier reached. ground (arith, mem-ops_before p a b m n la sa sb less)) xs ys split
  where
    differs : (a == b) ≡ false
    differs = elim (Bool-cases (a == b)) [
      | inl e ↦
          (let same : a ≡ b = (==_iff a b).0 e in
            let equal : m ≡ n = cc in absurd (<ℤ-irrefl m n less equal))
      | inr ne ↦ ne
    ]
