-- ===== src/Sequence/Graph/Nodes.antt =====
-- Where the keys and the edges of a graph lie.
use structured_additive_ir.Common.{
  ℕ, ◌≡◌, sym, ap, ◌∙◌, subst, true, false, ◌⊎◌, inl, inr, Bool-cases, List, [], ◌∷◌, ◌==◌, ==_iff,
  ◌||◌, if◌then◌else◌, arith, mem, mem-append, Option-cases, Subset,
}
use structured_additive_ir.Sequence.Graph.{
  OpGraph, insert, assign, lookup, set_vector_insert, add_edge, without, remove_edge,
  remove_self_edges, remove_self_dependencies,
}
use structured_additive_ir.Sequence.Graph.Edges.{lookup-insert, lookup-assign}
use structured_additive_ir.Sequence.Program.Frontier.{mem-set_vector_insert}

-- The keys are nodes, and so are both ends of each edge.
pub record InNodes (nodes : List ℕ) (g : OpGraph) : Type 0 where
  pub keys : Subset g.keys nodes
  pub edges : (x y : ℕ) → mem y (lookup g x) ≡ true → (mem x nodes ≡ true) × (mem y nodes ≡ true)

insert-keys_cases :
    (g : OpGraph) (k key : ℕ)
    → mem k (insert g key).0.keys ≡ true
    → (mem k g.keys ≡ true) ⊎ (k ≡ key)
unfolding insert
insert-keys_cases g k key m = elim (Option-cases (g.adjacency key)) [
  | inr (found, e) ↦ inl (simp (e, insert) at m)
  | inl e ↦
      (let m' : mem k g.keys || mem k (key ∷ []) ≡ true =
          sym (mem-append k g.keys (key ∷ [])) ∙ simp (e, insert) at m in
        elim (Bool-cases (k == key)) [
          | inl same ↦ inr ((==_iff k key).0 same)
          | inr other ↦ inl (ground (arith, m', other))
        ])
]

pub insert-InNodes :
    (nodes : List ℕ) (g : OpGraph) (key : ℕ)
    → mem key nodes ≡ true
    → InNodes nodes g
    → InNodes nodes (insert g key).0
insert-InNodes nodes g key on w = record {
  keys = λ a m. elim (insert-keys_cases g a key m) [
    | inl old ↦ w.keys a old
    | inr e ↦ subst (λ x. mem x nodes ≡ true) (sym e) on
  ];
  edges = λ x y m. w.edges x y (ap (mem y) (sym (lookup-insert g x key)) ∙ m);
}

pub assign-InNodes :
    (nodes : List ℕ) (g : OpGraph) (key : ℕ) (ops : List ℕ)
    → mem key nodes ≡ true
    → Subset ops nodes
    → InNodes nodes g
    → InNodes nodes (assign g key ops)
unfolding assign
assign-InNodes nodes g key ops on sub w = record {
  keys = (insert-InNodes nodes g key on w).keys;
  edges = λ x y m.
      let m' : mem y (if x == key then ops else lookup g x) ≡ true =
        ap (mem y) (sym (lookup-assign g x key ops)) ∙ m in
      elim (Bool-cases (x == key)) [
        | inl e ↦
            (subst (λ z. mem z nodes ≡ true) (sym ((==_iff x key).0 e)) on, sub y (rw e at m'))
        | inr ne ↦ w.edges x y (rw ne at m')
      ];
}

pub add_edge-InNodes :
    (nodes : List ℕ) (g : OpGraph) (key op : ℕ)
    → mem key nodes ≡ true
    → mem op nodes ≡ true
    → InNodes nodes g
    → InNodes nodes (add_edge g key op)
unfolding add_edge
add_edge-InNodes nodes g key op on there w =
    assign-InNodes nodes g key (set_vector_insert op (lookup g key)).0 on
      (λ a m. elim (Bool-cases (a == op)) [
        | inl e ↦ subst (λ z. mem z nodes ≡ true) (sym ((==_iff a op).0 e)) there
        | inr ne ↦
            (w.edges key a (ground (arith, mem-set_vector_insert a op (lookup g key), m, ne))).1
      ])
      w

pub mem-without_iff :
    (a b : ℕ) (xs : List ℕ) → mem a (without b xs) ≡ true → (mem a xs ≡ true) × ((a == b) ≡ false)
unfolding without
mem-without_iff a b [] m = cc
mem-without_iff a b (x ∷ xs) m = elim (Bool-cases (b == x)) [
  | inl e ↦
      (let (old, ne) = mem-without_iff a b xs (rw (e, without) at m) in (ground (arith, old), ne))
  | inr other ↦ elim (Bool-cases (a == x)) [
    | inl same ↦ (ground (arith, same), ground (arith, same, other))
    | inr ne ↦
        (let (old, ne') = mem-without_iff a b xs (rw ne at (rw (other, without) at m)) in
          (ground (arith, old), ne'))
  ]
]

pub remove_edge-InNodes :
    (nodes : List ℕ) (g : OpGraph) (key op : ℕ)
    → mem key nodes ≡ true
    → InNodes nodes g
    → InNodes nodes (remove_edge g key op)
unfolding remove_edge
remove_edge-InNodes nodes g key op on w =
    assign-InNodes nodes g key (without op (lookup g key)) on
      (λ a m. (w.edges key a (mem-without_iff a op (lookup g key) m).0).1) w

remove_self_edges-InNodes :
    (nodes ops : List ℕ) (g : OpGraph)
    → Subset ops nodes
    → InNodes nodes g
    → InNodes nodes (remove_self_edges ops g)
unfolding remove_self_edges
remove_self_edges-InNodes nodes [] g sub w = w
remove_self_edges-InNodes nodes (op ∷ ops) g sub w =
    remove_self_edges-InNodes nodes ops (remove_edge g op op) (λ a m. sub a (ground (arith, m)))
      (remove_edge-InNodes nodes g op op (sub op (ground arith)) w)

pub remove_self_dependencies-InNodes :
    (nodes : List ℕ) (g : OpGraph) → InNodes nodes g → InNodes nodes (remove_self_dependencies g)
unfolding remove_self_dependencies
remove_self_dependencies-InNodes nodes g w = remove_self_edges-InNodes nodes g.keys g w.keys w
