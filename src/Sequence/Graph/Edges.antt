-- ===== src/Sequence/Graph/Edges.antt =====
-- How the operations of a graph change its adjacency lists and keys.
use structured_additive_ir.Common.{
  ℕ, ◌≡◌, refl, sym, ap, ◌∙◌, subst, true, false, ◌⊎◌, inl, inr, Bool-cases, none, List, [], ◌∷◌,
  ◌==◌, ==_iff, if◌then◌else◌, arith, mem, mem-append, Option-cases,
}
use structured_additive_ir.Sequence.Graph.{
  OpGraph, insert, assign, lookup, without, remove_edge, remove_self_edges,
  remove_self_dependencies,
}

lookup-none : (g : OpGraph) (k : ℕ) → g.adjacency k ≡ none → lookup g k ≡ []
unfolding lookup
lookup-none g k e = rw (e, lookup) refl

pub lookup-insert : (g : OpGraph) (k key : ℕ) → lookup (insert g key).0 k ≡ lookup g k
unfolding lookup insert
lookup-insert g k key = elim (Option-cases (g.adjacency key)) [
  | inl e ↦
      simp (e, insert)
        (elim (Bool-cases (k == key)) [
          | inl same ↦
              rw (same, lookup) (sym (lookup-none g k (ap g.adjacency ((==_iff k key).0 same) ∙ e)))
          | inr other ↦ rw (other, lookup) refl
        ])
  | inr (found, e) ↦ simp (e, insert) refl
]

pub lookup-assign :
    (g : OpGraph) (k key : ℕ) (ops : List ℕ)
    → lookup (assign g key ops) k ≡ (if k == key then ops else lookup g k)
unfolding lookup assign
lookup-assign g k key ops = elim (Bool-cases (k == key)) [
  | inl e ↦ rw (e, lookup, assign) refl
  | inr ne ↦ rw (ne, lookup, assign) (lookup-insert g k key)
]

-- Every node with an adjacency list is a key.
abbrev pub Keyed : OpGraph → Type 0
Keyed g = (k : ℕ) → (g.adjacency k ≡ none) ⊎ (mem k g.keys ≡ true)

pub insert-keys :
    (g : OpGraph) (k key : ℕ) → mem k g.keys ≡ true → mem k (insert g key).0.keys ≡ true
unfolding insert
insert-keys g k key m = elim (Option-cases (g.adjacency key)) [
  | inl e ↦ simp (e, insert) (mem-append k g.keys (key ∷ []) ∙ ground (arith, m))
  | inr (found, e) ↦ simp (e, insert) m
]

pub insert-mem : (g : OpGraph) (key : ℕ) → Keyed g → mem key (insert g key).0.keys ≡ true
unfolding insert
insert-mem g key keyed = elim (Option-cases (g.adjacency key)) [
  | inl e ↦ simp (e, insert) (mem-append key g.keys (key ∷ []) ∙ ground arith)
  | inr (found, e) ↦ simp (e, insert) (elim (keyed key) [ inl absent ↦ cc | inr m ↦ m ])
]

pub insert-Keyed : (g : OpGraph) (key : ℕ) → Keyed g → Keyed (insert g key).0
unfolding insert
insert-Keyed g key keyed k = elim (Option-cases (g.adjacency key)) [
  | inl e ↦
      simp (e, insert)
        (elim (Bool-cases (k == key)) [
          | inl same ↦ inr (mem-append k g.keys (key ∷ []) ∙ ground (arith, same))
          | inr other ↦ elim (keyed k) [
            | inl absent ↦ inl (rw other absent)
            | inr m ↦ inr (mem-append k g.keys (key ∷ []) ∙ ground (arith, m))
          ]
        ])
  | inr (found, e) ↦ simp (e, insert) (keyed k)
]

pub assign-Keyed : (g : OpGraph) (key : ℕ) (ops : List ℕ) → Keyed g → Keyed (assign g key ops)
unfolding assign
assign-Keyed g key ops keyed k = elim (Bool-cases (k == key)) [
  | inl same ↦ inr (
      subst (λ x. mem x (insert g key).0.keys ≡ true) (sym ((==_iff k key).0 same))
        (insert-mem g key keyed))
  | inr other ↦ simp (other, assign) (insert-Keyed g key keyed k)
]

mem-without :
    (a b : ℕ) (xs : List ℕ) → (a == b) ≡ false → mem a xs ≡ true → mem a (without b xs) ≡ true
unfolding without
mem-without a b [] ne m = cc
mem-without a b (x ∷ xs) ne m = ground (arith, mem-without a b xs)

remove_self_edges-keys :
    (k : ℕ) (ops : List ℕ) (g : OpGraph)
    → mem k g.keys ≡ true
    → mem k (remove_self_edges ops g).keys ≡ true
unfolding remove_self_edges remove_edge assign
remove_self_edges-keys k [] g m = m
remove_self_edges-keys k (op ∷ ops) g m =
    remove_self_edges-keys k ops (remove_edge g op op) (insert-keys g k op m)

mem-remove_self_edges :
    (a b : ℕ) (ops : List ℕ) (g : OpGraph)
    → (a == b) ≡ false
    → mem a (lookup g b) ≡ true
    → mem a (lookup (remove_self_edges ops g) b) ≡ true
unfolding remove_self_edges remove_edge
mem-remove_self_edges a b [] g ne m = m
mem-remove_self_edges a b (op ∷ ops) g ne m =
    let changed = lookup-assign g b op (without op (lookup g op)) in
    mem-remove_self_edges a b ops (remove_edge g op op) ne (
      ap (mem a) changed ∙ elim (Bool-cases (b == op)) [
        | inl e ↦ rw e (
            subst (λ x. mem a (without x (lookup g x)) ≡ true) ((==_iff b op).0 e)
              (mem-without a b (lookup g b) ne m))
        | inr other ↦ rw other m
      ])

-- `RemoveSelfDependencies` keeps the keys, and the edges between two nodes.
pub remove_self_dependencies-keys :
    (g : OpGraph) (k : ℕ) → mem k g.keys ≡ true → mem k (remove_self_dependencies g).keys ≡ true
unfolding remove_self_dependencies
remove_self_dependencies-keys g k m = remove_self_edges-keys k g.keys g m

pub mem-remove_self_dependencies :
    (g : OpGraph) (a b : ℕ)
    → (a == b) ≡ false
    → mem a (lookup g b) ≡ true
    → mem a (lookup (remove_self_dependencies g) b) ≡ true
unfolding remove_self_dependencies
mem-remove_self_dependencies g a b ne m = mem-remove_self_edges a b g.keys g ne m
