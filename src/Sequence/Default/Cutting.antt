-- ===== src/Sequence/Default/Cutting.antt =====
-- The `Value` edges of `fby` operations that `FindEdgesToCut` cuts.
use structured_additive_ir.Common.{
  ℕ, suc, ◌≤◌, ◌<◌, ◌≡◌, refl, sym, ap, ◌∙◌, subst, Bool, true, false, inl, inr, Bool-cases, Option,
  none, some, List, [], ◌∷◌, ◌++◌, ◌==◌, ==_iff, arith, mem, length, if◌then◌else◌,
}
use structured_additive_ir.Sequence.Graph.{OpGraph, lookup, without, remove_edge}
use structured_additive_ir.Sequence.Graph.Edges.{lookup-assign}
use structured_additive_ir.Sequence.Graph.Nodes.{mem-without_iff}
use structured_additive_ir.Sequence.Program.{Program}
use structured_additive_ir.Sequence.Traversal.Order.{Chain}
use structured_additive_ir.Sequence.Traversal.Cycle.{IsCycle, last_or}
use structured_additive_ir.Sequence.Default.{edge_to_cut, reverse, close}

-- Each node has an edge to the next one.
abbrev pub Steps : OpGraph → List ℕ → Type 0
Steps g [] = Unit
Steps g (x ∷ []) = Unit
Steps g (x ∷ y ∷ xs) = (mem y (lookup g x) ≡ true) × Steps g (y ∷ xs)

reverse-Steps :
    (g : OpGraph) (x : ℕ) (xs acc : List ℕ)
    → Chain g (x ∷ xs)
    → Steps g (x ∷ acc)
    → Steps g (reverse (x ∷ xs) acc)
reverse-Steps g x [] acc c s = s
reverse-Steps g x (y ∷ xs) acc c s = reverse-Steps g y xs (x ∷ acc) c.1 (c.0, s)

-- The list starts with the last one of the list that it is the reverse of.
reverse-head :
    (x : ℕ) (xs acc : List ℕ) → (rest : List ℕ) × (reverse (x ∷ xs) acc ≡ last_or x xs ∷ rest)
reverse-head x [] acc = (acc, refl)
reverse-head x (y ∷ xs) acc = reverse-head y xs (x ∷ acc)

Steps-append :
    (g : OpGraph) (x y : ℕ) (xs : List ℕ)
    → Steps g (x ∷ xs)
    → mem y (lookup g (last_or x xs)) ≡ true
    → Steps g ((x ∷ xs) ++ y ∷ [])
Steps-append g x y [] s m = (m, tt)
Steps-append g x y (z ∷ xs) s m = (s.0, Steps-append g z y xs s.1 m)

last_or-reverse : (d x : ℕ) (xs acc : List ℕ) → last_or d (reverse xs (x ∷ acc)) ≡ last_or x acc
last_or-reverse d x [] acc = refl
last_or-reverse d x (y ∷ xs) acc = last_or-reverse d y xs (x ∷ acc)

pub close-Steps :
    (g : OpGraph) (cycle : List ℕ) → IsCycle g cycle → Steps g (close (reverse cycle []))
close-Steps g [] c = elim c [ ]
close-Steps g (x ∷ xs) c =
    let (rest, e) = reverse-head x xs [] in
    let steps = subst (Steps g) e (reverse-Steps g x xs [] c.0 tt) in
    let last : last_or (last_or x xs) rest ≡ x =
      ap (last_or 0) (sym e) ∙ last_or-reverse 0 x xs [] in
    subst (λ l. Steps g (close l)) (sym e)
      (Steps-append g (last_or x xs) (last_or x xs) rest steps
        (subst (λ y. mem (last_or x xs) (lookup g y) ≡ true) (sym last) c.1))

-- `op` is an `fby` whose `Value` operand is `next`, and its edge is in the graph.
pub record IsValueEdge (p : Program) (g : OpGraph) (op next : ℕ) : Type 0 where
  pub init : Option ℕ
  pub value : p.fby op ≡ some (init, some next)
  pub edge : mem next (lookup g op) ≡ true

pub edge_to_cut-IsValueEdge :
    (p : Program) (g : OpGraph) (cycle : List ℕ) (op next : ℕ)
    → Steps g cycle
    → edge_to_cut p cycle ≡ some (op, next)
    → IsValueEdge p g op next
unfolding edge_to_cut
edge_to_cut-IsValueEdge p g [] op next s h = cc
edge_to_cut-IsValueEdge p g (x ∷ []) op next s h = cc
edge_to_cut-IsValueEdge p g (x ∷ y ∷ cycle) op next s h =
    at_fby (p.fby x) refl h (edge_to_cut-IsValueEdge p g (y ∷ cycle) op next s.1)
  where
    at_fby :
        (f : Option (Option ℕ × Option ℕ))
        → p.fby x ≡ f
        → (elim f [
          | none ↦ edge_to_cut p (y ∷ cycle)
          | some (_, none) ↦ edge_to_cut p (y ∷ cycle)
          | some (_, some defining_op) ↦
              if defining_op == y then some (x, y) else edge_to_cut p (y ∷ cycle)
        ])
          ≡ some (op, next)
        → (edge_to_cut p (y ∷ cycle) ≡ some (op, next) → IsValueEdge p g op next)
        → IsValueEdge p g op next
    at_fby none e h rest = rest h
    at_fby (some (init, none)) e h rest = rest h
    at_fby (some (init, some d)) e h rest = elim (Bool-cases (d == y)) [
      | inr ne ↦ rest (rw ne at h)
      | inl same ↦
          (let found : some (x, y) ≡ some (op, next) = rw same at h in
            let at_op : x ≡ op = cc in
            let at_next : y ≡ next = cc in
            subst (λ o. IsValueEdge p g o next) at_op
              (subst (IsValueEdge p g x) at_next (record {
                init = init;
                value = e ∙ ap (λ z. some (init, some z)) ((==_iff d y).0 same);
                edge = s.0;
              })))
    ]

-- The `Value` edge of an operation is in the graph.
abbrev in_graph : Option (Option ℕ × Option ℕ) → List ℕ → Bool
in_graph none ops = false
in_graph (some (init, none)) ops = false
in_graph (some (init, some d)) ops = mem d ops

-- How many of the nodes have their `Value` edge in the graph.
pub value_edges : Program → OpGraph → List ℕ → ℕ
value_edges p g [] = 0
value_edges p g (x ∷ xs) =
    let rest = value_edges p g xs in if in_graph (p.fby x) (lookup g x) then suc rest else rest

pub value_edges-le : (p : Program) (g : OpGraph) (xs : List ℕ) → value_edges p g xs ≤ length xs
unfolding value_edges
value_edges-le p g [] = omega arith
value_edges-le p g (x ∷ xs) = elim (Bool-cases (in_graph (p.fby x) (lookup g x))) [
  | inl e ↦ rw (e, value_edges) (omega (arith, value_edges-le p g xs))
  | inr ne ↦ rw (ne, value_edges) (omega (arith, value_edges-le p g xs))
]

in_graph-without :
    (f : Option (Option ℕ × Option ℕ)) (next : ℕ) (ops : List ℕ)
    → in_graph f (without next ops) ≡ true
    → in_graph f ops ≡ true
in_graph-without none next ops h = h
in_graph-without (some (init, none)) next ops h = h
in_graph-without (some (init, some d)) next ops h = (mem-without_iff d next ops h).0

in_graph-remove_edge :
    (p : Program) (g : OpGraph) (op next x : ℕ)
    → in_graph (p.fby x) (lookup (remove_edge g op next) x) ≡ true
    → in_graph (p.fby x) (lookup g x) ≡ true
unfolding remove_edge
in_graph-remove_edge p g op next x h =
    let h' =
      ap (in_graph (p.fby x)) (sym (lookup-assign g x op (without next (lookup g op)))) ∙ h in
    elim (Bool-cases (x == op)) [
      | inr ne ↦ rw ne at h'
      | inl e ↦
          subst (λ o. in_graph (p.fby x) (lookup g o) ≡ true) (sym ((==_iff x op).0 e))
            (in_graph-without (p.fby x) next (lookup g op) (rw e at h'))
    ]

value_edges-remove_edge_le :
    (p : Program) (g : OpGraph) (op next : ℕ) (xs : List ℕ)
    → value_edges p (remove_edge g op next) xs ≤ value_edges p g xs
unfolding value_edges
value_edges-remove_edge_le p g op next [] = omega arith
value_edges-remove_edge_le p g op next (x ∷ xs) =
    let rest = value_edges-remove_edge_le p g op next xs in
    elim (Bool-cases (in_graph (p.fby x) (lookup (remove_edge g op next) x))) [
      | inl e ↦
          rw (e, value_edges)
            (rw (in_graph-remove_edge p g op next x e, value_edges) (omega (arith, rest)))
      | inr ne ↦
          rw (ne, value_edges)
            (elim (Bool-cases (in_graph (p.fby x) (lookup g x))) [
              | inl e ↦ rw (e, value_edges) (omega (arith, rest))
              | inr ne' ↦ rw (ne', value_edges) rest
            ])
    ]

-- After the cut the edge is not in the graph.
removed :
    (p : Program) (g : OpGraph) (op next : ℕ)
    → IsValueEdge p g op next
    → in_graph (p.fby op) (lookup (remove_edge g op next) op) ≡ false
unfolding remove_edge
removed p g op next h =
    let here : (op == op) ≡ true = ground arith in
    let at_op : lookup (remove_edge g op next) op ≡ without next (lookup g op) =
      lookup-assign g op op (without next (lookup g op)) ∙ rw here refl in
    ap (λ f. in_graph f (lookup (remove_edge g op next) op)) h.value
    ∙ ap (mem next) at_op
    ∙ elim (Bool-cases (mem next (without next (lookup g op)))) [
      | inr ne ↦ ne
      | inl m ↦
          (let (old, ne) = mem-without_iff next next (lookup g op) m in absurd (ground (arith, ne)))
    ]

-- Each cut leaves fewer of these edges.
pub value_edges-remove_edge :
    (p : Program) (g : OpGraph) (op next : ℕ) (xs : List ℕ)
    → IsValueEdge p g op next
    → mem op xs ≡ true
    → value_edges p (remove_edge g op next) xs < value_edges p g xs
unfolding value_edges
value_edges-remove_edge p g op next [] h m = cc
value_edges-remove_edge p g op next (x ∷ xs) h m = elim (Bool-cases (op == x)) [
  | inl e ↦
      (let same : op ≡ x = (==_iff op x).0 e in
        let gone : in_graph (p.fby x) (lookup (remove_edge g op next) x) ≡ false =
          subst (λ o. in_graph (p.fby o) (lookup (remove_edge g op next) o) ≡ false) same
            (removed p g op next h) in
        let present : in_graph (p.fby x) (lookup g x) ≡ true =
          subst (λ o. in_graph (p.fby o) (lookup g o) ≡ true) same
            (ap (λ f. in_graph f (lookup g op)) h.value ∙ h.edge) in
        rw (gone, value_edges)
          (rw (present, value_edges) (omega (arith, value_edges-remove_edge_le p g op next xs))))
  | inr ne ↦
      (let rest = value_edges-remove_edge p g op next xs h (rw ne at m) in
        elim (Bool-cases (in_graph (p.fby x) (lookup (remove_edge g op next) x))) [
          | inl e ↦
              rw (e, value_edges)
                (rw (in_graph-remove_edge p g op next x e, value_edges) (omega (arith, rest)))
          | inr ne ↦
              rw (ne, value_edges)
                (elim (Bool-cases (in_graph (p.fby x) (lookup g x))) [
                  | inl e ↦ rw (e, value_edges) (omega (arith, rest))
                  | inr ne' ↦ rw (ne', value_edges) rest
                ])
        ])
]
