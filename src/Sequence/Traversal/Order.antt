-- ===== src/Sequence/Traversal/Order.antt =====
-- What one visit of the traversal keeps.
use structured_additive_ir.Common.{
  ℕ, zero, suc, ◌≡◌, refl, sym, subst, true, false, ◌⊎◌, inl, inr, Bool-cases, none, some,
  Option-cases, List, [], ◌∷◌, ◌==◌, ==_iff, arith, mem, Distinct, Subset,
}
use structured_additive_ir.Sequence.Graph.{OpGraph, lookup}
use structured_additive_ir.Sequence.Traversal.{
  DfsState, push, first_unvisited, Visit, visit, hit_cycle, stuck, visit_loop, visit_dfs_postorder,
}

-- Of the nodes visited, the last one first, each stands before its children and only once.
abbrev pub Visited : OpGraph → List ℕ → Type 0
Visited g [] = Unit
Visited g (x ∷ xs) = Subset (lookup g x) xs × (mem x xs ≡ false) × Visited g xs

-- Each node on the stack is a child of the one below it.
abbrev pub Chain : OpGraph → List ℕ → Type 0
Chain g [] = Unit
Chain g (x ∷ []) = Unit
Chain g (x ∷ y ∷ xs) = (mem x (lookup g y) ≡ true) × Chain g (y ∷ xs)

-- The root lies at the bottom.
abbrev pub Bottom : ℕ → List ℕ → Type 0
Bottom root [] = ⊥
Bottom root (x ∷ []) = x ≡ root
Bottom root (x ∷ y ∷ xs) = Bottom root (y ∷ xs)

pub record Inv (g : OpGraph) (visited stack : List ℕ) : Type 0 where
  pub order : Visited g visited
  pub chain : Chain g stack
  pub distinct : Distinct stack
  pub apart : (a : ℕ) → mem a stack ≡ true → mem a visited ≡ false

-- A child of the node on top is on the stack.
unfoldable pub AtCycle : OpGraph → DfsState → Type 0
AtCycle g s =
    (current : ℕ) × (rest : List ℕ) × (child : ℕ) × (s.stack ≡ current ∷ rest)
    × Chain g (current ∷ rest)
    × (mem child (lookup g current) ≡ true)
    × (mem child (current ∷ rest) ≡ true)

-- What a visit returns for a root and the nodes visited so far.
unfoldable pub Returns : OpGraph → ℕ → List ℕ → Visit → Type 0
Returns g root visited (visit current s) =
    Inv g s.visited s.stack
    × (s.visited ≡ current ∷ visited)
    × (((current == root) ≡ true) × (s.stack ≡ [])
        ⊎ ((current == root) ≡ false) × Bottom root s.stack)
Returns g root visited (hit_cycle s) = AtCycle g s
Returns g root visited stuck = Unit

pub first_unvisited-none :
    (visited children : List ℕ) → first_unvisited visited children ≡ none → Subset children visited
unfolding first_unvisited
first_unvisited-none visited [] h a m = cc
first_unvisited-none visited (c ∷ cs) h a m = elim (Bool-cases (mem c visited)) [
  | inl seen ↦
      let rest = first_unvisited-none visited cs (rw seen at h) a in
      elim (Bool-cases (a == c)) [
        | inl same ↦ rw ((==_iff a c).0 same) seen
        | inr other ↦ rest (rw other at m)
      ]
  | inr fresh ↦ cc (rw fresh at h)
]

pub first_unvisited-some :
    (visited children : List ℕ) (child : ℕ)
    → first_unvisited visited children ≡ some child
    → (mem child children ≡ true) × (mem child visited ≡ false)
unfolding first_unvisited
first_unvisited-some visited [] child h = cc
first_unvisited-some visited (c ∷ cs) child h =
    ground (arith, first_unvisited-some visited cs child, ==_iff child c)

pub Bottom-mem : (root : ℕ) (stack : List ℕ) → Bottom root stack → mem root stack ≡ true
Bottom-mem root [] h = elim h [ ]
Bottom-mem root (x ∷ []) h = ground arith
Bottom-mem root (x ∷ y ∷ xs) h = ground (arith, Bottom-mem root (y ∷ xs) h)

mem-head : (x : ℕ) (xs : List ℕ) → mem x (x ∷ xs) ≡ true
mem-head x xs = ground arith

-- What is left of the stack when the node on top has been visited.
popped :
    (g : OpGraph) (root current : ℕ) (visited rest : List ℕ)
    → Inv g visited (current ∷ rest)
    → Bottom root (current ∷ rest)
    → Subset (lookup g current) visited
    → Returns g root visited
        (visit current (record { visited = push current visited; stack = rest }))
unfolding Returns
popped g root current visited rest inv bottom children =
    let fresh = inv.apart current (mem-head current rest) in
    let grown : push current visited ≡ current ∷ visited = rw fresh in
    (
      subst (λ v. Inv g v rest) (sym grown)
          (record {
            order = (children, fresh, inv.order);
            chain = below rest inv.chain;
            distinct = inv.distinct.1;
            apart = λ a m. ground (arith, inv.apart a, above a m);
          }),
      grown,
      where_next rest bottom inv.distinct,
    )
  where
    below : (rest : List ℕ) → Chain g (current ∷ rest) → Chain g rest
    below [] h = tt
    below (x ∷ xs) h = h.1

    above : (a : ℕ) → mem a rest ≡ true → (a == current) ≡ false
    above a m = elim (Bool-cases (a == current)) [
      | inl e ↦ cc (rw ((==_iff a current).0 e) at m, inv.distinct.0)
      | inr ne ↦ ne
    ]

    where_next :
        (rest : List ℕ)
        → Bottom root (current ∷ rest)
        → Distinct (current ∷ rest)
        → ((current == root) ≡ true) × (rest ≡ []) ⊎ ((current == root) ≡ false) × Bottom root rest
    where_next [] b d = inl ((==_iff current root).1 b, refl)
    where_next (x ∷ xs) b d = elim (Bool-cases (current == root)) [
      | inl e ↦
          let m =
            subst (λ r. mem r (x ∷ xs) ≡ true) (sym ((==_iff current root).0 e))
              (Bottom-mem root (x ∷ xs) b) in
          absurd (cc (m, d.0))
      | inr ne ↦ inr (ne, b)
    ]

pub pushed-Inv :
    (g : OpGraph) (current child : ℕ) (visited rest : List ℕ)
    → Inv g visited (current ∷ rest)
    → mem child (lookup g current) ≡ true
    → mem child visited ≡ false
    → mem child (current ∷ rest) ≡ false
    → Inv g visited (child ∷ current ∷ rest)
pushed-Inv g current child visited rest inv edge fresh new = record {
  order = inv.order;
  chain = (edge, inv.chain);
  distinct = (new, inv.distinct);
  apart = λ a m. elim (Bool-cases (a == child)) [
    | inl e ↦ rw ((==_iff a child).0 e) fresh
    | inr ne ↦ inv.apart a (rw ne at m)
  ];
}

visit_loop-Returns :
    (fuel : ℕ) (g : OpGraph) (root : ℕ) (visited stack : List ℕ)
    → Inv g visited stack
    → Bottom root stack
    → Returns g root visited (visit_loop fuel g (record { visited = visited; stack = stack }))
unfolding visit_loop Returns AtCycle
visit_loop-Returns zero g root visited stack inv bottom = tt
visit_loop-Returns (suc fuel) g root visited [] inv bottom = elim bottom [ ]
visit_loop-Returns (suc fuel) g root visited (current ∷ rest) inv bottom =
    elim (Option-cases (first_unvisited visited (lookup g current))) [
      | inl done ↦
          rw (done, visit_loop)
            (popped g root current visited rest inv bottom
              (first_unvisited-none visited (lookup g current) done))
      | inr (child, e) ↦
          let (edge, fresh) = first_unvisited-some visited (lookup g current) child e in
          let kept : push current rest ≡ current ∷ rest = rw inv.distinct.0 in
          elim (Bool-cases (mem child (current ∷ rest))) [
            | inl again ↦
                rw (e, visit_loop)
                  (rw (kept, again) (current, rest, child, refl, inv.chain, edge, again))
            | inr new ↦
                rw (e, visit_loop)
                  (rw (kept, new)
                    (visit_loop-Returns fuel g root visited (child ∷ current ∷ rest)
                      (pushed-Inv g current child visited rest inv edge fresh new) bottom))
          ]
    ]

-- The next visit from `root` may start: the stack is empty, or `root` is at its bottom.
pub record Ready (g : OpGraph) (root : ℕ) (visited stack : List ℕ) : Type 0 where
  pub inv : Inv g visited stack
  pub fresh : mem root visited ≡ false
  pub rooted : (stack ≡ []) ⊎ Bottom root stack

pub push-Bottom :
    (g : OpGraph) (root : ℕ) (visited stack : List ℕ)
    → Ready g root visited stack
    → Inv g visited (push root stack) × Bottom root (push root stack)
push-Bottom g root visited stack r = elim r.rooted [
  | inl e ↦ rw e (
    record {
      order = r.inv.order;
      chain = tt;
      distinct = (refl, tt);
      apart = λ a m. elim (Bool-cases (a == root)) [
        | inl same ↦ rw ((==_iff a root).0 same) r.fresh
        | inr other ↦ cc (rw other at m)
      ];
    },
    refl,
  )
  | inr b ↦ rw (Bottom-mem root stack b) (r.inv, b)
]

-- A visit keeps the invariant and appends one node to those visited.
pub visit_dfs_postorder-Returns :
    (fuel : ℕ) (g : OpGraph) (root : ℕ) (visited stack : List ℕ)
    → Ready g root visited stack
    → Returns g root visited
        (visit_dfs_postorder fuel root g (record { visited = visited; stack = stack }))
unfolding visit_dfs_postorder
visit_dfs_postorder-Returns fuel g root visited stack r =
    let (inv, bottom) = push-Bottom g root visited stack r in
    visit_loop-Returns fuel g root visited (push root stack) inv bottom
