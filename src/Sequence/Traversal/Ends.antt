-- ===== src/Sequence/Traversal/Ends.antt =====
-- The fuel for the loops of `DFSPostorderTraversal`.
use structured_additive_ir.Common.{
  ℕ, zero, suc, ◌+◌, ◌≤◌, ◌<◌, ◌≡◌, ◌≢◌, refl, sym, ap, ◌∙◌, subst, true, false, inl, inr,
  Bool-cases, Option-cases, List, [], ◌∷◌, ◌++◌, ◌==◌, ==_iff, arith, length, length-append, mem,
  mem-append, Distinct, Subset, length-le_of_subset, List-cases,
}
use structured_additive_ir.Sequence.Graph.{OpGraph, lookup}
use structured_additive_ir.Sequence.Traversal.{
  push, first_unvisited, Visit, visit, hit_cycle, stuck, visit_loop, visit_dfs_postorder,
  unfinished, iterate, traverse,
}
use structured_additive_ir.Sequence.Traversal.Order.{
  Visited, Bottom, Inv, Returns, Ready, first_unvisited-some, pushed-Inv,
  visit_dfs_postorder-Returns, push-Bottom, Bottom-mem,
}

-- `nodes` holds the keys of the graph, and with a node its children.
pub record Within (nodes : List ℕ) (g : OpGraph) : Type 0 where
  pub keys : Subset g.keys nodes
  pub children : (x : ℕ) → mem x nodes ≡ true → Subset (lookup g x) nodes

-- The nodes visited and those on the stack are among `nodes`.
record Inside (nodes xs ys : List ℕ) : Type 0 where
  visited : Subset xs nodes
  stack : Subset ys nodes

Distinct-append :
    (xs ys : List ℕ)
    → Distinct xs
    → Distinct ys
    → ((a : ℕ) → mem a xs ≡ true → mem a ys ≡ false)
    → Distinct (xs ++ ys)
Distinct-append [] ys dx dy apart = dy
Distinct-append (x ∷ xs) ys dx dy apart = (
  mem-append x xs ys ∙ ground (arith, apart x),
  Distinct-append xs ys dx.1 dy (λ a m. apart a (ground arith)),
)

Visited-Distinct : (g : OpGraph) (visited : List ℕ) → Visited g visited → Distinct visited
Visited-Distinct g [] h = tt
Visited-Distinct g (x ∷ xs) h = (h.1, Visited-Distinct g xs h.2)

-- There is room for the stack and the visited nodes.
room :
    (g : OpGraph) (nodes visited stack : List ℕ)
    → Inv g visited stack
    → Inside nodes visited stack
    → length stack + length visited ≤ length nodes
room g nodes visited stack inv inside = omega (
  arith,
  length-append stack visited,
  length-le_of_subset (stack ++ visited) nodes
      (Distinct-append stack visited inv.distinct (Visited-Distinct g visited inv.order) inv.apart)
      (λ a m. ground (arith, mem-append a stack visited, inside.visited a, inside.stack a)),
)

Ends : List ℕ → Visit → Type 0
Ends nodes (visit current s) = Inside nodes s.visited s.stack
Ends nodes (hit_cycle s) = Unit
Ends nodes stuck = ⊥

visit_loop-Ends :
    (fuel : ℕ) (g : OpGraph) (nodes : List ℕ) (root : ℕ) (visited stack : List ℕ)
    → Within nodes g
    → Inv g visited stack
    → Bottom root stack
    → Inside nodes visited stack
    → length nodes < fuel + length stack + length visited
    → Ends nodes (visit_loop fuel g (record { visited = visited; stack = stack }))
unfolding visit_loop Ends
visit_loop-Ends zero g nodes root visited stack w inv bottom inside f =
    absurd (omega (arith, room g nodes visited stack inv inside))
visit_loop-Ends (suc fuel) g nodes root visited [] w inv bottom inside f = elim bottom [ ]
visit_loop-Ends (suc fuel) g nodes root visited (current ∷ rest) w inv bottom inside f =
    let on : mem current nodes ≡ true = inside.stack current (ground arith) in
    elim (Option-cases (first_unvisited visited (lookup g current))) [
      | inl done ↦
          rw (done, visit_loop)
            (rw (inv.apart current (ground arith)) (record {
              visited = λ a m. elim (Bool-cases (a == current)) [
                | inl e ↦ rw ((==_iff a current).0 e) on
                | inr ne ↦ inside.visited a (rw ne at m)
              ];
              stack = λ a m. inside.stack a (ground arith);
            }))
      | inr (child, e) ↦
          let (edge, fresh) = first_unvisited-some visited (lookup g current) child e in
          let kept : push current rest ≡ current ∷ rest = rw inv.distinct.0 in
          elim (Bool-cases (mem child (current ∷ rest))) [
            | inl again ↦ rw (e, visit_loop) (rw (kept, again) tt)
            | inr new ↦
                rw (e, visit_loop)
                  (rw (kept, new)
                    (visit_loop-Ends fuel g nodes root visited (child ∷ current ∷ rest) w
                      (pushed-Inv g current child visited rest inv edge fresh new) bottom
                      (record {
                        visited = inside.visited;
                        stack = λ a m. elim (Bool-cases (a == child)) [
                          | inl same ↦
                              rw ((==_iff a child).0 same) (w.children current on child edge)
                          | inr other ↦ inside.stack a (rw other at m)
                        ];
                      })
                      (omega arith)))
          ]
    ]

visit_dfs_postorder-Ends :
    (fuel : ℕ) (g : OpGraph) (nodes : List ℕ) (root : ℕ) (visited stack : List ℕ)
    → Within nodes g
    → Ready g root visited stack
    → Inside nodes visited stack
    → mem root nodes ≡ true
    → length nodes < fuel
    → Ends nodes (visit_dfs_postorder fuel root g (record { visited = visited; stack = stack }))
unfolding visit_dfs_postorder
visit_dfs_postorder-Ends fuel g nodes root visited stack w r inside on f =
    let (inv, bottom) = push-Bottom g root visited stack r in
    visit_loop-Ends fuel g nodes root visited (push root stack) w inv bottom
      (record {
        visited = inside.visited;
        stack = λ a m. elim (Bool-cases (mem root stack)) [
          | inl there ↦ inside.stack a (rw there at m)
          | inr new ↦ elim (Bool-cases (a == root)) [
            | inl e ↦ rw ((==_iff a root).0 e) on
            | inr ne ↦ inside.stack a (rw ne at (rw new at m))
          ]
        ];
      })
      (omega arith)

abbrev IterateEnds : ℕ → ℕ → List ℕ → OpGraph → Type 0
IterateEnds fuel rounds nodes g =
    (root : ℕ) (visited stack ops : List ℕ)
    → Ready g root visited stack
    → Inside nodes visited stack
    → mem root nodes ≡ true
    → length nodes < rounds + length visited
    → iterate fuel rounds g root (record { visited = visited; stack = stack }) ops ≢ unfinished

iterate-Ends :
    (fuel rounds : ℕ) (nodes : List ℕ) (g : OpGraph)
    → Within nodes g
    → length nodes < fuel
    → IterateEnds fuel rounds nodes g
unfolding iterate Returns Ends
iterate-Ends fuel zero nodes g w f root visited stack ops r inside on lt = absurd (
    omega (
      arith,
      length-le_of_subset visited nodes (Visited-Distinct g visited r.inv.order) inside.visited,
    ))
iterate-Ends fuel (suc rounds) nodes g w f root visited stack ops r inside on lt =
    after (visit_dfs_postorder fuel root g (record { visited = visited; stack = stack })) refl
      (visit_dfs_postorder-Returns fuel g root visited stack r)
      (visit_dfs_postorder-Ends fuel g nodes root visited stack w r inside on f)
      (iterate-Ends fuel rounds nodes g w f)
  where
    after :
        (v : Visit)
        → visit_dfs_postorder fuel root g (record { visited = visited; stack = stack }) ≡ v
        → Returns g root visited v
        → Ends nodes v
        → IterateEnds fuel rounds nodes g
        → iterate fuel (suc rounds) g root (record { visited = visited; stack = stack }) ops
          ≢ unfinished
    after stuck h ret ends ih = absurd ends
    after (hit_cycle s) h ret ends ih = rw (h, iterate) (cc)
    after (visit current s) h (inv, grown, at) ends ih =
        let size : length s.visited ≡ suc (length visited) = ap length grown in
        elim at [
          | inr (other, bottom) ↦
              rw (h, iterate)
                (rw other (
                  ih root s.visited s.stack (ops ++ current ∷ [])
                    (record {
                      inv = inv;
                      fresh = inv.apart root (Bottom-mem root s.stack bottom);
                      rooted = inr bottom;
                    })
                    ends on (omega arith)))
          | inl (same, empty) ↦ elim (Option-cases (first_unvisited s.visited g.keys)) [
            | inl none_left ↦ rw (h, iterate) (rw same (rw (none_left, iterate) (cc)))
            | inr (op, next) ↦
                let (key, fresh) = first_unvisited-some s.visited g.keys op next in
                rw (h, iterate)
                  (rw same (
                    rw (next, iterate)
                      (ih op s.visited s.stack (ops ++ current ∷ [])
                        (record { inv = inv; fresh = fresh; rooted = inl empty }) ends
                        (w.keys op key) (omega arith))))
          ]
        ]

-- With fuel and rounds above the number of nodes, the traversal completes or stops at a cycle.
pub traverse-ne-unfinished :
    (fuel rounds : ℕ) (nodes : List ℕ) (g : OpGraph)
    → Within nodes g
    → length nodes < fuel
    → length nodes < rounds
    → traverse fuel rounds g ≢ unfinished
unfolding traverse
traverse-ne-unfinished fuel rounds nodes g w f r = elim (List-cases g.keys) [
  | inl empty ↦ simp (empty, traverse) (cc)
  | inr (root, rest, e) ↦
      simp (e, traverse)
        (iterate-Ends fuel rounds nodes g w f root [] [] []
          (record {
            inv = record { order = tt; chain = tt; distinct = tt; apart = λ a m. refl };
            fresh = refl;
            rooted = inl refl;
          })
          (record { visited = λ a m. cc; stack = λ a m. cc })
          (w.keys root (subst (λ ks. mem root ks ≡ true) (sym e) (ground arith))) (omega arith))
]
