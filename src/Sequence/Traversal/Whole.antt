-- ===== src/Sequence/Traversal/Whole.antt =====
-- The loop over the whole iterator of `DFSPostorderTraversal`.
use structured_additive_ir.Common.{
  ℕ, zero, suc, ◌≡◌, refl, sym, ap, ◌∙◌, subst, false, ◌||◌, inl, inr, Option-cases, List-cases,
  List, [], ◌∷◌, ◌++◌, arith, mem, Subset,
}
use structured_additive_ir.Sequence.Graph.{OpGraph, lookup}
use structured_additive_ir.Sequence.Traversal.{
  DfsState, first_unvisited, Visit, visit, hit_cycle, stuck, visit_dfs_postorder, Traversal,
  complete, cyclic, unfinished, iterate, traverse,
}
use structured_additive_ir.Sequence.Traversal.Order.{
  Visited, AtCycle, Returns, Ready, first_unvisited-none, first_unvisited-some, Bottom-mem,
  visit_dfs_postorder-Returns,
}

-- Each node stands behind its children, and once; `seen` is what came before, the last first.
abbrev pub Postorder : OpGraph → List ℕ → List ℕ → Type 0
Postorder g seen [] = Unit
Postorder g seen (x ∷ xs) =
    Subset (lookup g x) seen × (mem x seen ≡ false) × Postorder g (x ∷ seen) xs

abbrev pub reverse_onto : List ℕ → List ℕ → List ℕ
reverse_onto [] seen = seen
reverse_onto (x ∷ xs) seen = reverse_onto xs (x ∷ seen)

pub mem-reverse_onto :
    (a : ℕ) (xs seen : List ℕ) → mem a (reverse_onto xs seen) ≡ (mem a xs || mem a seen)
mem-reverse_onto a [] seen = refl
mem-reverse_onto a (x ∷ xs) seen = ground (arith, mem-reverse_onto a xs (x ∷ seen))

Postorder-snoc :
    (g : OpGraph) (seen xs : List ℕ) (x : ℕ)
    → Postorder g seen xs
    → Visited g (x ∷ reverse_onto xs seen)
    → Postorder g seen (xs ++ x ∷ [])
Postorder-snoc g seen [] x p v = (v.0, v.1, tt)
Postorder-snoc g seen (y ∷ xs) x p v = (p.0, p.1, Postorder-snoc g (y ∷ seen) xs x p.2 v)

reverse_onto-snoc :
    (xs seen : List ℕ) (x : ℕ) → reverse_onto (xs ++ x ∷ []) seen ≡ x ∷ reverse_onto xs seen
reverse_onto-snoc [] seen x = refl
reverse_onto-snoc (y ∷ xs) seen x = reverse_onto-snoc xs (y ∷ seen) x

-- What the whole traversal gives.
unfoldable pub Outcome : OpGraph → Traversal → Type 0
Outcome g (complete ops) = Postorder g [] ops × Subset g.keys ops
Outcome g (cyclic ops s) = Postorder g [] ops × AtCycle g s
Outcome g unfinished = Unit

abbrev IterateOutcome : ℕ → ℕ → OpGraph → Type 0
IterateOutcome fuel rounds g =
    (root : ℕ) (visited stack ops : List ℕ)
    → Ready g root visited stack
    → Postorder g [] ops
    → reverse_onto ops [] ≡ visited
    → Outcome g (iterate fuel rounds g root (record { visited = visited; stack = stack }) ops)

-- One more node, by the rest of the iteration.
iterate-visit :
    (fuel rounds : ℕ) (g : OpGraph) (root current : ℕ) (visited stack ops : List ℕ) (s : DfsState)
    → IterateOutcome fuel rounds g
    → Ready g root visited stack
    → Postorder g [] ops
    → reverse_onto ops [] ≡ visited
    → visit_dfs_postorder fuel root g (record { visited = visited; stack = stack })
      ≡ visit current s
    → Returns g root visited (visit current s)
    → Outcome g (iterate fuel (suc rounds) g root (record { visited = visited; stack = stack }) ops)
unfolding iterate Outcome Returns
iterate-visit fuel rounds g root current visited stack ops s ih r p e h (inv, grown, at) =
    let listed : reverse_onto (ops ++ current ∷ []) [] ≡ s.visited =
      reverse_onto-snoc ops [] current ∙ ap (λ v. current ∷ v) e ∙ sym grown in
    let p' =
      Postorder-snoc g [] ops current p
        (subst (Visited g) (sym (ap (λ v. current ∷ v) e ∙ sym grown)) inv.order) in
    elim at [
      | inr (other, bottom) ↦
          rw (h, iterate)
            (rw other (
              ih root s.visited s.stack (ops ++ current ∷ [])
                (record {
                  inv = inv;
                  fresh = inv.apart root (Bottom-mem root s.stack bottom);
                  rooted = inr bottom;
                })
                p' listed))
      | inl (same, empty) ↦ elim (Option-cases (first_unvisited s.visited g.keys)) [
        | inl none_left ↦
            rw (h, iterate)
              (rw same (
                rw (none_left, iterate)
                  (
                    p',
                    λ a m.
                        let seen = first_unvisited-none s.visited g.keys none_left a m in
                        ground
                          (arith, mem-reverse_onto a (ops ++ current ∷ []) [], ap (mem a) listed),
                  )))
        | inr (op, next) ↦
            let (_, fresh) = first_unvisited-some s.visited g.keys op next in
            rw (h, iterate)
              (rw same (
                rw (next, iterate)
                  (ih op s.visited s.stack (ops ++ current ∷ [])
                    (record { inv = inv; fresh = fresh; rooted = inl empty }) p' listed)))
      ]
    ]

iterate-Outcome : (fuel rounds : ℕ) (g : OpGraph) → IterateOutcome fuel rounds g
unfolding iterate Outcome Returns
iterate-Outcome fuel zero g root visited stack ops r p e = tt
iterate-Outcome fuel (suc rounds) g root visited stack ops r p e =
    after (visit_dfs_postorder fuel root g (record { visited = visited; stack = stack })) refl
      (visit_dfs_postorder-Returns fuel g root visited stack r) (iterate-Outcome fuel rounds g)
  where
    after :
        (v : Visit)
        → visit_dfs_postorder fuel root g (record { visited = visited; stack = stack }) ≡ v
        → Returns g root visited v
        → IterateOutcome fuel rounds g
        → Outcome g
            (iterate fuel (suc rounds) g root (record { visited = visited; stack = stack }) ops)
    after stuck h ret ih = rw (h, iterate) tt
    after (hit_cycle s) h ret ih = rw (h, iterate) (p, ret)
    after (visit current s) h ret ih =
        iterate-visit fuel rounds g root current visited stack ops s ih r p e h ret

-- The traversal that completes lists every key of the graph, each node once and behind all of its
-- children. One that stops at a cycle has listed nodes in such an order, and the top of its stack
-- has a child on the stack.
pub traverse-Outcome : (fuel rounds : ℕ) (g : OpGraph) → Outcome g (traverse fuel rounds g)
unfolding traverse Outcome
traverse-Outcome fuel rounds g = elim (List-cases g.keys) [
  | inl empty ↦ simp (empty, traverse) (tt, λ a m. m)
  | inr (root, rest, e) ↦
      simp (e, traverse)
        (iterate-Outcome fuel rounds g root [] [] []
          (record {
            inv = record { order = tt; chain = tt; distinct = tt; apart = λ a m. refl };
            fresh = refl;
            rooted = inl refl;
          })
          tt refl)
]
