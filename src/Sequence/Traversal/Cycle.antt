-- ===== src/Sequence/Traversal/Cycle.antt =====
-- `FindCycleOnStack` of sequence.cc.
use structured_additive_ir.Common.{
  ℕ, ◌≡◌, sym, subst, true, inl, inr, Bool-cases, some, List, [], ◌∷◌, ◌==◌, ==_iff, arith, mem,
  Subset,
}
use structured_additive_ir.Sequence.Graph.{OpGraph, lookup}
use structured_additive_ir.Sequence.Traversal.{
  DfsState, cyclic, traverse, down_to, find_on_stack, find_cycle_on_stack,
}
use structured_additive_ir.Sequence.Traversal.Order.{AtCycle, Chain}
use structured_additive_ir.Sequence.Traversal.Whole.{traverse-Outcome, Outcome}

abbrev pub last_or : ℕ → List ℕ → ℕ
last_or d [] = d
last_or d (x ∷ xs) = last_or x xs

-- Each node is a child of the next one, and the last one is a child of the first.
abbrev pub IsCycle : OpGraph → List ℕ → Type 0
IsCycle g [] = ⊥
IsCycle g (x ∷ xs) = Chain g (x ∷ xs) × (mem (last_or x xs) (lookup g x) ≡ true)

Chain-down_to : (g : OpGraph) (a : ℕ) (xs : List ℕ) → Chain g xs → Chain g (down_to a xs)
Chain-down_to g a [] h = tt
Chain-down_to g a (x ∷ []) h = elim (Bool-cases (a == x)) [ inl e ↦ rw e tt | inr ne ↦ rw ne tt ]
Chain-down_to g a (x ∷ y ∷ xs) h =
    let rest = Chain-down_to g a (y ∷ xs) h.1 in
    elim (Bool-cases (a == x)) [
      | inl e ↦ rw e tt
      | inr ne ↦ rw ne (elim (Bool-cases (a == y)) [
        | inl e ↦ rw e (h.0, tt)
        | inr ne' ↦ rw ne' (h.0, rw ne' at rest)
      ])
    ]

last_or-down_to : (d a : ℕ) (xs : List ℕ) → mem a xs ≡ true → last_or d (down_to a xs) ≡ a
last_or-down_to d a [] h = cc
last_or-down_to d a (x ∷ xs) h = elim (Bool-cases (a == x)) [
  | inl e ↦ rw e (sym ((==_iff a x).0 e))
  | inr ne ↦ rw ne (last_or-down_to x a xs (rw ne at h))
]

IsCycle-down_to :
    (g : OpGraph) (child x : ℕ) (xs : List ℕ)
    → Chain g (x ∷ xs)
    → mem child (x ∷ xs) ≡ true
    → mem child (lookup g x) ≡ true
    → IsCycle g (down_to child (x ∷ xs))
IsCycle-down_to g child x xs chain on edge =
    let cut = Chain-down_to g child (x ∷ xs) chain in
    elim (Bool-cases (child == x)) [
      | inl e ↦ rw e (tt, subst (λ c. mem c (lookup g x) ≡ true) ((==_iff child x).0 e) edge)
      | inr ne ↦ rw ne (rw ne at cut, rw (last_or-down_to x child xs (rw ne at on)) edge)
    ]

find_on_stack-IsCycle :
    (g : OpGraph) (x : ℕ) (xs children : List ℕ)
    → Chain g (x ∷ xs)
    → Subset children (lookup g x)
    → (child : ℕ) → mem child children ≡ true
    → mem child (x ∷ xs) ≡ true
    → (cycle : List ℕ) × (find_on_stack (x ∷ xs) children ≡ some cycle) × IsCycle g cycle
unfolding find_on_stack
find_on_stack-IsCycle g x xs [] chain sub child m on = cc
find_on_stack-IsCycle g x xs (c ∷ cs) chain sub child m on = elim (Bool-cases (mem c (x ∷ xs))) [
  | inl here ↦
      (down_to c (x ∷ xs), rw here, IsCycle-down_to g c x xs chain here (sub c (ground arith)))
  | inr not_here ↦
      let later : mem child cs ≡ true = elim (Bool-cases (child == c)) [
        | inl e ↦
            absurd (cc (subst (λ y. mem y (x ∷ xs) ≡ true) ((==_iff child c).0 e) on, not_here))
        | inr ne ↦ rw ne at m
      ] in
      let (cycle, e, is) =
        find_on_stack-IsCycle g x xs cs chain (λ a ma. sub a (ground arith)) child later on in
      (cycle, rw not_here e, is)
]

AtCycle-find :
    (g : OpGraph) (s : DfsState)
    → AtCycle g s
    → (cycle : List ℕ) × (find_cycle_on_stack g s ≡ some cycle) × IsCycle g cycle
unfolding AtCycle find_cycle_on_stack
AtCycle-find g s (current, rest, child, e, chain, edge, on) =
    let (cycle, found, is) =
      find_on_stack-IsCycle g current rest (lookup g current) chain (λ a m. m) child edge on in
    (cycle, rw (e, find_cycle_on_stack) (rw e found), is)

-- Where the traversal stops at a cycle, `FindCycleOnStack` reaches no `llvm_unreachable`, and the
-- range it returns is a cycle of the graph.
pub find_cycle_on_stack-traverse :
    (fuel rounds : ℕ) (g : OpGraph) (ops : List ℕ) (s : DfsState)
    → traverse fuel rounds g ≡ cyclic ops s
    → (cycle : List ℕ) × (find_cycle_on_stack g s ≡ some cycle) × IsCycle g cycle
unfolding Outcome
find_cycle_on_stack-traverse fuel rounds g ops s h =
    AtCycle-find g s (subst (Outcome g) h (traverse-Outcome fuel rounds g)).1
