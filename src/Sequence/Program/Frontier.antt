-- ===== src/Sequence/Program/Frontier.antt =====
-- `ComputeOpFrontier` against the dependencies of operations as a relation.
use structured_additive_ir.Common.{
  ℕ, zero, suc, ◌<◌, ◌≡◌, ◌≢◌, ◌↔◌, refl, sym, ap, ◌∙◌, subst, true, false, ◌||◌, ◌⊎◌, inl, inr,
  Bool-cases, Option, none, some, Option-cases, List, [], ◌∷◌, ◌==◌, ==_iff, if◌then◌else◌, arith,
  mem, mem-append, >>=-eq-some, map_option, map_option-eq-some,
}
use structured_additive_ir.Sequence.Graph.{set_vector_insert}
use structured_additive_ir.Sequence.Program.{
  Program, frontier_sources, insert_all, add_and_recurse, compute_op_frontier,
}

-- `a` is the value of a source.
abbrev pub IsSource : ℕ → List (Option ℕ) → Type 0
IsSource a [] = ⊥
IsSource a (none ∷ vs) = IsSource a vs
IsSource a (some b ∷ vs) = (a ≡ b) ⊎ IsSource a vs

-- `op` depends on the compute operation `a` through operations that are not.
pub data Depends (p : Program) (ignore : List ℕ) : ℕ → ℕ → Type 0 where
  direct :
      {op a : ℕ}
      → IsSource a (frontier_sources p ignore op)
      → p.is_compute a ≡ true
      → Depends p ignore op a
  through :
      {op b a : ℕ}
      → IsSource b (frontier_sources p ignore op)
      → p.is_compute b ≡ false
      → Depends p ignore b a
      → Depends p ignore op a

pub mem-set_vector_insert :
    (a op : ℕ) (ops : List ℕ) → mem a (set_vector_insert op ops).0 ≡ ((a == op) || mem a ops)
unfolding set_vector_insert
mem-set_vector_insert a op ops = ground (arith, mem-append a ops (op ∷ []), mem_same a op ops)
  where
    mem_same : (a op : ℕ) (ops : List ℕ) → (a == op) ≡ true → mem op ops ≡ true → mem a ops ≡ true
    mem_same a op ops e m = rw ((==_iff a op).0 e) m

pub mem-insert_all :
    (a : ℕ) (ops frontier : List ℕ)
    → mem a (insert_all ops frontier) ≡ (mem a ops || mem a frontier)
mem-insert_all a [] frontier = refl
mem-insert_all a (op ∷ ops) frontier = ground (
  arith,
  mem-insert_all a ops (set_vector_insert op frontier).0,
  mem-set_vector_insert a op frontier,
)

-- What is added for the sources `vs`, given what the recursive call finds.
abbrev Added : Program → (ℕ → ℕ → Type 0) → ℕ → List (Option ℕ) → Type 0
Added p Found a vs =
    (b : ℕ) × IsSource b vs
    × (((p.is_compute b ≡ true) × (a ≡ b)) ⊎ ((p.is_compute b ≡ false) × Found b a))

Added-later :
    (p : Program) (Found : ℕ → ℕ → Type 0) (a : ℕ) (v : Option ℕ) (vs : List (Option ℕ))
    → Added p Found a vs
    → Added p Found a (v ∷ vs)
Added-later p Found a none vs (b, s, h) = (b, s, h)
Added-later p Found a (some c) vs (b, s, h) = (b, inr s, h)

module _ (p : Program) (recurse : ℕ → Option (List ℕ)) (Found : ℕ → ℕ → Type 0)
    (correct : (op : ℕ) (ops : List ℕ)
      → recurse op ≡ some ops
      → (a : ℕ) → (mem a ops ≡ true) ↔ Found op a) where
  step-mem :
      (d : ℕ) (frontier mid : List ℕ) (a : ℕ)
      → (if p.is_compute d
          then some (set_vector_insert d frontier).0
          else map_option (λ ops. insert_all ops frontier) (recurse d))
        ≡ some mid
      → (mem a mid ≡ true) ↔ (
          ((p.is_compute d ≡ true) × (a ≡ d))
          ⊎ ((p.is_compute d ≡ false) × Found d a)
          ⊎ (mem a frontier ≡ true))
  step-mem d frontier mid a h = elim (Bool-cases (p.is_compute d)) [
    | inl c ↦
        let e : (set_vector_insert d frontier).0 ≡ mid = cc (rw c at h) in
        ground (arith, ap (mem a) e, mem-set_vector_insert a d frontier)
    | inr c ↦
        let (ops, ok, e) = map_option-eq-some _ (recurse d) (rw c at h) in
        ground (arith, ap (mem a) e, mem-insert_all a ops frontier, correct d ops ok a)
  ]

  add_and_recurse-mem :
      (vs : List (Option ℕ)) (frontier result : List ℕ)
      → add_and_recurse p recurse vs frontier ≡ some result
      → (a : ℕ) → (mem a result ≡ true) ↔ (Added p Found a vs ⊎ (mem a frontier ≡ true))
  unfolding add_and_recurse
  add_and_recurse-mem [] frontier result h a =
      let e : frontier ≡ result = cc in
      (λ m. inr (rw e m), λ x. elim x [ inl (b, s, _) ↦ absurd s | inr m ↦ rw (← e) m ])
  add_and_recurse-mem (none ∷ vs) frontier result h a = add_and_recurse-mem vs frontier result h a
  add_and_recurse-mem (some d ∷ vs) frontier result h a =
      let (mid, ok, rest) = >>=-eq-some _ _ h in
      let step = step-mem d frontier mid a ok in
      let later = add_and_recurse-mem vs mid result rest a in
      (
        λ m. elim (later.0 m) [
          | inl found ↦ inl (Added-later p Found a (some d) vs found)
          | inr m' ↦ elim (step.0 m') [
            | inl here ↦ inl (d, inl refl, inl here)
            | inr (inl below) ↦ inl (d, inl refl, inr below)
            | inr (inr before) ↦ inr before
          ]
        ],
        λ x. elim x [
          | inl (b, inl e, inl (c, e')) ↦
              later.1 (inr (step.1 (inl (subst (λ y. p.is_compute y ≡ true) e c, e' ∙ e))))
          | inl (b, inl e, inr (c, f)) ↦ later.1 (
              inr (
                step.1 (
                  inr (inl (subst (λ y. p.is_compute y ≡ false) e c, subst (λ y. Found y a) e f)))))
          | inl (b, inr s, h') ↦ later.1 (inl (b, s, h'))
          | inr before ↦ later.1 (inr (step.1 (inr (inr before))))
        ],
      )

Added-Depends :
    (p : Program) (ignore : List ℕ) (op a : ℕ)
    → Added p (Depends p ignore) a (frontier_sources p ignore op) ↔ Depends p ignore op a
Added-Depends p ignore op a = (to, from)
  where
    to : Added p (Depends p ignore) a (frontier_sources p ignore op) → Depends p ignore op a
    to (b, s, inl (c, e)) = subst (Depends p ignore op) (sym e) (direct s c)
    to (b, s, inr (c, d)) = through s c d

    from : Depends p ignore op a → Added p (Depends p ignore) a (frontier_sources p ignore op)
    from (direct {a} s c) = (a, s, inl (c, refl))
    from (through {b} s c d) = (b, s, inr (c, d))

-- When it ends, the frontier holds exactly the compute operations that `op` depends on through
-- operations that are not.
pub mem-compute_op_frontier :
    (fuel : ℕ) (p : Program) (ignore : List ℕ) (op : ℕ) (frontier : List ℕ) (a : ℕ)
    → compute_op_frontier fuel p ignore op ≡ some frontier
    → (mem a frontier ≡ true) ↔ Depends p ignore op a
unfolding compute_op_frontier
mem-compute_op_frontier zero p ignore op frontier a h = cc
mem-compute_op_frontier (suc fuel) p ignore op frontier a h =
    let both =
      add_and_recurse-mem p (compute_op_frontier fuel p ignore) (Depends p ignore)
        (λ op' ops e a'. mem-compute_op_frontier fuel p ignore op' ops a' e)
        (frontier_sources p ignore op) [] frontier h a in
    let dep = Added-Depends p ignore op a in
    (λ m. elim (both.0 m) [ inl x ↦ dep.0 x | inr no_mem ↦ cc ], λ d. both.1 (inl (dep.1 d)))

add_and_recurse-ne-none :
    (p : Program) (recurse : ℕ → Option (List ℕ)) (vs : List (Option ℕ)) (frontier : List ℕ)
    → ((b : ℕ) → IsSource b vs → p.is_compute b ≡ false → recurse b ≢ none)
    → add_and_recurse p recurse vs frontier ≢ none
unfolding add_and_recurse
add_and_recurse-ne-none p recurse [] frontier h = cc
add_and_recurse-ne-none p recurse (none ∷ vs) frontier h =
    add_and_recurse-ne-none p recurse vs frontier h
add_and_recurse-ne-none p recurse (some d ∷ vs) frontier h = elim (Bool-cases (p.is_compute d)) [
  | inl c ↦ rw c (add_and_recurse-ne-none p recurse vs _ (λ b s. h b (inr s)))
  | inr c ↦ elim (Option-cases (recurse d)) [
    | inl e ↦ absurd (h d (inl refl) c e)
    | inr (ops, e) ↦ rw (c, e) (add_and_recurse-ne-none p recurse vs _ (λ b s. h b (inr s)))
  ]
]

-- Where a rank falls along the dependencies on operations that are not compute operations, fuel
-- above the rank of `op` is enough.
pub compute_op_frontier-ne-none :
    (rank : ℕ → ℕ) (p : Program) (ignore : List ℕ) (fuel op : ℕ)
    → ((x b : ℕ)
        → IsSource b (frontier_sources p ignore x)
        → p.is_compute b ≡ false
        → rank b < rank x)
    → rank op < fuel
    → compute_op_frontier fuel p ignore op ≢ none
unfolding compute_op_frontier
compute_op_frontier-ne-none rank p ignore zero op falls f = absurd (omega arith)
compute_op_frontier-ne-none rank p ignore (suc fuel) op falls f =
    add_and_recurse-ne-none p (compute_op_frontier fuel p ignore) (frontier_sources p ignore op) []
      (λ b s c.
        compute_op_frontier-ne-none rank p ignore fuel b falls (omega (arith, falls op b s c)))
