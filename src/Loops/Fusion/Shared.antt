-- ===== src/Loops/Fusion/Shared.antt =====
-- What the operations in one fused loop have in common.
use structured_additive_ir.Common.{
  ℕ, ◌<◌, ◌≡◌, refl, sym, ap, ◌∙◌, subst, Bool, some, List, [], ◌∷◌, ◌++◌, All, length, get_or,
}
use structured_additive_ir.Loops.Fusion.{
  ComputeOp, LoopFusionClass, no_loop, extract_unroll_factor, Registered, registered, rejected,
  undefined_behaviour, outer_names, register_loop, register_all,
}
use structured_additive_ir.Loops.Fusion.Classes.{IsRegistered, registered-classes}
use structured_additive_ir.Loops.Fusion.Registration.{register_loop-IsRegistered}

-- The position is one of a loop of the operation.
abbrev pub InRange : ComputeOp × ℕ → Type 0
InRange (op, pos) = pos < length op.loops

module _ (is_placeholder_op : ℕ → Bool) (is_before : ℕ → ℕ → Bool) where
  register_all-step :
      (op : ComputeOp) (pos : ℕ) (rest : List (ComputeOp × ℕ)) (cs cs' : List LoopFusionClass)
      → register_all is_placeholder_op is_before ((op, pos) ∷ rest) cs ≡ registered cs'
      → (mid : List LoopFusionClass) × (register_loop is_placeholder_op is_before op pos cs
          ≡ registered mid)
        × (register_all is_placeholder_op is_before rest mid ≡ registered cs')
  unfolding register_all
  register_all-step op pos rest cs cs' h =
      go (register_loop is_placeholder_op is_before op pos cs) refl h
    where
      go :
          (r : Registered)
          → register_loop is_placeholder_op is_before op pos cs ≡ r
          → (elim r [
            | registered mid ↦ register_all is_placeholder_op is_before rest mid
            | rejected ↦ rejected
            | undefined_behaviour ↦ undefined_behaviour
          ])
            ≡ registered cs'
          → (mid : List LoopFusionClass) × (register_loop is_placeholder_op is_before op pos cs
              ≡ registered mid)
            × (register_all is_placeholder_op is_before rest mid ≡ registered cs')
      go (registered mid) e later = (mid, e, later)
      go rejected e later = cc
      go undefined_behaviour e later = cc

  register_all-stays :
      (regs : List (ComputeOp × ℕ)) (cs cs' : List LoopFusionClass) (name : ℕ) (outer : List ℕ)
      (unroll : ℕ)
      → All InRange regs
      → register_all is_placeholder_op is_before regs cs ≡ registered cs'
      → IsRegistered name outer unroll cs
      → IsRegistered name outer unroll cs'
  unfolding register_all
  register_all-stays [] cs cs' name outer unroll r h before =
      subst (IsRegistered name outer unroll) (registered-classes cs cs' h) before
  register_all-stays ((op, pos) ∷ regs) cs cs' name outer unroll r h before =
      let (mid, e, rest) = register_all-step op pos regs cs cs' h in
      register_all-stays regs mid cs' name outer unroll r.1 rest (
        (register_loop-IsRegistered is_placeholder_op is_before op pos cs mid r.0 e).1 name outer
          unroll before)

  pub register_all-IsRegistered :
      (before : List (ComputeOp × ℕ)) (op : ComputeOp) (pos : ℕ) (after : List (ComputeOp × ℕ))
      (cs cs' : List LoopFusionClass)
      → All InRange (before ++ (op, pos) ∷ after)
      → register_all is_placeholder_op is_before (before ++ (op, pos) ∷ after) cs ≡ registered cs'
      → IsRegistered
          (get_or op.loops pos no_loop).name
          (outer_names op pos)
          (extract_unroll_factor op pos)
          cs'
  unfolding register_all
  register_all-IsRegistered [] op pos after cs cs' r h =
      let (mid, e, rest) = register_all-step op pos after cs cs' h in
      register_all-stays after mid cs' _ _ _ r.1 rest
        (register_loop-IsRegistered is_placeholder_op is_before op pos cs mid r.0 e).0
  register_all-IsRegistered ((op', pos') ∷ regs) op pos after cs cs' r h =
      let (mid, e, rest) = register_all-step op' pos' (regs ++ (op, pos) ∷ after) cs cs' h in
      register_all-IsRegistered regs op pos after mid cs' r.1 rest

  pub same_class :
      (name : ℕ) (o o' : List ℕ) (u u' : ℕ) (cs : List LoopFusionClass)
      → IsRegistered name o u cs
      → IsRegistered name o' u' cs
      → (o ≡ o') × (u ≡ u')
  same_class name o o' u u' cs a b =
      let found : some a.the_class ≡ some b.the_class = sym a.found ∙ b.found in
      let same : a.the_class ≡ b.the_class = cc in
      (
        sym a.outer_loops ∙ ap (λ (c : LoopFusionClass). c.mapped.loop_nest) same ∙ b.outer_loops,
        sym a.unrolled ∙ ap (λ (c : LoopFusionClass). c.unroll_factor) same ∙ b.unrolled,
      )
