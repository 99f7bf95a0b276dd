-- ===== src/Loops/Fusion/Agree.antt =====
-- What `LoopFusionAnalysis::Init` ensures of the operations that share a loop.
use structured_additive_ir.Common.{
  ℕ, suc, ◌<◌, ◌≡◌, ◌≢◌, subst, Bool, Bool-cases, inl, inr, none, some, List, [], length, get_or,
  if◌then◌else◌, arith, map_option-eq-some, All,
}
use structured_additive_ir.Loops.Fusion.{
  ComputeOp, LoopFusionClass, Registered, registered, register_all, no_loop,
}
use structured_additive_ir.Loops.Fusion.{
  rejected, undefined_behaviour, outer_names, extract_unroll_factor,
}
use structured_additive_ir.Loops.Fusion.Init.{registrations, init, all_specified}
use structured_additive_ir.Loops.Fusion.Classes.{IsRegistered}
use structured_additive_ir.Loops.Fusion.Shared.{InRange, register_all-IsRegistered, same_class}
use structured_additive_ir.Loops.Fusion.Order.{In, In-split, LoopsUpTo, registrations-Ordered}

module _ (is_placeholder_op : ℕ → Bool) (is_before : ℕ → ℕ → Bool) where
  register_all-In :
      (regs : List (ComputeOp × ℕ)) (op : ComputeOp) (pos : ℕ) (cs cs' : List LoopFusionClass)
      → In (op, pos) regs
      → All InRange regs
      → register_all is_placeholder_op is_before regs cs ≡ registered cs'
      → IsRegistered
          (get_or op.loops pos no_loop).name
          (outer_names op pos)
          (extract_unroll_factor op pos)
          cs'
  register_all-In regs op pos cs cs' h r e =
      let (before, after, split) = In-split (op, pos) regs h in
      register_all-IsRegistered is_placeholder_op is_before before op pos after cs cs'
        (subst (All InRange) split r)
        (subst (λ l. register_all is_placeholder_op is_before l cs ≡ registered cs') split e)

  classes_registered :
      (r : Registered) (cs' : List LoopFusionClass)
      → (elim r [
        | registered classes ↦ if all_specified classes then registered classes else rejected
        | rejected ↦ rejected
        | undefined_behaviour ↦ undefined_behaviour
      ])
        ≡ registered cs'
      → r ≡ registered cs'
  classes_registered rejected cs' h = cc
  classes_registered undefined_behaviour cs' h = cc
  classes_registered (registered cs) cs' h = elim (Bool-cases (all_specified cs)) [
    | inl t ↦ rw t at h
    | inr f ↦ cc (rw f at h)
  ]

  -- With fuel above the number of loops of each operation, `Init` ends.
  pub init-ne-none :
      (n : ℕ) (ops : List ComputeOp)
      → All (LoopsUpTo n) ops
      → init is_placeholder_op is_before (suc n) ops ≢ none
  unfolding init
  init-ne-none n ops b h =
      let (regs, e, ordered) =
        registrations-Ordered n 0 ops (subst (λ k. All (LoopsUpTo k) ops) (omega arith) b) in
      cc (rw (e, init) at h)

  -- Where Init has no error before the trimming, two operations in a loop of the same name have it in
  -- the same outer loops and with the same unroll factor modulo 2 ^ 32, the factor being 0 where it
  -- is not given. The fuel is above the number of loops of each operation.
  pub init-shared :
      (n : ℕ) (ops : List ComputeOp) (classes : List LoopFusionClass) (first second : ComputeOp)
      (pos pos' : ℕ)
      → All (LoopsUpTo n) ops
      → init is_placeholder_op is_before (suc n) ops ≡ some (registered classes)
      → In first ops
      → In second ops
      → pos < length first.loops
      → pos' < length second.loops
      → (get_or first.loops pos no_loop).name ≡ (get_or second.loops pos' no_loop).name
      → (outer_names first pos ≡ outer_names second pos')
        × (extract_unroll_factor first pos ≡ extract_unroll_factor second pos')
  unfolding init
  init-shared n ops classes first second pos pos' b h here there lt lt' same =
      let (regs, e, ordered) =
        registrations-Ordered n 0 ops (subst (λ k. All (LoopsUpTo k) ops) (omega arith) b) in
      let (regs', e', ended) = map_option-eq-some _ (registrations (suc n) 0 ops) h in
      let one_order : regs' ≡ regs = cc in
      let all =
        subst (λ l. register_all is_placeholder_op is_before l [] ≡ registered classes) one_order
          (classes_registered (register_all is_placeholder_op is_before regs' []) classes ended) in
      let one =
        register_all-In regs first pos [] classes
          (ordered.registers first pos here (omega arith) lt) ordered.in_range all in
      let two =
        register_all-In regs second pos' [] classes
          (ordered.registers second pos' there (omega arith) lt') ordered.in_range all in
      same_class is_placeholder_op is_before (get_or second.loops pos' no_loop).name
        (outer_names first pos) (outer_names second pos') (extract_unroll_factor first pos)
        (extract_unroll_factor second pos') classes
        (subst
          (λ k. IsRegistered k (outer_names first pos) (extract_unroll_factor first pos) classes)
          same one)
        two
