-- ===== src/Loops/Fusion/Registration.antt =====
-- One call of `RegisterLoop`.
use structured_additive_ir.Common.{
  ℕ, ◌<◌, ◌≡◌, refl, sym, ap, ◌∙◌, subst, Bool, false, Bool-cases, Option-cases, inl, inr, Option,
  none, some, List, [], ◌∷◌, length, length-map, get_or, take, map, ◌==◌, ==_iff, arith,
}
use structured_additive_ir.Loops.Nest.{name_of, iter_of}
use structured_additive_ir.Loops.Mapped.{
  MappedDomain, LoopNest, num_loops, loop_names, mapped_domain, add_none_prefix_to_mapping,
  unify_mapping, Unified, unified, emitted_error, failed_assert, same_names,
}
use structured_additive_ir.Loops.Mapped.Extends.{unify_mapping-Extends}
use structured_additive_ir.Loops.Fusion.{
  ComputeOp, LoopFusionClass, find_class, put_class, no_loop, extract_unroll_factor, get_loop_nest,
  fusion_class, registered, rejected, undefined_behaviour, add_use, unify_class, outer_names,
  checked_class, register_loop,
}
use structured_additive_ir.Loops.Fusion.Classes.{
  same_names-eq, find_class-put_class, find_class-other, IsRegistered, find_class-Named,
  length-take, num_loops-length, registered-classes,
}

module _ (is_placeholder_op : ℕ → Bool) (is_before : ℕ → ℕ → Bool) where
  -- A class that `RegisterLoop` goes on with: it is in the outer loops of the operation, it has the
  -- unroll factor of the operation, and it differs from the one that was there in its last use only.
  record Checked (op : ComputeOp) (pos name : ℕ) (found : Option LoopFusionClass)
      (c : LoopFusionClass) : Type 0 where
    named : c.name ≡ name
    outer : c.mapped.loop_nest ≡ outer_names op pos
    unrolled : c.unroll_factor ≡ extract_unroll_factor op pos
    kept :
        (old : LoopFusionClass)
        → found ≡ some old
        → (old.mapped.loop_nest ≡ c.mapped.loop_nest) × (old.unroll_factor ≡ c.unroll_factor)

  add_use-same :
      (c : LoopFusionClass) (op : ComputeOp)
      → ((add_use is_placeholder_op is_before c op).name ≡ c.name)
        × ((add_use is_placeholder_op is_before c op).mapped ≡ c.mapped)
        × ((add_use is_placeholder_op is_before c op).unroll_factor ≡ c.unroll_factor)
  unfolding add_use
  add_use-same c op = elim (Bool-cases (is_before c.last_op op.op)) [
    | inl t ↦ rw t (refl, refl, refl)
    | inr f ↦ rw f (refl, refl, refl)
  ]

  checked_class-Checked :
      (op : ComputeOp) (pos name : ℕ) (nest : LoopNest) (found : Option LoopFusionClass)
      (c : LoopFusionClass)
      → pos < length op.loops
      → ((old : LoopFusionClass) → found ≡ some old → old.name ≡ name)
      → checked_class is_placeholder_op is_before op pos found (fusion_class name op nest) ≡ some c
      → Checked op pos name found c
  unfolding checked_class fusion_class mapped_domain add_none_prefix_to_mapping
  checked_class-Checked op pos name nest none c lt good h =
      elim (Bool-cases (same_names (outer_names op pos) (loop_names nest))) [
        | inl t ↦
            (let value : some (fusion_class name op nest) ≡ some c = rw (t, checked_class) at h in
              let same : fusion_class name op nest ≡ c = cc in
              let outer = same_names-eq _ _ t in
              let at_pos : num_loops nest ≡ pos =
                num_loops-length nest
                ∙ ap length (sym outer)
                ∙ length-map name_of (take pos op.loops)
                ∙ length-take pos op.loops (omega arith) in
              subst (Checked op pos name none) same (record {
                named = refl;
                outer = sym outer;
                unrolled = ap (extract_unroll_factor op) at_pos;
                kept = λ old bad. cc;
              }))
        | inr f ↦ cc (rw (f, checked_class) at h)
      ]
  checked_class-Checked op pos name nest (some old) c lt good h =
      elim (Bool-cases (same_names (outer_names op pos) old.mapped.loop_nest)) [
        | inr f ↦ cc (rw (f, checked_class) at h)
        | inl t ↦ elim (Bool-cases (extract_unroll_factor op pos == old.unroll_factor)) [
          | inr f ↦ cc (rw (t, f, checked_class) at h)
          | inl u ↦
              (let value : some (add_use is_placeholder_op is_before old op) ≡ some c =
                  rw (t, u, checked_class) at h in
                let same : add_use is_placeholder_op is_before old op ≡ c = cc in
                let (n, m, f) = add_use-same old op in
                subst (Checked op pos name (some old)) same (record {
                  named = n ∙ good old refl;
                  outer = ap (λ (d : MappedDomain). d.loop_nest) m ∙ sym (same_names-eq _ _ t);
                  unrolled =
                      f ∙ sym ((==_iff (extract_unroll_factor op pos) old.unroll_factor).0 u);
                  kept = λ other e.
                      let one : old ≡ other = cc in
                      (
                        ap (λ (x : LoopFusionClass). x.mapped.loop_nest) (sym one)
                            ∙ ap (λ (d : MappedDomain). d.loop_nest) (sym m),
                        ap (λ (x : LoopFusionClass). x.unroll_factor) (sym one) ∙ sym f,
                      );
                }))
        ]
      ]

  unify_class-IsRegistered :
      (op : ComputeOp) (pos : ℕ) (c : LoopFusionClass) (cs cs' : List LoopFusionClass)
      → unify_class is_placeholder_op is_before op pos c cs ≡ registered cs'
      → IsRegistered c.name c.mapped.loop_nest c.unroll_factor cs'
        × ((name : ℕ) → (name == c.name) ≡ false → find_class name cs' ≡ find_class name cs)
  unfolding unify_class
  unify_class-IsRegistered op pos c cs cs' h = step _ refl h
    where
      step :
          (r : Unified)
          → unify_mapping is_placeholder_op c.mapped
              (record {
                use_domain_size = length op.domain_with_dependencies;
                dimensions = map iter_of (take pos op.loops);
              })
              (record {
                use_domain_size = length op.domain_with_dependencies;
                dimensions = (get_or op.loops pos no_loop).iter ∷ [];
              })
              op.domain_with_dependencies
            ≡ r
          → (elim r [
            | emitted_error ↦ rejected
            | failed_assert ↦ undefined_behaviour
            | unified mapped constraints ↦ registered (put_class (record c { mapped = mapped }) cs)
          ])
            ≡ registered cs'
          → IsRegistered c.name c.mapped.loop_nest c.unroll_factor cs'
            × ((name : ℕ) → (name == c.name) ≡ false → find_class name cs' ≡ find_class name cs)
      step emitted_error e rest = cc
      step failed_assert e rest = cc
      step (unified mapped constraints) e rest =
          let updated : LoopFusionClass = record c { mapped = mapped } in
          let same = registered-classes (put_class updated cs) cs' rest in
          let kept =
            (unify_mapping-Extends is_placeholder_op c.mapped mapped
              (record {
                use_domain_size = length op.domain_with_dependencies;
                dimensions = map iter_of (take pos op.loops);
              })
              (record {
                use_domain_size = length op.domain_with_dependencies;
                dimensions = (get_or op.loops pos no_loop).iter ∷ [];
              })
              op.domain_with_dependencies constraints e).0 in
          subst
            (λ x.
              IsRegistered c.name c.mapped.loop_nest c.unroll_factor x
              × ((name : ℕ) → (name == c.name) ≡ false → find_class name x ≡ find_class name cs))
            same
            (
              record {
                the_class = updated;
                found = find_class-put_class updated cs;
                named = refl;
                outer_loops = kept.same_loops;
                unrolled = refl;
              },
              λ name ne. find_class-other name updated cs ne,
            )

  -- One registration: it registers its loop, and what is registered stays.
  pub register_loop-IsRegistered :
      (op : ComputeOp) (pos : ℕ) (cs cs' : List LoopFusionClass)
      → pos < length op.loops
      → register_loop is_placeholder_op is_before op pos cs ≡ registered cs'
      → IsRegistered
          (get_or op.loops pos no_loop).name
          (outer_names op pos)
          (extract_unroll_factor op pos)
          cs'
        × ((name : ℕ) (outer : List ℕ) (unroll : ℕ)
            → IsRegistered name outer unroll cs
            → IsRegistered name outer unroll cs')
  unfolding register_loop
  register_loop-IsRegistered op pos cs cs' lt h =
      elim (Option-cases (get_loop_nest (outer_names op pos) cs)) [
        | inl bad ↦ cc (rw (bad, register_loop) at h)
        | inr (nest, e) ↦
            elim (Option-cases (
              checked_class is_placeholder_op is_before op pos (find_class this cs)
                (fusion_class this op nest))) [
                  | inl bad ↦ cc (rw (e, bad, register_loop) at h)
                  | inr (c, ok) ↦
                      (let checked =
                          checked_class-Checked op pos this nest (find_class this cs) c lt
                            (find_class-Named cs this) ok in
                        let (here, others) =
                          unify_class-IsRegistered op pos c cs cs'
                            (rw (e, ok, register_loop) at h) in
                        (
                          record {
                            the_class = here.the_class;
                            found = ap (λ n. find_class n cs') (sym checked.named) ∙ here.found;
                            named = here.named ∙ checked.named;
                            outer_loops = here.outer_loops ∙ checked.outer;
                            unrolled = here.unrolled ∙ checked.unrolled;
                          },
                          stays c checked here others,
                        ))
                ]
      ]
    where
      this : ℕ
      this = (get_or op.loops pos no_loop).name

      stays :
          (c : LoopFusionClass)
          → Checked op pos
              (get_or op.loops pos no_loop).name
              (find_class (get_or op.loops pos no_loop).name cs)
              c
          → IsRegistered c.name c.mapped.loop_nest c.unroll_factor cs'
          → ((name : ℕ) → (name == c.name) ≡ false → find_class name cs' ≡ find_class name cs)
          → (name : ℕ) (outer : List ℕ) (unroll : ℕ) → IsRegistered name outer unroll cs
          → IsRegistered name outer unroll cs'
      stays c checked here others name outer unroll before = elim (Bool-cases (name == c.name)) [
        | inr ne ↦ record {
          the_class = before.the_class;
          found = others name ne ∙ before.found;
          named = before.named;
          outer_loops = before.outer_loops;
          unrolled = before.unrolled;
        }
        | inl e ↦
            (let same : name ≡ c.name = (==_iff name c.name).0 e in
              let (loops, factor) =
                checked.kept before.the_class
                  (ap (λ n. find_class n cs) (sym checked.named ∙ sym same) ∙ before.found) in
              record {
                the_class = here.the_class;
                found = ap (λ n. find_class n cs') same ∙ here.found;
                named = here.named ∙ sym same;
                outer_loops = here.outer_loops ∙ sym loops ∙ before.outer_loops;
                unrolled = here.unrolled ∙ sym factor ∙ before.unrolled;
              })
      ]
