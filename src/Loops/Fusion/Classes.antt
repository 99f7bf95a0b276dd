-- ===== src/Loops/Fusion/Classes.antt =====
-- The map from loop names to fusion classes.
use structured_additive_ir.Common.{
  ℕ, zero, suc, ◌≤◌, ◌≡◌, refl, sym, ap, ◌∙◌, subst, true, false, Bool-cases, inl, inr, some, List,
  [], ◌∷◌, length, length-append, take, ◌==◌, ==_iff, arith,
}
use structured_additive_ir.Loops.Mapped.{
  LoopNest, empty, inner_loop, num_loops, loop_names, same_names,
}
use structured_additive_ir.Loops.Fusion.{
  LoopFusionClass, find_class, put_class, Registered, registered, rejected, undefined_behaviour,
}

pub same_names-eq : (xs ys : List ℕ) → same_names xs ys ≡ true → xs ≡ ys
same_names-eq [] [] h = refl
same_names-eq [] (y ∷ ys) h = cc
same_names-eq (x ∷ xs) [] h = cc
same_names-eq (x ∷ xs) (y ∷ ys) h =
    let same = same_names-eq xs ys (ground (arith, h)) in let one : x ≡ y = ground (arith, h) in cc

pub find_class-put_class :
    (c : LoopFusionClass) (cs : List LoopFusionClass) → find_class c.name (put_class c cs) ≡ some c
unfolding find_class put_class
find_class-put_class c [] = rw ((==_iff c.name c.name).1 refl) refl
find_class-put_class c (x ∷ xs) = elim (Bool-cases (c.name == x.name)) [
  | inl e ↦ rw (e, (==_iff c.name c.name).1 refl) refl
  | inr ne ↦ rw ne (rw ne (find_class-put_class c xs))
]

pub find_class-other :
    (name : ℕ) (c : LoopFusionClass) (cs : List LoopFusionClass)
    → (name == c.name) ≡ false
    → find_class name (put_class c cs) ≡ find_class name cs
unfolding find_class put_class
find_class-other name c [] ne = rw ne refl
find_class-other name c (x ∷ xs) ne = elim (Bool-cases (c.name == x.name)) [
  | inl e ↦
      (let same : (name == x.name) ≡ false =
          subst (λ n. (name == n) ≡ false) ((==_iff c.name x.name).0 e) ne in
        rw (e, ne, same) refl)
  | inr other ↦ elim (Bool-cases (name == x.name)) [
    | inl here ↦ rw (other, here) refl
    | inr there ↦ rw (other, there) (find_class-other name c xs ne)
  ]
]

-- The loop is registered, in the given outer loops and with the given unroll factor.
pub record IsRegistered (name : ℕ) (outer : List ℕ) (unroll : ℕ) (cs : List LoopFusionClass)
    : Type 0 where
  pub the_class : LoopFusionClass
  pub found : find_class name cs ≡ some the_class
  pub named : the_class.name ≡ name
  pub outer_loops : the_class.mapped.loop_nest ≡ outer
  pub unrolled : the_class.unroll_factor ≡ unroll

-- The classes stand under their names.
abbrev pub Named : List LoopFusionClass → Type 0
Named cs = (name : ℕ) (c : LoopFusionClass) → find_class name cs ≡ some c → c.name ≡ name

pub find_class-Named : (cs : List LoopFusionClass) → Named cs
unfolding find_class
find_class-Named [] name c h = cc
find_class-Named (x ∷ xs) name c h = elim (Bool-cases (name == x.name)) [
  | inl e ↦
      (let h' : some x ≡ some c = rw (e, find_class) at h in
        let same : x ≡ c = cc in
        ap (λ (y : LoopFusionClass). y.name) (sym same) ∙ sym ((==_iff name x.name).0 e))
  | inr ne ↦ find_class-Named xs name c (rw (ne, find_class) at h)
]

pub length-take : {A : Type 0} (n : ℕ) (xs : List A) → n ≤ length xs → length (take n xs) ≡ n
length-take zero xs h = refl
length-take (suc n) [] h = absurd (omega arith)
length-take (suc n) (x ∷ xs) h = ap suc (length-take n xs (omega arith))

pub num_loops-length : (nest : LoopNest) → num_loops nest ≡ length (loop_names nest)
num_loops-length empty = refl
num_loops-length (inner_loop name c) = sym (length-append c.loop_nest (name ∷ []))

abbrev pub classes_of : List LoopFusionClass → Registered → List LoopFusionClass
classes_of cs (registered cs') = cs'
classes_of cs rejected = cs
classes_of cs undefined_behaviour = cs

pub registered-classes : (cs cs' : List LoopFusionClass) → registered cs ≡ registered cs' → cs ≡ cs'
registered-classes cs cs' h = ap (classes_of cs) h
