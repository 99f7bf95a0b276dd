-- ===== src/Mapping/Unify/Valid.antt =====
-- `Unify` and the asserts of `MappingUnStripeExpr::get`.
use structured_additive_ir.Common.{
  ℕ, zero, suc, ◌≡◌, refl, ap, ◌∙◌, subst, Bool, true, false, not, inl, inr, Option, some, List,
  length, leb, if◌then◌else◌, ite, if_pos, if_neg, map_option, >>=-eq-some, map_option-eq-some,
  Bool-cases,
}
use structured_additive_ir.Mapping.Expr.{
  MappingExpr, MappingExprs, dim, none_expr, unknown_expr, stripe, unstripe, nil, cons, to_list,
  MappingExpr-discrete, factors-discrete,
}
use structured_additive_ir.Mapping.Expr.Valid.{IsValid, AllValid}
use structured_additive_ir.Mapping.Unify.{
  unify_with, unify_operands, mismatch, stateless, unify, resolve_none_and_unknown,
}
use structured_additive_ir.Mapping.Unify.Refine.{resolve_none_and_unknown-cases}

abbrev Sized : MappingExprs → MappingExprs → Type 0
Sized ks us = AllValid us × (length (to_list us) ≡ length (to_list ks))

module _ {S : Type 0} (f : MappingExpr → MappingExpr → S → Option (MappingExpr × S))
    (sound : (x y : MappingExpr) (s : S) (r : MappingExpr) (s' : S)
      → IsValid x
      → IsValid y
      → f x y s ≡ some (r, s')
      → IsValid r) where
  mismatch-IsValid :
      (swapped : Bool) (x y : MappingExpr) (s : S) (r : MappingExpr) (s' : S)
      → IsValid x
      → IsValid y
      → mismatch f swapped x y s ≡ some (r, s')
      → IsValid r
  mismatch-IsValid false x y s r s' vx vy h = sound x y s r s' vx vy h
  mismatch-IsValid true x y s r s' vx vy h = sound y x s r s' vy vx h

  leaf-IsValid :
      (x y : MappingExpr) (swapped : Bool) (s : S) (r : MappingExpr) (s' : S)
      → IsValid x
      → IsValid y
      → ite (MappingExpr-discrete y x) (some (x, s)) (mismatch f swapped x y s) ≡ some (r, s')
      → IsValid r
  leaf-IsValid x y swapped s r s' vx vy h = elim (MappingExpr-discrete y x) [
    | yes p ↦ let e : x ≡ r = cc (rw (if_pos _ p) at h) in subst IsValid e vx
    | no p ↦ mismatch-IsValid swapped x y s r s' vx vy (rw (if_neg _ p) at h)
  ]

  kept-IsValid :
      (ks : MappingExprs) (fs : List ℕ) (r : MappingExpr) (s' : S) {ℓ : Type 0} (d : Dec ℓ)
      (operands : Option (MappingExprs × S)) (other : Option (MappingExpr × S))
      → IsValid (unstripe ks fs)
      → ((us : MappingExprs) (s'' : S) → operands ≡ some (us, s'') → Sized ks us)
      → (other ≡ some (r, s') → IsValid r)
      → ite d (map_option (λ ((us, s'') : MappingExprs × S). (unstripe us fs, s'')) operands) other
        ≡ some (r, s')
      → IsValid r
  kept-IsValid ks fs r s' d operands other vk ih mis h = elim d [
    | yes p ↦
        let ((us, s''), ok, eq) = map_option-eq-some _ operands (rw (if_pos _ p) at h) in
        let er : unstripe us fs ≡ r = cc in
        let (a, b) = ih us s'' ok in subst IsValid er (a, vk.1, b ∙ vk.2)
    | no p ↦ mis (rw (if_neg _ p) at h)
  ]

  mutual
    unfolding unify_with

    unify_with-IsValid :
        (x : MappingExpr) (swapped : Bool) (y : MappingExpr) (s : S) (r : MappingExpr) (s' : S)
        → IsValid x
        → IsValid y
        → unify_with f swapped x y s ≡ some (r, s')
        → IsValid r
    unify_with-IsValid (dim d) swapped y s r s' vx vy h =
        leaf-IsValid (dim d) y swapped s r s' vx vy h
    unify_with-IsValid none_expr swapped y s r s' vx vy h =
        leaf-IsValid none_expr y swapped s r s' vx vy h
    unify_with-IsValid unknown_expr swapped y s r s' vx vy h =
        leaf-IsValid unknown_expr y swapped s r s' vx vy h
    unify_with-IsValid (stripe e fs) swapped (stripe y gs) s r s' vx vy h =
        elim (factors-discrete fs gs) [
          | yes p ↦
              let ((u, s''), ok, eq) =
                map_option-eq-some _ (unify_with f swapped e y s) (rw (if_pos _ p) at h) in
              let er : stripe u fs ≡ r = cc in
              subst IsValid er (unify_with-IsValid e swapped y s u s'' vx.0 vy.0 ok, vx.1)
          | no p ↦
              mismatch-IsValid swapped (stripe e fs) (stripe y gs) s r s' vx vy
                (rw (if_neg _ p) at h)
        ]
    unify_with-IsValid (stripe e fs) swapped y s r s' vx vy h =
        mismatch-IsValid swapped (stripe e fs) y s r s' vx vy h
    unify_with-IsValid (unstripe es fs) swapped (unstripe ys gs) s r s' vx vy h =
        let keep_first =
          if swapped then not (leb (length fs) (length gs)) else leb (length gs) (length fs) in
        elim (Bool-cases keep_first) [
          | inl k ↦
              kept-IsValid es fs r s' _ _ _ vx
                (λ us s''. unify_operands-valid es true _ ys s us s'' vx.0 vy.0)
                (mismatch-IsValid swapped (unstripe es fs) (unstripe ys gs) s r s' vx vy)
                (rw k at h)
          | inr k ↦
              kept-IsValid ys gs r s' _ _ _ vy
                (λ us s''. unify_operands-valid es false _ ys s us s'' vx.0 vy.0)
                (mismatch-IsValid swapped (unstripe es fs) (unstripe ys gs) s r s' vx vy)
                (rw k at h)
        ]
    unify_with-IsValid (unstripe es fs) swapped y s r s' vx vy h =
        mismatch-IsValid swapped (unstripe es fs) y s r s' vx vy h

    unify_operands-valid :
        (es : MappingExprs) (keep_first : Bool) (count : ℕ) (ys : MappingExprs) (s : S)
        (us : MappingExprs) (s' : S)
        → AllValid es
        → AllValid ys
        → unify_operands f keep_first count es ys s ≡ some (us, s')
        → Sized (if keep_first then es else ys) us
    unify_operands-valid nil true count ys s us s' vx vy h =
        let made : nil ≡ us = cc in subst (Sized nil) made (vx, refl)
    unify_operands-valid nil false count ys s us s' vx vy h =
        let made : ys ≡ us = cc in subst (Sized ys) made (vy, refl)
    unify_operands-valid (cons e es) true zero ys s us s' vx vy h =
        let made : cons e es ≡ us = cc in subst (Sized (cons e es)) made (vx, refl)
    unify_operands-valid (cons e es) false zero ys s us s' vx vy h =
        let made : ys ≡ us = cc in subst (Sized ys) made (vy, refl)
    unify_operands-valid (cons e es) true (suc count) nil s us s' vx vy h =
        let made : cons e es ≡ us = cc in subst (Sized (cons e es)) made (vx, refl)
    unify_operands-valid (cons e es) false (suc count) nil s us s' vx vy h =
        let made : nil ≡ us = cc in subst (Sized nil) made (vy, refl)
    unify_operands-valid (cons e es) true (suc count) (cons y ys) s us s' vx vy h =
        let ((u, t), ok, rest) = >>=-eq-some (unify_with f false e y s) _ h in
        let ((us', t'), ok', eq) =
          map_option-eq-some _ (unify_operands f true count es ys t) rest in
        let made : cons u us' ≡ us = cc in
        let (a, b) = unify_operands-valid es true count ys t us' t' vx.1 vy.1 ok' in
        subst (Sized (cons e es)) made
          ((unify_with-IsValid e false y s u t vx.0 vy.0 ok, a), ap suc b)
    unify_operands-valid (cons e es) false (suc count) (cons y ys) s us s' vx vy h =
        let ((u, t), ok, rest) = >>=-eq-some (unify_with f true e y s) _ h in
        let ((us', t'), ok', eq) =
          map_option-eq-some _ (unify_operands f false count es ys t) rest in
        let made : cons u us' ≡ us = cc in
        let (a, b) = unify_operands-valid es false count ys t us' t' vx.1 vy.1 ok' in
        subst (Sized (cons y ys)) made
          ((unify_with-IsValid e true y s u t vx.0 vy.0 ok, a), ap suc b)

resolve-IsValid :
    (x y : MappingExpr) (s : Unit {0}) (r : MappingExpr) (s' : Unit {0})
    → IsValid x
    → IsValid y
    → stateless resolve_none_and_unknown x y s ≡ some (r, s')
    → IsValid r
resolve-IsValid x y s r s' vx vy h =
    let (r', ok, e) = map_option-eq-some _ (resolve_none_and_unknown x y) h in
    let e' : r' ≡ r = ap (λ (p : MappingExpr × Unit {0}). p.0) e in
    elim (resolve_none_and_unknown-cases x y r' ok) [
      | inl (p, q) ↦ subst IsValid (q ∙ e') vy
      | inr (p, q) ↦ subst IsValid (q ∙ e') vx
    ]

-- Unifying two expressions that pass the asserts gives one that does.
pub unify-IsValid : (x y r : MappingExpr) → IsValid x → IsValid y → unify x y ≡ some r → IsValid r
unfolding unify
unify-IsValid x y r vx vy h =
    let ((r', s'), ok, e) =
      map_option-eq-some _ (unify_with (stateless resolve_none_and_unknown) false x y tt) h in
    let e' : r' ≡ r = e in
    subst IsValid e' (
      unify_with-IsValid (stateless resolve_none_and_unknown) resolve-IsValid x false y tt r' s' vx
        vy ok)
