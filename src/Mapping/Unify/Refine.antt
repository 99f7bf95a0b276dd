-- ===== src/Mapping/Unify/Refine.antt =====
-- `Unify` of sair_attributes.cc against the information order.
use structured_additive_ir.Common.{
  ℕ, zero, suc, ◌-◌, ◌≤◌, ◌≡◌, refl, ap, ◌∙◌, subst, Bool, true, false, not, ◌⊎◌, inl, inr, Option,
  some, List, [], ◌∷◌, arith, length, take, leb, if◌then◌else◌, ite, if_pos, if_neg, map_option,
  >>=-eq-some, map_option-eq-some, Bool-cases,
}
use structured_additive_ir.Mapping.Expr.{
  MappingExpr, MappingExprs, dim, none_expr, unknown_expr, stripe, unstripe, nil, cons, to_list,
  is_placeholder, MappingExpr-discrete, factors-discrete,
}
use structured_additive_ir.Mapping.Expr.Valid.{
  IsValid, AllValid, UnstripeFactors, UnstripeFactors-prefix,
}
use structured_additive_ir.Mapping.Refines.{
  Refines, RefinesOperands, IsOpen, head?, tail, Refines-refl, RefinesOperands-refl,
  Refines-of_placeholder,
}
use structured_additive_ir.Mapping.Unify.{
  unify_with, unify_operands, mismatch, last_or, drop_last, stateless, unify,
  resolve_none_and_unknown,
}

-- The operands `ms` with factors `gs`, of which `count` are unified, fit onto the operands `ks`
-- that are kept, with factors `fs`: the factors agree, and what is left of `ms` is nothing or a
-- single placeholder.
abbrev Fits : MappingExprs → List ℕ → MappingExprs → List ℕ → ℕ → Type 0
Fits nil gs nil fs count = gs ≡ fs
Fits nil gs (cons k ks) fs count = ⊥
Fits (cons m ms) gs nil fs count = ⊥
Fits (cons m ms) gs (cons k ks) fs zero = IsOpen m ms
Fits (cons m ms) gs (cons k ks) fs (suc count) =
    (head? gs ≡ head? fs) × Fits ms (tail gs) ks (tail fs) count

-- The two conclusions of the operand lemma, for the operands kept and for the others.
abbrev Joins : MappingExpr → MappingExpr → MappingExpr → Type 0
Joins x y r = Refines x r × Refines y r

abbrev JoinsOperands : MappingExprs → List ℕ → MappingExprs → List ℕ → MappingExprs → Type 0
JoinsOperands ks fs ms gs us = RefinesOperands ks fs us fs × RefinesOperands ms gs us fs

JoinsOperands-stop :
    (ks : MappingExprs) (fs : List ℕ) (ms : MappingExprs) (gs : List ℕ)
    → Fits ms gs ks fs zero
    → JoinsOperands ks fs ms gs ks
JoinsOperands-stop nil fs nil gs h = (refl, h)
JoinsOperands-stop nil fs (cons m ms) gs h = elim h [ ]
JoinsOperands-stop (cons k ks) fs nil gs h = elim h [ ]
JoinsOperands-stop (cons k ks) fs (cons m ms) gs h = (RefinesOperands-refl (cons k ks) fs, inl h)

Fits-same :
    (ms : MappingExprs) (gs fs : List ℕ) (ks : MappingExprs) (count : ℕ)
    → gs ≡ fs
    → length (to_list ms) ≡ length (to_list ks)
    → length (to_list ms) ≡ count
    → Fits ms gs ks fs count
Fits-same nil gs fs nil count e h k = e
Fits-same nil gs fs (cons x ks) count e h k = absurd (omega arith)
Fits-same (cons m ms) gs fs nil count e h k = absurd (omega arith)
Fits-same (cons m ms) gs fs (cons x ks) zero e h k = absurd (omega arith)
Fits-same (cons m ms) gs fs (cons x ks) (suc count) e h k =
    (ap head? e, Fits-same ms (tail gs) (tail fs) ks count (ap tail e) (omega arith) (omega arith))

Fits-open :
    (ms : MappingExprs) (gs fs : List ℕ) (ks : MappingExprs) (count : ℕ)
    → is_placeholder (last_or none_expr ms) ≡ true
    → suc count ≡ length (to_list ms)
    → length (to_list ms) ≡ length gs
    → length (to_list ms) ≤ length (to_list ks)
    → length (to_list ks) ≡ length fs
    → drop_last gs ≡ take (length (drop_last gs)) fs
    → Fits ms gs ks fs count
Fits-open nil gs fs ks count p c a b d e = absurd (omega arith)
Fits-open (cons m ms) gs fs nil count p c a b d e = absurd (omega arith)
Fits-open (cons m nil) gs fs (cons k ks) zero p c a b d e = (p, refl)
Fits-open (cons m (cons m' ms)) gs fs (cons k ks) zero p c a b d e = absurd (omega arith)
Fits-open (cons m nil) gs fs (cons k ks) (suc count) p c a b d e = absurd (omega arith)
Fits-open (cons m (cons m' ms)) [] fs (cons k ks) (suc count) p c a b d e = absurd (omega arith)
Fits-open (cons m (cons m' ms)) (g ∷ []) fs (cons k ks) (suc count) p c a b d e =
    absurd (omega arith)
Fits-open (cons m (cons m' ms)) (g ∷ g' ∷ gs) [] (cons k ks) (suc count) p c a b d e =
    absurd (omega arith)
Fits-open (cons m (cons m' ms)) (g ∷ g' ∷ gs) (f ∷ fs) (cons k ks) (suc count) p c a b d e = (
  ap head? e,
  Fits-open (cons m' ms) (g' ∷ gs) fs ks count p (omega arith) (omega arith) (omega arith)
      (omega arith) (ap tail e),
)

-- The tests of the unstripe case make the operands fit.
unstripe-Fits :
    (ks : MappingExprs) (fs : List ℕ) (ms : MappingExprs) (gs : List ℕ) (open_end : Bool)
    → IsValid (unstripe ks fs)
    → IsValid (unstripe ms gs)
    → length gs ≤ length fs
    → is_placeholder (last_or none_expr ms) ≡ open_end
    → (let min_factors = if open_end then drop_last gs else gs in
        min_factors ≡ take (length min_factors) fs)
    → Fits ms gs ks fs (length (to_list ms) - (if open_end then 1 else 0))
unstripe-Fits ks fs ms gs false (_, uf, kl) (_, ug, ml) le p e =
    let same = UnstripeFactors-prefix gs fs ug uf e in
    Fits-same ms gs fs ks (length (to_list ms) - 0) same (ground (arith, ap {B = ℕ} length same))
      (omega arith)
unstripe-Fits ks fs nil gs true (_, uf, kl) (_, ug, ml) le p e = elim (nonempty gs ml ug) [ ]
  where
    nonempty : (gs : List ℕ) → 0 ≡ length gs → UnstripeFactors gs → ⊥
    nonempty [] h u = u
    nonempty (g ∷ gs) h u = omega arith
unstripe-Fits ks fs (cons m ms) gs true (_, uf, kl) (_, ug, ml) le p e =
    Fits-open (cons m ms) gs fs ks (length (to_list (cons m ms)) - 1) p (omega arith) ml
      (omega arith) kl e

Fits-onto_nil :
    (ms : MappingExprs) (gs fs : List ℕ) (count : ℕ)
    → Fits ms gs nil fs count
    → JoinsOperands nil fs ms gs nil
Fits-onto_nil nil gs fs count h = (refl, h)
Fits-onto_nil (cons m ms) gs fs count h = elim h [ ]

Fits-of_nil :
    (ks : MappingExprs) (fs gs : List ℕ) (count : ℕ)
    → Fits nil gs ks fs count
    → JoinsOperands ks fs nil gs ks
Fits-of_nil nil fs gs count h = (refl, h)
Fits-of_nil (cons k ks) fs gs count h = elim h [ ]

module _ {S : Type 0} (f : MappingExpr → MappingExpr → S → Option (MappingExpr × S))
    (sound : (x y : MappingExpr) (s : S) (r : MappingExpr) (s' : S)
      → f x y s ≡ some (r, s')
      → Joins x y r) where
  mismatch-Joins :
      (swapped : Bool) (x y : MappingExpr) (s : S) (r : MappingExpr) (s' : S)
      → mismatch f swapped x y s ≡ some (r, s')
      → Joins x y r
  mismatch-Joins false x y s r s' h = sound x y s r s' h
  mismatch-Joins true x y s r s' h = let (a, b) = sound y x s r s' h in (b, a)

  -- A leaf unifies with itself, and goes to the callback with all else.
  leaf-Joins :
      (x y : MappingExpr) (swapped : Bool) (s : S) (r : MappingExpr) (s' : S)
      → ite (MappingExpr-discrete y x) (some (x, s)) (mismatch f swapped x y s) ≡ some (r, s')
      → Joins x y r
  leaf-Joins x y swapped s r s' h = elim (MappingExpr-discrete y x) [
    | yes p ↦
        let e : x ≡ r = cc (rw (if_pos _ p) at h) in
        (subst (Refines x) e (Refines-refl x), subst (Refines y) (p ∙ e) (Refines-refl y))
    | no p ↦ mismatch-Joins swapped x y s r s' (rw (if_neg _ p) at h)
  ]

  -- The unstripe case, for the operands `ks` that are kept and the others, `ms`.
  kept-Joins :
      (ks : MappingExprs) (fs : List ℕ) (ms : MappingExprs) (gs : List ℕ) (r : MappingExpr) (s' : S)
      (operands : Option (MappingExprs × S)) (other : Option (MappingExpr × S))
      → IsValid (unstripe ks fs)
      → IsValid (unstripe ms gs)
      → length gs ≤ length fs
      → ((us : MappingExprs) (s'' : S)
          → Fits ms gs ks fs
              (length (to_list ms) - (if is_placeholder (last_or none_expr ms) then 1 else 0))
          → operands ≡ some (us, s'')
          → JoinsOperands ks fs ms gs us)
      → (other ≡ some (r, s') → Joins (unstripe ks fs) (unstripe ms gs) r)
      → (let min_factors = if is_placeholder (last_or none_expr ms) then drop_last gs else gs in
          ite
            (factors-discrete min_factors (take (length min_factors) fs))
            (map_option (λ ((us, s'') : MappingExprs × S). (unstripe us fs, s'')) operands)
            other)
        ≡ some (r, s')
      → Joins (unstripe ks fs) (unstripe ms gs) r
  kept-Joins ks fs ms gs r s' operands other vk vm le ih mis h =
      let min_factors = if is_placeholder (last_or none_expr ms) then drop_last gs else gs in
      elim (factors-discrete min_factors (take (length min_factors) fs)) [
        | yes p ↦
            let ((us, s''), ok, eq) = map_option-eq-some _ operands (rw (if_pos _ p) at h) in
            let (a, b) = ih us s'' (unstripe-Fits ks fs ms gs _ vk vm le refl p) ok in
            let er : r ≡ unstripe us fs = cc in ((us, fs, er, a), (us, fs, er, b))
        | no p ↦ mis (rw (if_neg _ p) at h)
      ]

  mutual
    unfolding unify_with

    unify_with-Joins :
        (x : MappingExpr) (swapped : Bool) (y : MappingExpr) (s : S) (r : MappingExpr) (s' : S)
        → IsValid x
        → IsValid y
        → unify_with f swapped x y s ≡ some (r, s')
        → Joins x y r
    unify_with-Joins (dim d) swapped y s r s' vx vy h = leaf-Joins (dim d) y swapped s r s' h
    unify_with-Joins none_expr swapped y s r s' vx vy h = leaf-Joins none_expr y swapped s r s' h
    unify_with-Joins unknown_expr swapped y s r s' vx vy h =
        leaf-Joins unknown_expr y swapped s r s' h
    unify_with-Joins (stripe e fs) swapped (stripe y gs) s r s' vx vy h =
        elim (factors-discrete fs gs) [
          | yes p ↦
              let ((u, s''), ok, eq) =
                map_option-eq-some _ (unify_with f swapped e y s) (rw (if_pos _ p) at h) in
              let (a, b) = unify_with-Joins e swapped y s u s'' vx.0 vy.0 ok in
              let er : r ≡ stripe u fs = cc in ((u, er, a), (u, er ∙ ap (stripe u) p, b))
          | no p ↦ mismatch-Joins swapped (stripe e fs) (stripe y gs) s r s' (rw (if_neg _ p) at h)
        ]
    unify_with-Joins (stripe e fs) swapped y s r s' vx vy h =
        mismatch-Joins swapped (stripe e fs) y s r s' h
    unify_with-Joins (unstripe es fs) swapped (unstripe ys gs) s r s' vx vy h =
        let keep_first =
          if swapped then not (leb (length fs) (length gs)) else leb (length gs) (length fs) in
        elim (Bool-cases keep_first) [
          | inl k ↦
              kept-Joins es fs ys gs r s' _ _ vx vy (ground arith)
                (λ us s''. unify_operands-joins es true _ ys fs gs s us s'' vx.0 vy.0)
                (mismatch-Joins swapped (unstripe es fs) (unstripe ys gs) s r s') (rw k at h)
          | inr k ↦
              let (b, a) =
                kept-Joins ys gs es fs r s' _ _ vy vx (ground arith)
                  (λ us s''. unify_operands-joins es false _ ys fs gs s us s'' vx.0 vy.0)
                  (λ e.
                    let (a, b) =
                      mismatch-Joins swapped (unstripe es fs) (unstripe ys gs) s r s' e in
                    (b, a))
                  (rw k at h) in
              (a, b)
        ]
    unify_with-Joins (unstripe es fs) swapped y s r s' vx vy h =
        mismatch-Joins swapped (unstripe es fs) y s r s' h

    unify_operands-joins :
        (es : MappingExprs) (keep_first : Bool) (count : ℕ) (ys : MappingExprs) (fs gs : List ℕ)
        (s : S) (us : MappingExprs) (s' : S)
        → AllValid es
        → AllValid ys
        → (if keep_first then Fits ys gs es fs count else Fits es fs ys gs count)
        → unify_operands f keep_first count es ys s ≡ some (us, s')
        → (if keep_first then JoinsOperands es fs ys gs us else JoinsOperands ys gs es fs us)
    unify_operands-joins nil true count ys fs gs s us s' vx vy fit h =
        let made : nil ≡ us = cc in
        subst (JoinsOperands nil fs ys gs) made (Fits-onto_nil ys gs fs count fit)
    unify_operands-joins nil false count ys fs gs s us s' vx vy fit h =
        let made : ys ≡ us = cc in
        subst (JoinsOperands ys gs nil fs) made (Fits-of_nil ys gs fs count fit)
    unify_operands-joins (cons e es) true zero ys fs gs s us s' vx vy fit h =
        let made : cons e es ≡ us = cc in
        subst (JoinsOperands (cons e es) fs ys gs) made
          (JoinsOperands-stop (cons e es) fs ys gs fit)
    unify_operands-joins (cons e es) false zero ys fs gs s us s' vx vy fit h =
        let made : ys ≡ us = cc in
        subst (JoinsOperands ys gs (cons e es) fs) made
          (JoinsOperands-stop ys gs (cons e es) fs fit)
    unify_operands-joins (cons e es) true (suc count) nil fs gs s us s' vx vy fit h = elim fit [ ]
    unify_operands-joins (cons e es) false (suc count) nil fs gs s us s' vx vy fit h = elim fit [ ]
    unify_operands-joins (cons e es) true (suc count) (cons y ys) fs gs s us s' vx vy fit h =
        let ((u, t), ok, rest) = >>=-eq-some (unify_with f false e y s) _ h in
        let ((us', t'), ok', eq) =
          map_option-eq-some _ (unify_operands f true count es ys t) rest in
        let (a, b) = unify_with-Joins e false y s u t vx.0 vy.0 ok in
        let (p, q) =
          unify_operands-joins es true count ys (tail fs) (tail gs) t us' t' vx.1 vy.1 fit.1 ok' in
        let made : cons u us' ≡ us = cc in
        subst (JoinsOperands (cons e es) fs (cons y ys) gs) made
          (inr (refl, a, p), inr (fit.0, b, q))
    unify_operands-joins (cons e es) false (suc count) (cons y ys) fs gs s us s' vx vy fit h =
        let ((u, t), ok, rest) = >>=-eq-some (unify_with f true e y s) _ h in
        let ((us', t'), ok', eq) =
          map_option-eq-some _ (unify_operands f false count es ys t) rest in
        let (a, b) = unify_with-Joins e true y s u t vx.0 vy.0 ok in
        let (p, q) =
          unify_operands-joins es false count ys (tail fs) (tail gs) t us' t' vx.1 vy.1 fit.1 ok' in
        let made : cons u us' ≡ us = cc in
        subst (JoinsOperands (cons y ys) gs (cons e es) fs) made
          (inr (refl, b, p), inr (fit.0, a, q))

  -- A successful unification refines both expressions, if the callback's answers do.
  pub unify_with-Refines :
      (swapped : Bool) (x y : MappingExpr) (s : S) (r : MappingExpr) (s' : S)
      → IsValid x
      → IsValid y
      → unify_with f swapped x y s ≡ some (r, s')
      → Refines x r × Refines y r
  unify_with-Refines swapped x y s r s' = unify_with-Joins x swapped y s r s'

-- The callback answers with one argument, where the other is a placeholder.
pub resolve_none_and_unknown-cases :
    (x y r : MappingExpr)
    → resolve_none_and_unknown x y ≡ some r
    → ((is_placeholder x ≡ true) × (y ≡ r)) ⊎ ((is_placeholder y ≡ true) × (x ≡ r))
unfolding resolve_none_and_unknown
resolve_none_and_unknown-cases x y r h = ground arith

resolve-Joins :
    (x y : MappingExpr) (s : Unit {0}) (r : MappingExpr) (s' : Unit {0})
    → stateless resolve_none_and_unknown x y s ≡ some (r, s')
    → Joins x y r
resolve-Joins x y s r s' h =
    let (r', ok, e) = map_option-eq-some _ (resolve_none_and_unknown x y) h in
    let e' : r' ≡ r = ap (λ (p : MappingExpr × Unit {0}). p.0) e in
    elim (resolve_none_and_unknown-cases x y r' ok) [
      | inl (p, q) ↦ (Refines-of_placeholder x r p, subst (Refines y) (q ∙ e') (Refines-refl y))
      | inr (p, q) ↦ (subst (Refines x) (q ∙ e') (Refines-refl x), Refines-of_placeholder y r p)
    ]

-- `sair::Unify` returns an expression that both operands can be turned into by replacing
-- placeholders.
pub unify-Refines :
    (x y r : MappingExpr) → IsValid x → IsValid y → unify x y ≡ some r → Refines x r × Refines y r
unfolding unify
unify-Refines x y r vx vy h =
    let ((r', s'), ok, e) =
      map_option-eq-some _ (unify_with (stateless resolve_none_and_unknown) false x y tt) h in
    let e' : r' ≡ r = e in
    let (a, b) =
      unify_with-Refines (stateless resolve_none_and_unknown) resolve-Joins false x y tt r' s' vx vy
        ok in
    (subst (Refines x) e' a, subst (Refines y) e' b)
