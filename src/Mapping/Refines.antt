-- ===== src/Mapping/Refines.antt =====
-- The information order of mapping expressions: `Refines e r` when `r` is `e` with its
-- placeholders (`none` and `?`) replaced by expressions. A placeholder that ends the operands of
-- an unstripe may be replaced by any number of operands, since the factors that follow are not
-- fixed by it.
use structured_additive_ir.Common.{
  ℕ, ◌≡◌, refl, ◌∙◌, subst, true, ◌⊎◌, inl, inr, List, [], ◌∷◌, Option, none, some, arith,
}
use structured_additive_ir.Mapping.Expr.{
  MappingExpr, MappingExprs, dim, none_expr, unknown_expr, stripe, unstripe, nil, cons,
  is_placeholder,
}

abbrev pub head? : List ℕ → Option ℕ
head? [] = none
head? (x ∷ xs) = some x

abbrev pub tail : List ℕ → List ℕ
tail [] = []
tail (x ∷ xs) = xs

-- The operands `e ∷ es` are a single placeholder.
abbrev pub IsOpen : MappingExpr → MappingExprs → Type 0
IsOpen e es = (is_placeholder e ≡ true) × (es ≡ nil)

abbrev mutual
  pub Refines : MappingExpr → MappingExpr → Type 0
  Refines (dim d) r = r ≡ dim d
  Refines none_expr r = Unit
  Refines unknown_expr r = Unit
  Refines (stripe e fs) r = (r' : MappingExpr) × (r ≡ stripe r' fs) × Refines e r'
  Refines (unstripe es fs) r =
      (rs : MappingExprs) × (gs : List ℕ) × (r ≡ unstripe rs gs) × RefinesOperands es fs rs gs

  pub RefinesOperands : MappingExprs → List ℕ → MappingExprs → List ℕ → Type 0
  RefinesOperands nil fs nil gs = fs ≡ gs
  RefinesOperands nil fs (cons r rs) gs = ⊥
  RefinesOperands (cons e es) fs nil gs = ⊥
  RefinesOperands (cons e es) fs (cons r rs) gs =
      IsOpen e es
      ⊎ ((head? fs ≡ head? gs) × Refines e r × RefinesOperands es (tail fs) rs (tail gs))

mutual
  refl_of : (e : MappingExpr) → Refines e e
  refl_of (dim d) = refl
  refl_of none_expr = tt
  refl_of unknown_expr = tt
  refl_of (stripe e fs) = (e, refl, refl_of e)
  refl_of (unstripe es fs) = (es, fs, refl, refl_of_operands es fs)

  refl_of_operands : (es : MappingExprs) (fs : List ℕ) → RefinesOperands es fs es fs
  refl_of_operands nil fs = refl
  refl_of_operands (cons e es) fs = inr (refl, refl_of e, refl_of_operands es (tail fs))

pub Refines-refl : (e : MappingExpr) → Refines e e
Refines-refl = refl_of

pub RefinesOperands-refl : (es : MappingExprs) (fs : List ℕ) → RefinesOperands es fs es fs
RefinesOperands-refl = refl_of_operands

-- What a placeholder refines is a placeholder.
pub Refines-placeholder :
    (e r : MappingExpr) → Refines e r → is_placeholder r ≡ true → is_placeholder e ≡ true
Refines-placeholder (dim d) r h p = ground arith
Refines-placeholder none_expr r h p = refl
Refines-placeholder unknown_expr r h p = refl
Refines-placeholder (stripe e fs) r h p = ground arith
Refines-placeholder (unstripe es fs) r h p = ground arith

-- Everything refines a placeholder.
pub Refines-of_placeholder : (e r : MappingExpr) → is_placeholder e ≡ true → Refines e r
Refines-of_placeholder (dim d) r h = cc
Refines-of_placeholder none_expr r h = tt
Refines-of_placeholder unknown_expr r h = tt
Refines-of_placeholder (stripe e fs) r h = cc
Refines-of_placeholder (unstripe es fs) r h = cc

RefinesOperands-nil : (es : MappingExprs) (fs gs : List ℕ) → RefinesOperands es fs nil gs → es ≡ nil
RefinesOperands-nil nil fs gs h = refl
RefinesOperands-nil (cons e es) fs gs h = elim h [ ]

mutual
  trans_of : (a b c : MappingExpr) → Refines a b → Refines b c → Refines a c
  trans_of (dim d) b c h k = subst (λ x. Refines x c) h k
  trans_of none_expr b c h k = tt
  trans_of unknown_expr b c h k = tt
  trans_of (stripe a fs) b c (b', e, h) k =
      let (c', e', k') = subst (λ x. Refines x c) e k in (c', e', trans_of a b' c' h k')
  trans_of (unstripe xs fs) b c (ys, gs, e, h) k =
      let (zs, ks, e', k') = subst (λ x. Refines x c) e k in
      (zs, ks, e', trans_of_operands xs fs ys gs zs ks h k')

  trans_of_operands :
      (xs : MappingExprs) (fs : List ℕ) (ys : MappingExprs) (gs : List ℕ) (zs : MappingExprs)
      (ks : List ℕ)
      → RefinesOperands xs fs ys gs
      → RefinesOperands ys gs zs ks
      → RefinesOperands xs fs zs ks
  trans_of_operands nil fs nil gs nil ks h k = h ∙ k
  trans_of_operands nil fs nil gs (cons c zs) ks h k = elim k [ ]
  trans_of_operands nil fs (cons b ys) gs zs ks h k = elim h [ ]
  trans_of_operands (cons a xs) fs nil gs zs ks h k = elim h [ ]
  trans_of_operands (cons a xs) fs (cons b ys) gs nil ks h k = elim k [ ]
  trans_of_operands (cons a xs) fs (cons b ys) gs (cons c zs) ks (inl o) k = inl o
  trans_of_operands (cons a xs) fs (cons b ys) gs (cons c zs) ks (inr (e, h, hs)) (inl (p, n)) =
      inl (
        Refines-placeholder a b h p,
        RefinesOperands-nil xs (tail fs) (tail gs)
            (subst (λ x. RefinesOperands xs (tail fs) x (tail gs)) n hs),
      )
  trans_of_operands (cons a xs) fs (cons b ys) gs (cons c zs) ks (inr (e, h, hs))
        (inr (e', k, kl)) =
      inr
        (e ∙ e', trans_of a b c h k, trans_of_operands xs (tail fs) ys (tail gs) zs (tail ks) hs kl)

pub Refines-trans : (a b c : MappingExpr) → Refines a b → Refines b c → Refines a c
Refines-trans = trans_of
