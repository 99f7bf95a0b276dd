-- ===== src/Mapping/Expr/Valid.antt =====
-- What the asserts of `MappingUnStripeExpr::get` require. `MappingStripeExpr::get` asserts only that
-- there is a factor, but `MappingAttr::get` takes the inverse of each expression, and the inverse of
-- a stripe is an unstripe with its factors.
use structured_additive_ir.Common.{ℕ, ◌≤◌, ◌<◌, ◌≡◌, List, [], ◌∷◌, arith, length, take}
use structured_additive_ir.Mapping.Expr.{
  MappingExpr, MappingExprs, dim, none_expr, unknown_expr, stripe, unstripe, nil, cons, to_list,
}

-- Strictly decreasing, and ending with 1.
abbrev pub UnstripeFactors : List ℕ → Type 0
UnstripeFactors [] = ⊥
UnstripeFactors (f ∷ []) = f ≡ 1
UnstripeFactors (f ∷ g ∷ fs) = (g < f) × UnstripeFactors (g ∷ fs)

-- Strictly decreasing, and ending with a positive factor: with a 1 behind them where they do not
-- end with it (`MappingStripeExpr::SetInverse`), the factors are those of an unstripe.
abbrev pub StripeFactors : List ℕ → Type 0
StripeFactors [] = ⊥
StripeFactors (f ∷ []) = 1 ≤ f
StripeFactors (f ∷ g ∷ fs) = (g < f) × StripeFactors (g ∷ fs)

abbrev mutual
  pub IsValid : MappingExpr → Type 0
  IsValid (dim d) = Unit
  IsValid none_expr = Unit
  IsValid unknown_expr = Unit
  IsValid (stripe e fs) = IsValid e × StripeFactors fs
  IsValid (unstripe es fs) = AllValid es × UnstripeFactors fs × (length (to_list es) ≡ length fs)

  pub AllValid : MappingExprs → Type 0
  AllValid nil = Unit
  AllValid (cons e es) = IsValid e × AllValid es

pub UnstripeFactors-pos : (f : ℕ) (fs : List ℕ) → UnstripeFactors (f ∷ fs) → 1 ≤ f
UnstripeFactors-pos f [] h = omega arith
UnstripeFactors-pos f (g ∷ fs) h = omega (arith, UnstripeFactors-pos g fs h.1)

-- No unstripe's factors are a proper prefix of another's.
pub UnstripeFactors-prefix :
    (gs fs : List ℕ) → UnstripeFactors gs → UnstripeFactors fs → gs ≡ take (length gs) fs → gs ≡ fs
UnstripeFactors-prefix [] fs hg hf e = elim hg [ ]
UnstripeFactors-prefix (g ∷ gs) [] hg hf e = elim hf [ ]
UnstripeFactors-prefix (g ∷ []) (f ∷ []) hg hf e = cc
UnstripeFactors-prefix (g ∷ []) (f ∷ f' ∷ fs) hg hf e =
    absurd (ground (arith, UnstripeFactors-pos f' fs hf.1))
UnstripeFactors-prefix (g ∷ g' ∷ gs) (f ∷ []) hg hf e = cc
UnstripeFactors-prefix (g ∷ g' ∷ gs) (f ∷ f' ∷ fs) hg hf e =
    let rest = UnstripeFactors-prefix (g' ∷ gs) (f' ∷ fs) hg.1 hf.1 (cc) in cc
