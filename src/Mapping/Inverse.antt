-- ===== src/Mapping/Inverse.antt =====
-- `SetInverse` and `FindInInverse` (sair_attributes.cc, sair_attributes.h).
pub mod Grows
pub mod Finds
use structured_additive_ir.Common.{
  ℕ, zero, suc, ◌+◌, ◌-◌, Bool, true, false, Option, none, some, List, [], ◌∷◌, ◌++◌, length, take,
  get_or, set, replicate, ◌==◌, if◌then◌else◌, map_option, ◌>>=◌,
}
use structured_additive_ir.Mapping.Expr.{
  MappingExpr, MappingExprs, dim, none_expr, unknown_expr, stripe, unstripe, nil, cons, to_list,
  of_list, is_placeholder,
}
use structured_additive_ir.Mapping.Unify.{unify}

-- `factors.back()`; a stripe has at least one factor.
abbrev pub last_factor : List ℕ → ℕ
last_factor [] = 1
last_factor (f ∷ []) = f
last_factor (f ∷ g ∷ fs) = last_factor (g ∷ fs)

-- The operands and factors of the unstripe that `MappingStripeExpr::SetInverse` builds: `none` for
-- the outer stripes, and for the inner one if the factors do not end with 1.
unfoldable pub inverse_operands : MappingExpr → List ℕ → List MappingExpr
inverse_operands context fs =
    replicate (length fs - 1) none_expr
    ++ context ∷ (if last_factor fs == 1 then [] else none_expr ∷ [])

unfoldable pub inverse_factors : List ℕ → List ℕ
inverse_factors fs = if last_factor fs == 1 then fs else fs ++ 1 ∷ []

-- `none` is a failure. The inverses are one for each dimension of the domain.
unfoldable mutual
  pub set_inverse : MappingExpr → MappingExpr → List MappingExpr → Option (List MappingExpr)
  set_inverse (dim d) context inverses =
      map_option (λ inverse. set inverses d inverse) (unify (get_or inverses d none_expr) context)
  set_inverse none_expr context inverses = some inverses
  set_inverse unknown_expr context inverses = some inverses
  set_inverse (stripe e fs) context inverses =
      set_inverse e (unstripe (of_list (inverse_operands context fs)) (inverse_factors fs)) inverses
  set_inverse (unstripe es fs) context inverses = set_inverse_operands es 0 fs context inverses

  -- The loop over the operands of an unstripe, from operand `i` on.
  pub set_inverse_operands :
      MappingExprs → ℕ → List ℕ → MappingExpr → List MappingExpr → Option (List MappingExpr)
  set_inverse_operands nil i fs context inverses = some inverses
  set_inverse_operands (cons e es) i fs context inverses =
      set_inverse e (stripe context (take (i + 1) fs)) inverses
      >>= set_inverse_operands es (i + 1) fs context

-- `cast<MappingUnStripeExpr>().operands()[i]`, where the cast is valid.
abbrev pub unstripe_operand : MappingExpr → ℕ → MappingExpr
unstripe_operand (unstripe es fs) i = get_or (to_list es) i none_expr
unstripe_operand _ i = none_expr

-- `cast<MappingStripeExpr>().operand()`, where the cast is valid.
abbrev pub stripe_operand : MappingExpr → MappingExpr
stripe_operand (stripe e fs) = e
stripe_operand _ = none_expr

unfoldable mutual
  pub find_in_inverse : MappingExpr → List MappingExpr → MappingExpr
  find_in_inverse (dim d) inverse = get_or inverse d none_expr
  find_in_inverse none_expr inverse = none_expr
  find_in_inverse unknown_expr inverse = unknown_expr
  find_in_inverse (stripe e fs) inverse =
      let operand_inverse = find_in_inverse e inverse in
      if is_placeholder operand_inverse
      then operand_inverse
      else unstripe_operand operand_inverse (length fs - 1)
  find_in_inverse (unstripe es fs) inverse = find_in_operands es none_expr inverse

  -- The loop over the operands of an unstripe; the second argument is `operand_inverse`.
  pub find_in_operands : MappingExprs → MappingExpr → List MappingExpr → MappingExpr
  find_in_operands nil operand_inverse inverse = operand_inverse
  find_in_operands (cons e es) operand_inverse inverse =
      let found = find_in_inverse e inverse in
      let rest = find_in_operands es found inverse in
      if is_placeholder found then rest else stripe_operand found
