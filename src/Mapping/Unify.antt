-- ===== src/Mapping/Unify.antt =====
-- Unification of mapping expressions: the `Unify` methods and `sair::Unify` of sair_attributes.cc.
pub mod Refine
pub mod Valid
use structured_additive_ir.Common.{
  ℕ, zero, suc, ◌+◌, ◌-◌, Bool, true, false, not, ◌||◌, Option, none, some, List, [], ◌∷◌, map,
  length, take, get_or, set, leb, map_option, ◌>>=◌, if◌then◌else◌, ite,
}
use structured_additive_ir.Mapping.Expr.{
  MappingExpr, MappingExprs, dim, none_expr, unknown_expr, stripe, unstripe, nil, cons, to_list,
  is_none, is_unknown, is_placeholder, MappingExpr-discrete, factors-discrete,
}

-- `operands.back()`; an unstripe has at least one operand.
abbrev pub last_or : MappingExpr → MappingExprs → MappingExpr
last_or d nil = d
last_or d (cons e es) = last_or e es

abbrev pub drop_last {ℓ} : {A : Type ℓ} → List A → List A
drop_last [] = []
drop_last (x ∷ []) = []
drop_last (x ∷ y ∷ xs) = x ∷ drop_last (y ∷ xs)

-- `S` is what the callback mutates; `none` is the null expression, that is, a failure.
module _ {S : Type 0} (on_mismatch : MappingExpr → MappingExpr → S → Option (MappingExpr × S)) where
  -- The receiver of `Unify` is the second expression if `swapped`, so the recursion is on the
  -- first one whichever way the unstripe case turns the call.
  abbrev pub mismatch : Bool → MappingExpr → MappingExpr → S → Option (MappingExpr × S)
  mismatch swapped x y s = if swapped then on_mismatch y x s else on_mismatch x y s

  unfoldable mutual
    pub unify_with : Bool → MappingExpr → MappingExpr → S → Option (MappingExpr × S)
    unify_with swapped (dim d) y s =
        ite (MappingExpr-discrete y (dim d)) (some (dim d, s)) (mismatch swapped (dim d) y s)
    unify_with swapped none_expr y s =
        ite (MappingExpr-discrete y none_expr) (some (none_expr, s))
          (mismatch swapped none_expr y s)
    unify_with swapped unknown_expr y s =
        ite (MappingExpr-discrete y unknown_expr) (some (unknown_expr, s))
          (mismatch swapped unknown_expr y s)
    unify_with swapped (stripe e fs) (stripe y gs) s =
        let operand = unify_with swapped e y s in
        ite (factors-discrete fs gs) (map_option (λ (u, s'). (stripe u fs, s')) operand)
          (mismatch swapped (stripe e fs) (stripe y gs) s)
    unify_with swapped (stripe e fs) y s = mismatch swapped (stripe e fs) y s
    -- The operands with most factors are kept, the receiver's if there are as many. A placeholder
    -- that ends the other operands stands for any number of them.
    unify_with swapped (unstripe es fs) (unstripe ys gs) s =
        let keep_first =
          if swapped then not (leb (length fs) (length gs)) else leb (length gs) (length fs) in
        let new_factors = if keep_first then fs else gs in
        let min_operands = if keep_first then ys else es in
        let open_end = is_placeholder (last_or none_expr min_operands) in
        let min_factors =
          (let factors = if keep_first then gs else fs in
            if open_end then drop_last factors else factors) in
        let count = length (to_list min_operands) - (if open_end then 1 else 0) in
        let operands = unify_operands keep_first count es ys s in
        ite (factors-discrete min_factors (take (length min_factors) new_factors))
          (map_option (λ (us, s'). (unstripe us new_factors, s')) operands)
          (mismatch swapped (unstripe es fs) (unstripe ys gs) s)
    unify_with swapped (unstripe es fs) y s = mismatch swapped (unstripe es fs) y s

    -- Unifies the first `count` operands. The operands that are kept are the receivers.
    pub unify_operands : Bool → ℕ → MappingExprs → MappingExprs → S → Option (MappingExprs × S)
    unify_operands keep_first count nil ys s = some (if keep_first then nil else ys, s)
    unify_operands keep_first zero (cons e es) ys s = some (if keep_first then cons e es else ys, s)
    unify_operands keep_first (suc count) (cons e es) nil s =
        some (if keep_first then cons e es else nil, s)
    unify_operands keep_first (suc count) (cons e es) (cons y ys) s =
        let tail = unify_operands keep_first count es ys in
        unify_with (not keep_first) e y s >>= λ (u, s').
        map_option (λ (us, s''). (cons u us, s'')) (tail s')

-- `ResolveNoneAndUnknownUnification`.
unfoldable pub resolve_none_and_unknown : MappingExpr → MappingExpr → Option MappingExpr
resolve_none_and_unknown lhs rhs =
    if is_none lhs
    then some rhs
    else if is_none rhs
    then some lhs
    else if is_unknown lhs
    then some rhs
    else if is_unknown rhs
    then some lhs
    else none

-- A callback that mutates nothing.
abbrev pub stateless :
    (MappingExpr → MappingExpr → Option MappingExpr)
    → MappingExpr
    → MappingExpr
    → Unit {0}
    → Option (MappingExpr × Unit {0})
stateless f lhs rhs s = map_option (λ e. (e, s)) (f lhs rhs)

abbrev pub unify_stateless :
    (MappingExpr → MappingExpr → Option MappingExpr)
    → MappingExpr
    → MappingExpr
    → Option MappingExpr
unify_stateless f lhs rhs = map_option (λ (e, _). e) (unify_with (stateless f) false lhs rhs tt)

unfoldable pub unify : MappingExpr → MappingExpr → Option MappingExpr
unfolding unify_with resolve_none_and_unknown
unify lhs rhs = unify_stateless resolve_none_and_unknown lhs rhs

-- The callback of `MappingAttr::UnifyUnknownExprs`.
unfoldable pub resolve_unknown : MappingExpr → MappingExpr → Option MappingExpr
resolve_unknown lhs rhs =
    if is_unknown lhs then some rhs else if is_unknown rhs then some lhs else none
