-- ===== src/Mapping/Constraints.antt =====
-- `UnificationConstraints` of sair_attributes.cc.
use structured_additive_ir.Common.{
  ℕ, ◌-◌, false, ◌&&◌, Option, none, some, List, [], ◌∷◌, length, get_or, set, ltb, leb,
  if◌then◌else◌, ◌>>=◌,
}
use structured_additive_ir.Mapping.Expr.{MappingExpr, dim, none_expr}
use structured_additive_ir.Mapping.Unify.{resolve_none_and_unknown, unify, unify_with}
use structured_additive_ir.Mapping.Attr.{MappingAttr, shift_right}

-- The callback, where no expression is `none` or `?`. A state is the constraints, or `none` after an
-- access out of their range: the unstripe case may hand the callback a dimension of `rhs`, which is
-- not shifted.
unfoldable pub constrain :
    ℕ
    → MappingExpr
    → MappingExpr
    → List MappingExpr
    → Option (MappingExpr × Option (List MappingExpr))
unfolding unify
constrain shift (dim d) sub_rhs constraints =
    if leb shift d && ltb (d - shift) (length constraints)
    then (unify (get_or constraints (d - shift) none_expr) sub_rhs >>= λ constraint.
        some (dim d, some (set constraints (d - shift) constraint)))
    else some (dim d, none)
constrain shift sub_lhs sub_rhs constraints = none

-- Nothing changes after an access out of range.
unfoldable pub on_mismatch :
    ℕ
    → MappingExpr
    → MappingExpr
    → Option (List MappingExpr)
    → Option (MappingExpr × Option (List MappingExpr))
unfolding resolve_none_and_unknown constrain
on_mismatch shift sub_lhs sub_rhs none = some (sub_lhs, none)
on_mismatch shift sub_lhs sub_rhs (some constraints) =
    elim (resolve_none_and_unknown sub_lhs sub_rhs) [
      | none ↦ constrain shift sub_lhs sub_rhs constraints
      | some resolved ↦ some (resolved, some constraints)
    ]

-- The loop over both mappings.
unfoldable pub constrain_exprs :
    ℕ
    → List MappingExpr
    → List MappingExpr
    → Option (List MappingExpr)
    → Option (Option (List MappingExpr))
unfolding unify_with on_mismatch
constrain_exprs shift [] rhs s = some s
constrain_exprs shift (x ∷ xs) [] s = some s
constrain_exprs shift (x ∷ xs) (y ∷ ys) s =
    let rest = constrain_exprs shift xs ys in
    unify_with (on_mismatch shift) false x y s >>= λ (e, s'). rest s'

pub data Constrained : Type 0 where
  constrained : List MappingExpr → Constrained
  not_unified : Constrained
  out_of_range : Constrained

unfoldable pub unification_constraints : MappingAttr → MappingAttr → List MappingExpr → Constrained
unfolding shift_right constrain_exprs
unification_constraints lhs rhs constraints =
    let shift = rhs.use_domain_size in
    let shifted = shift_right lhs shift 0 in
    elim (constrain_exprs shift shifted.dimensions rhs.dimensions (some constraints)) [
      | none ↦ not_unified
      | some s ↦ elim s [ none ↦ out_of_range | some result ↦ constrained result ]
    ]
