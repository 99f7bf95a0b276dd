-- ===== src/Mapping/Expr/Substitute.antt =====
-- Laws of `SubstituteDims`.
use structured_additive_ir.Common.{
  ℕ, ◌<◌, ◌≡◌, refl, sym, ap, ap₂, ◌∙◌, subst, Bool-cases, inl, inr, List, map, arith, length,
  length-map, get_or, get_or-map, get_or_of_le, leb,
}
use structured_additive_ir.Mapping.Expr.{
  MappingExpr, MappingExprs, dim, none_expr, unknown_expr, stripe, unstripe, nil, cons, map_exprs,
  substitution, substitute_dims,
}
use structured_additive_ir.Mapping.Expr.Leaves.{Leaves, LeavesAll, DimBelow, Below}

-- `substitute_dims` with the operands of an unstripe at once.
abbrev pub substitute_all : MappingExprs → List MappingExpr → MappingExprs
substitute_all es exprs = map_exprs (substitution exprs) es

-- What a dimension turns into; past the end it is `none`.
pub substitute_dims-dim :
    (d : ℕ) (exprs : List MappingExpr) → substitute_dims (dim d) exprs ≡ get_or exprs d none_expr
unfolding substitute_dims
substitute_dims-dim d exprs = elim (Bool-cases (leb (length exprs) d)) [
  | inl out ↦ ground (arith, get_or_of_le exprs d none_expr)
  | inr inside ↦ rw inside
]

mutual
  unfolding substitute_dims

  substitute_dims-substitute :
      (e : MappingExpr) (s t : List MappingExpr)
      → substitute_dims (substitute_dims e s) t
        ≡ substitute_dims e (map (λ x. substitute_dims x t) s)
  substitute_dims-substitute (dim d) s t = elim (Bool-cases (leb (length s) d)) [
    | inl out ↦ rw (length-map (λ x. substitute_dims x t) s, out)
    | inr inside ↦
        rw (length-map (λ x. substitute_dims x t) s, inside)
          (sym (get_or-map (λ x. substitute_dims x t) s d none_expr))
  ]
  substitute_dims-substitute none_expr s t = refl
  substitute_dims-substitute unknown_expr s t = refl
  substitute_dims-substitute (stripe e fs) s t =
      ap (λ x. stripe x fs) (substitute_dims-substitute e s t)
  substitute_dims-substitute (unstripe es fs) s t =
      ap (λ xs. unstripe xs fs) (substitute_all-substitute es s t)

  substitute_all-substitute :
      (es : MappingExprs) (s t : List MappingExpr)
      → substitute_all (substitute_all es s) t
        ≡ substitute_all es (map (λ x. substitute_dims x t) s)
  substitute_all-substitute nil s t = refl
  substitute_all-substitute (cons e es) s t =
      ap₂ cons (substitute_dims-substitute e s t) (substitute_all-substitute es s t)

-- Substituting twice is substituting once, with the first substitution's expressions substituted.
pub substitute_dims-compose :
    (e : MappingExpr) (s t : List MappingExpr)
    → substitute_dims (substitute_dims e s) t ≡ substitute_dims e (map (λ x. substitute_dims x t) s)
substitute_dims-compose = substitute_dims-substitute

mutual
  unfolding substitute_dims

  substitute_dims-agree :
      (e : MappingExpr) (n : ℕ) (s t : List MappingExpr)
      → Below n e
      → ((d : ℕ) → d < n → get_or s d none_expr ≡ get_or t d none_expr)
      → substitute_dims e s ≡ substitute_dims e t
  substitute_dims-agree (dim d) n s t h agree =
      substitute_dims-dim d s ∙ agree d h ∙ sym (substitute_dims-dim d t)
  substitute_dims-agree none_expr n s t h agree = refl
  substitute_dims-agree unknown_expr n s t h agree = refl
  substitute_dims-agree (stripe e fs) n s t h agree =
      ap (λ x. stripe x fs) (substitute_dims-agree e n s t h agree)
  substitute_dims-agree (unstripe es fs) n s t h agree =
      ap (λ xs. unstripe xs fs) (substitute_all-agree es n s t h agree)

  substitute_all-agree :
      (es : MappingExprs) (n : ℕ) (s t : List MappingExpr)
      → LeavesAll (DimBelow n) es
      → ((d : ℕ) → d < n → get_or s d none_expr ≡ get_or t d none_expr)
      → substitute_all es s ≡ substitute_all es t
  substitute_all-agree nil n s t h agree = refl
  substitute_all-agree (cons e es) n s t h agree =
      ap₂ cons (substitute_dims-agree e n s t h.0 agree) (substitute_all-agree es n s t h.1 agree)

-- Only the expressions for the dimensions that occur matter.
pub substitute_dims-congr :
    (e : MappingExpr) (n : ℕ) (s t : List MappingExpr)
    → Below n e
    → ((d : ℕ) → d < n → get_or s d none_expr ≡ get_or t d none_expr)
    → substitute_dims e s ≡ substitute_dims e t
substitute_dims-congr = substitute_dims-agree

mutual
  unfolding substitute_dims

  substitute_dims-fixes :
      (e : MappingExpr) (s : List MappingExpr) (n : ℕ)
      → Below n e
      → ((d : ℕ) → d < n → get_or s d none_expr ≡ dim d)
      → substitute_dims e s ≡ e
  substitute_dims-fixes (dim d) s n h fixes = substitute_dims-dim d s ∙ fixes d h
  substitute_dims-fixes none_expr s n h fixes = refl
  substitute_dims-fixes unknown_expr s n h fixes = refl
  substitute_dims-fixes (stripe e fs) s n h fixes =
      ap (λ x. stripe x fs) (substitute_dims-fixes e s n h fixes)
  substitute_dims-fixes (unstripe es fs) s n h fixes =
      ap (λ xs. unstripe xs fs) (substitute_all-fixes es s n h fixes)

  substitute_all-fixes :
      (es : MappingExprs) (s : List MappingExpr) (n : ℕ)
      → LeavesAll (DimBelow n) es
      → ((d : ℕ) → d < n → get_or s d none_expr ≡ dim d)
      → substitute_all es s ≡ es
  substitute_all-fixes nil s n h fixes = refl
  substitute_all-fixes (cons e es) s n h fixes =
      ap₂ cons (substitute_dims-fixes e s n h.0 fixes) (substitute_all-fixes es s n h.1 fixes)

-- A substitution that maps each dimension below `n` to itself fixes an expression over them.
pub substitute_dims_self :
    (e : MappingExpr) (s : List MappingExpr) (n : ℕ)
    → Below n e
    → ((d : ℕ) → d < n → get_or s d none_expr ≡ dim d)
    → substitute_dims e s ≡ e
substitute_dims_self = substitute_dims-fixes

-- Leaf predicates under substitution: the new leaves are those of the substituted expressions,
-- `none` for a dimension past the end, and the old placeholders.
module _ (P Q : MappingExpr → Type 0) (s : List MappingExpr)
    (on_dim : (d : ℕ) → P (dim d) → Leaves Q (get_or s d none_expr))
    (on_none : P none_expr → Q none_expr) (on_unknown : P unknown_expr → Q unknown_expr) where
  mutual
    unfolding substitute_dims

    substitute-Leaves : (e : MappingExpr) → Leaves P e → Leaves Q (substitute_dims e s)
    substitute-Leaves (dim d) h = subst (Leaves Q) (sym (substitute_dims-dim d s)) (on_dim d h)
    substitute-Leaves none_expr h = on_none h
    substitute-Leaves unknown_expr h = on_unknown h
    substitute-Leaves (stripe e fs) h = substitute-Leaves e h
    substitute-Leaves (unstripe es fs) h = substitute_all_leaves es h

    substitute_all_leaves : (es : MappingExprs) → LeavesAll P es → LeavesAll Q (substitute_all es s)
    substitute_all_leaves nil h = tt
    substitute_all_leaves (cons e es) h = (substitute-Leaves e h.0, substitute_all_leaves es h.1)

  pub substitute_dims-Leaves : (e : MappingExpr) → Leaves P e → Leaves Q (substitute_dims e s)
  substitute_dims-Leaves = substitute-Leaves
