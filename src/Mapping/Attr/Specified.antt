-- ===== src/Mapping/Attr/Specified.antt =====
-- `MakeFullySpecified`.
use structured_additive_ir.Common.{
  ℕ, ◌≡◌, refl, sym, subst, false, inr, List, [], ◌∷◌, get_or-map, length-map, All, map,
}
use structured_additive_ir.Mapping.Expr.{
  MappingExpr, MappingExprs, dim, none_expr, unknown_expr, stripe, unstripe, nil, cons, map_expr,
  map_exprs, has_unknown_exprs as expr_has_unknown_exprs,
}
use structured_additive_ir.Mapping.Expr.Leaves.{
  Leaves, LeavesAll, NotUnknown, has_unknown_exprs-false_iff,
}
use structured_additive_ir.Mapping.Refines.{Refines, RefinesOperands, tail}
use structured_additive_ir.Mapping.Attr.{
  MappingAttr, size, dimension, has_unknown_exprs, unknown_to_none, make_fully_specified,
}
use structured_additive_ir.Mapping.Attr.Surjective.{any-false_iff}

-- `Specifies e r`: `r` is built like `e`, with the same dimensions and factors, and has `none` for
-- the `none` leaves of `e` and for its `?` leaves.
abbrev mutual
  pub Specifies : MappingExpr → MappingExpr → Type 0
  Specifies (dim d) r = r ≡ dim d
  Specifies none_expr r = r ≡ none_expr
  Specifies unknown_expr r = r ≡ none_expr
  Specifies (stripe e fs) r = (r' : MappingExpr) × (r ≡ stripe r' fs) × Specifies e r'
  Specifies (unstripe es fs) r = (rs : MappingExprs) × (r ≡ unstripe rs fs) × SpecifiesAll es rs

  pub SpecifiesAll : MappingExprs → MappingExprs → Type 0
  SpecifiesAll nil rs = rs ≡ nil
  SpecifiesAll (cons e es) rs =
      (r : MappingExpr) × (rs' : MappingExprs) × (rs ≡ cons r rs')
      × Specifies e r
      × SpecifiesAll es rs'

mutual
  unfolding map_expr

  Specifies-map_expr : (e : MappingExpr) → Specifies e (map_expr unknown_to_none e)
  Specifies-map_expr (dim d) = refl
  Specifies-map_expr none_expr = refl
  Specifies-map_expr unknown_expr = refl
  Specifies-map_expr (stripe e fs) = (map_expr unknown_to_none e, refl, Specifies-map_expr e)
  Specifies-map_expr (unstripe es fs) =
      (map_exprs unknown_to_none es, refl, SpecifiesAll-map_exprs es)

  SpecifiesAll-map_exprs : (es : MappingExprs) → SpecifiesAll es (map_exprs unknown_to_none es)
  SpecifiesAll-map_exprs nil = refl
  SpecifiesAll-map_exprs (cons e es) = (
    map_expr unknown_to_none e,
    map_exprs unknown_to_none es,
    refl,
    Specifies-map_expr e,
    SpecifiesAll-map_exprs es,
  )

mutual
  unfolding map_expr

  specify_expr :
      (e : MappingExpr)
      → Leaves NotUnknown (map_expr unknown_to_none e) × Refines (map_expr unknown_to_none e) e
  specify_expr (dim d) = (refl, refl)
  specify_expr none_expr = (refl, tt)
  specify_expr unknown_expr = (refl, tt)
  specify_expr (stripe e fs) = let (a, b) = specify_expr e in (a, (e, refl, b))
  specify_expr (unstripe es fs) = let (a, b) = specify_exprs es fs in (a, (es, fs, refl, b))

  specify_exprs :
      (es : MappingExprs) (fs : List ℕ)
      → LeavesAll NotUnknown (map_exprs unknown_to_none es)
        × RefinesOperands (map_exprs unknown_to_none es) fs es fs
  specify_exprs nil fs = (tt, refl)
  specify_exprs (cons e es) fs =
      let (a, b) = specify_expr e in
      let (c, d) = specify_exprs es (tail fs) in ((a, c), inr (refl, b, d))

specify_exprs-All :
    (es : List MappingExpr) → All (Leaves NotUnknown) (map (map_expr unknown_to_none) es)
specify_exprs-All [] = tt
specify_exprs-All (e ∷ es) = ((specify_expr e).0, specify_exprs-All es)

-- `MakeFullySpecified` leaves no `?`, keeps the use domain and the number of expressions, and makes
-- each expression what it was with `none` for the `?` leaves and nothing else changed, which is
-- less information.
pub make_fully_specified_lem :
    (m : MappingAttr) (i : ℕ)
    → (has_unknown_exprs (make_fully_specified m) ≡ false)
      × ((make_fully_specified m).use_domain_size ≡ m.use_domain_size)
      × (size (make_fully_specified m) ≡ size m)
      × Specifies (dimension m i) (dimension (make_fully_specified m) i)
      × Refines (dimension (make_fully_specified m) i) (dimension m i)
unfolding has_unknown_exprs make_fully_specified
make_fully_specified_lem m i =
    let at_i = get_or-map (map_expr unknown_to_none) m.dimensions i none_expr in
    (
      (any-false_iff expr_has_unknown_exprs (Leaves NotUnknown) has_unknown_exprs-false_iff _).1
          (specify_exprs-All m.dimensions),
      refl,
      length-map (map_expr unknown_to_none) m.dimensions,
      subst (Specifies (dimension m i)) (sym at_i) (Specifies-map_expr (dimension m i)),
      subst (λ x. Refines x (dimension m i)) (sym at_i) (specify_expr (dimension m i)).1,
    )
