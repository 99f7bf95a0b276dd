-- ===== src/Mapping/Expr/Leaves.antt =====
-- Predicates on the leaves of an expression, and what the walks of `MinDomainSize`,
-- `HasNoneExprs` and `HasUnknownExprs` compute.
use structured_additive_ir.Common.{
  ℕ, ◌+◌, ◌≤◌, ◌<◌, max, ◌≡◌, refl, Bool, false, ◌||◌, ◌↔◌, List, [], ◌∷◌, foldl, arith, All,
  All-append,
}
use structured_additive_ir.Mapping.Expr.{
  MappingExpr, MappingExprs, dim, none_expr, unknown_expr, stripe, unstripe, nil, cons, is_none,
  is_unknown, walk, walk_all, has_none_exprs, has_unknown_exprs, max_dim, min_domain_size,
}

-- `P` holds of every dimension and placeholder of the expression.
abbrev mutual
  pub Leaves : (MappingExpr → Type 0) → MappingExpr → Type 0
  Leaves P (dim d) = P (dim d)
  Leaves P none_expr = P none_expr
  Leaves P unknown_expr = P unknown_expr
  Leaves P (stripe e fs) = Leaves P e
  Leaves P (unstripe es fs) = LeavesAll P es

  pub LeavesAll : (MappingExpr → Type 0) → MappingExprs → Type 0
  LeavesAll P nil = Unit
  LeavesAll P (cons e es) = Leaves P e × LeavesAll P es

-- Every dimension that occurs is below `n`.
abbrev pub DimBelow : ℕ → MappingExpr → Type 0
DimBelow n (dim d) = d < n
DimBelow n _ = Unit

abbrev pub Below : ℕ → MappingExpr → Type 0
Below n = Leaves (DimBelow n)

abbrev pub NotNone : MappingExpr → Type 0
NotNone e = is_none e ≡ false

abbrev pub NotUnknown : MappingExpr → Type 0
NotUnknown e = is_unknown e ≡ false

module _ (P Q : MappingExpr → Type 0) (imp : (e : MappingExpr) → P e → Q e) where
  mutual
    Leaves-imp' : (e : MappingExpr) → Leaves P e → Leaves Q e
    Leaves-imp' (dim d) h = imp (dim d) h
    Leaves-imp' none_expr h = imp none_expr h
    Leaves-imp' unknown_expr h = imp unknown_expr h
    Leaves-imp' (stripe e fs) h = Leaves-imp' e h
    Leaves-imp' (unstripe es fs) h = LeavesAll-imp' es h

    LeavesAll-imp' : (es : MappingExprs) → LeavesAll P es → LeavesAll Q es
    LeavesAll-imp' nil h = tt
    LeavesAll-imp' (cons e es) h = (Leaves-imp' e h.0, LeavesAll-imp' es h.1)

  pub Leaves-imp : (e : MappingExpr) → Leaves P e → Leaves Q e
  Leaves-imp = Leaves-imp'

  pub LeavesAll-imp : (es : MappingExprs) → LeavesAll P es → LeavesAll Q es
  LeavesAll-imp = LeavesAll-imp'

pub DimBelow-mono : (n n' : ℕ) → n ≤ n' → (e : MappingExpr) → DimBelow n e → DimBelow n' e
DimBelow-mono n n' le (dim d) h = omega arith
DimBelow-mono n n' le none_expr h = tt
DimBelow-mono n n' le unknown_expr h = tt
DimBelow-mono n n' le (stripe e fs) h = tt
DimBelow-mono n n' le (unstripe es fs) h = tt

pub Below-mono : (n n' : ℕ) → n ≤ n' → (e : MappingExpr) → Below n e → Below n' e
Below-mono n n' le = Leaves-imp (DimBelow n) (DimBelow n') (DimBelow-mono n n' le)

-- A predicate that asks nothing of stripes and unstripes holds along the walk if it holds of the
-- leaves, and conversely.
module _ (P : MappingExpr → Type 0) (on_stripe : (e : MappingExpr) (fs : List ℕ) → P (stripe e fs))
    (on_unstripe : (es : MappingExprs) (fs : List ℕ) → P (unstripe es fs)) where
  mutual
    unfolding walk

    pub walk-Leaves : (e : MappingExpr) → All P (walk e) ↔ Leaves P e
    walk-Leaves (dim d) = (λ h. h.0, λ h. (h, tt))
    walk-Leaves none_expr = (λ h. h.0, λ h. (h, tt))
    walk-Leaves unknown_expr = (λ h. h.0, λ h. (h, tt))
    walk-Leaves (stripe e fs) = (
      λ h. (walk-Leaves e).0 ((All-append P (walk e) _).0 h).0,
      λ h. (All-append P (walk e) _).1 ((walk-Leaves e).1 h, (on_stripe e fs, tt)),
    )
    walk-Leaves (unstripe es fs) = (
      λ h. (walk_all-leaves es).0 ((All-append P (walk_all es) _).0 h).0,
      λ h. (All-append P (walk_all es) _).1 ((walk_all-leaves es).1 h, (on_unstripe es fs, tt)),
    )

    walk_all-leaves : (es : MappingExprs) → All P (walk_all es) ↔ LeavesAll P es
    walk_all-leaves nil = (λ h. h, λ h. h)
    walk_all-leaves (cons e es) = (
      λ h.
          let (a, b) = (All-append P (walk e) _).0 h in
          ((walk-Leaves e).0 a, (walk_all-leaves es).0 b),
      λ h. (All-append P (walk e) _).1 ((walk-Leaves e).1 h.0, (walk_all-leaves es).1 h.1),
    )

foldl_max-le_iff :
    (n m : ℕ) (xs : List MappingExpr) → (foldl max_dim m xs ≤ n) ↔ ((m ≤ n) × All (DimBelow n) xs)
foldl_max-le_iff n m [] = (λ h. (h, tt), λ h. h.0)
foldl_max-le_iff n m (dim d ∷ xs) = grind (arith, foldl_max-le_iff n (max m (d + 1)) xs)
foldl_max-le_iff n m (none_expr ∷ xs) = grind (arith, foldl_max-le_iff n m xs)
foldl_max-le_iff n m (unknown_expr ∷ xs) = grind (arith, foldl_max-le_iff n m xs)
foldl_max-le_iff n m (stripe e fs ∷ xs) = grind (arith, foldl_max-le_iff n m xs)
foldl_max-le_iff n m (unstripe es fs ∷ xs) = grind (arith, foldl_max-le_iff n m xs)

-- `MinDomainSize` is the least domain size that covers the dimensions of the expression.
pub min_domain_size-le_iff : (e : MappingExpr) (n : ℕ) → (min_domain_size e ≤ n) ↔ Below n e
unfolding min_domain_size
min_domain_size-le_iff e n =
    let leaves = walk-Leaves (DimBelow n) (λ _ _. tt) (λ _ _. tt) e in
    (
      λ h. leaves.0 ((foldl_max-le_iff n 0 (walk e)).0 h).1,
      λ h. (foldl_max-le_iff n 0 (walk e)).1 (omega arith, leaves.1 h),
    )

foldl_or-false_iff :
    (p : MappingExpr → Bool) (found : Bool) (xs : List MappingExpr)
    → (foldl (λ b sub. b || p sub) found xs ≡ false) ↔ ((found ≡ false) × All (λ e. p e ≡ false) xs)
foldl_or-false_iff p found [] = (λ h. (h, tt), λ h. h.0)
foldl_or-false_iff p found (x ∷ xs) = ground (arith, foldl_or-false_iff p (found || p x) xs)

-- `HasNoneExprs` is false exactly when no leaf is `none`.
pub has_none_exprs-false_iff : (e : MappingExpr) → (has_none_exprs e ≡ false) ↔ Leaves NotNone e
unfolding has_none_exprs
has_none_exprs-false_iff e =
    let leaves = walk-Leaves NotNone (λ _ _. refl) (λ _ _. refl) e in
    (
      λ h. leaves.0 ((foldl_or-false_iff is_none false (walk e)).0 h).1,
      λ h. (foldl_or-false_iff is_none false (walk e)).1 (refl, leaves.1 h),
    )

-- `HasUnknownExprs` is false exactly when no leaf is `?`.
pub has_unknown_exprs-false_iff :
    (e : MappingExpr) → (has_unknown_exprs e ≡ false) ↔ Leaves NotUnknown e
unfolding has_unknown_exprs
has_unknown_exprs-false_iff e =
    let leaves = walk-Leaves NotUnknown (λ _ _. refl) (λ _ _. refl) e in
    (
      λ h. leaves.0 ((foldl_or-false_iff is_unknown false (walk e)).0 h).1,
      λ h. (foldl_or-false_iff is_unknown false (walk e)).1 (refl, leaves.1 h),
    )
