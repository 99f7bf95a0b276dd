-- ===== src/Mapping/Expr.antt =====
-- Mapping expressions: the interface of sair_base.td and its implementations in
-- sair_attributes.h and sair_attributes.cc. `dimension` is an index and the stripe factors are
-- sizes, so both are numbers. The context that interns attributes is not modelled: two attributes
-- are equal when they are built alike, which is what interning makes pointer equality decide.
pub mod Valid
pub mod Leaves
pub mod Substitute
use structured_additive_ir.Common.{
  ℕ, zero, suc, ◌+◌, ◌-◌, ◌≤◌, ◌<◌, max, ◌≡◌, refl, Bool, true, false, ◌&&◌, ◌||◌, not, Option,
  none, some, List, [], ◌∷◌, ◌++◌, map, foldl, ℕ_discrete, arith, length, get_or, set, replicate,
  leb, if◌then◌else◌, ite,
}

mutual
  pub data MappingExpr : Type 0 where
    dim : ℕ → MappingExpr
    none_expr : MappingExpr
    unknown_expr : MappingExpr
    stripe : MappingExpr → List ℕ → MappingExpr
    unstripe : MappingExprs → List ℕ → MappingExpr

  -- The operands of an unstripe expression.
  pub data MappingExprs : Type 0 where
    nil : MappingExprs
    cons : MappingExpr → MappingExprs → MappingExprs

unfoldable pub MappingExpr-discrete : Discrete MappingExpr
MappingExpr-discrete = hlevel ℕ_discrete

unfoldable pub factors-discrete : Discrete (List ℕ)
factors-discrete = hlevel ℕ_discrete

abbrev pub to_list : MappingExprs → List MappingExpr
to_list nil = []
to_list (cons e es) = e ∷ to_list es

abbrev pub of_list : List MappingExpr → MappingExprs
of_list [] = nil
of_list (e ∷ es) = cons e (of_list es)

abbrev pub is_none : MappingExpr → Bool
is_none none_expr = true
is_none _ = false

abbrev pub is_unknown : MappingExpr → Bool
is_unknown unknown_expr = true
is_unknown _ = false

-- `isa<MappingNoneExpr, MappingUnknownExpr>()`.
abbrev pub is_placeholder : MappingExpr → Bool
is_placeholder e = is_none e || is_unknown e

-- `Map`, for a callback that keeps no state.
unfoldable mutual
  pub map_expr : (MappingExpr → MappingExpr) → MappingExpr → MappingExpr
  map_expr f (dim d) = f (dim d)
  map_expr f none_expr = f none_expr
  map_expr f unknown_expr = f unknown_expr
  map_expr f (stripe e fs) = f (stripe (map_expr f e) fs)
  map_expr f (unstripe es fs) = f (unstripe (map_exprs f es) fs)

  pub map_exprs : (MappingExpr → MappingExpr) → MappingExprs → MappingExprs
  map_exprs f nil = nil
  map_exprs f (cons e es) = cons (map_expr f e) (map_exprs f es)

-- `Walk` calls its callback on these expressions, in this order.
unfoldable mutual
  pub walk : MappingExpr → List MappingExpr
  walk (dim d) = dim d ∷ []
  walk none_expr = none_expr ∷ []
  walk unknown_expr = unknown_expr ∷ []
  walk (stripe e fs) = walk e ++ stripe e fs ∷ []
  walk (unstripe es fs) = walk_all es ++ unstripe es fs ∷ []

  pub walk_all : MappingExprs → List MappingExpr
  walk_all nil = []
  walk_all (cons e es) = walk e ++ walk_all es

-- The callback of `SubstituteDims`.
unfoldable pub substitution : List MappingExpr → MappingExpr → MappingExpr
substitution exprs (dim d) = if leb (length exprs) d then none_expr else get_or exprs d none_expr
substitution exprs e = e

unfoldable pub substitute_dims : MappingExpr → List MappingExpr → MappingExpr
unfolding map_expr substitution
substitute_dims e exprs = map_expr (substitution exprs) e

unfoldable pub has_none_exprs : MappingExpr → Bool
unfolding walk
has_none_exprs e = foldl (λ found sub. found || is_none sub) false (walk e)

unfoldable pub has_unknown_exprs : MappingExpr → Bool
unfolding walk
has_unknown_exprs e = foldl (λ found sub. found || is_unknown sub) false (walk e)

-- The callback of `SetDependenciesInMask`. A mask is the list of its bits.
abbrev pub set_bit : List Bool → MappingExpr → List Bool
set_bit mask (dim d) = set mask d true
set_bit mask _ = mask

unfoldable pub set_dependencies_in_mask : List Bool → MappingExpr → List Bool
unfolding walk
set_dependencies_in_mask mask e = foldl set_bit mask (walk e)

unfoldable pub dependency_mask : MappingExpr → ℕ → List Bool
unfolding set_dependencies_in_mask
dependency_mask e domain_size = set_dependencies_in_mask (replicate domain_size false) e

-- The callback of `MinDomainSize`.
abbrev pub max_dim : ℕ → MappingExpr → ℕ
max_dim min (dim d) = max min (d + 1)
max_dim min _ = min

unfoldable pub min_domain_size : MappingExpr → ℕ
unfolding walk
min_domain_size e = foldl max_dim 0 (walk e)

-- `Map`, for a callback that mutates a state.
module _ {S : Type 0} (f : MappingExpr → S → MappingExpr × S) where
  unfoldable mutual
    pub map_expr_with : MappingExpr → S → MappingExpr × S
    map_expr_with (dim d) s = f (dim d) s
    map_expr_with none_expr s = f none_expr s
    map_expr_with unknown_expr s = f unknown_expr s
    map_expr_with (stripe e fs) s = let (e', s') = map_expr_with e s in f (stripe e' fs) s'
    map_expr_with (unstripe es fs) s = let (es', s') = map_exprs_with es s in f (unstripe es' fs) s'

    pub map_exprs_with : MappingExprs → S → MappingExprs × S
    map_exprs_with nil s = (nil, s)
    map_exprs_with (cons e es) s =
        let (e', s') = map_expr_with e s in
        let (es', s'') = map_exprs_with es s' in (cons e' es', s'')
