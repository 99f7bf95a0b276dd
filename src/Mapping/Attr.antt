-- ===== src/Mapping/Attr.antt =====
-- `MappingAttr` (sair_attributes.cc, sair_attributes.h).
pub mod Compose
pub mod Resize
pub mod Surjective
pub mod Specified
pub mod Invert
use structured_additive_ir.Common.{
  ℕ, zero, suc, ◌+◌, ◌-◌, max, Bool, true, false, ◌||◌, ◌&&◌, Option, none, some, List, [], ◌∷◌,
  ◌++◌, map, foldl, length, take, drop, get_or, replicate, ltb, leb, ◌==◌, if◌then◌else◌,
  map_option, ◌>>=◌,
}
use structured_additive_ir.Mapping.Expr.{
  MappingExpr, dim, none_expr, is_none, is_unknown, map_expr, map_expr_with, substitute_dims,
  has_none_exprs as expr_has_none_exprs, has_unknown_exprs as expr_has_unknown_exprs,
  set_dependencies_in_mask, min_domain_size as expr_min_domain_size,
}
use structured_additive_ir.Mapping.Unify.{
  unify as unify_expr, unify_stateless, resolve_unknown, unify_with,
}
use structured_additive_ir.Mapping.Inverse.{set_inverse}

-- `MappingAttr::get` is the record itself; what it asserts is `verify_mapping_exprs`.
pub record MappingAttr : Type 0 where
  pub use_domain_size : ℕ
  pub dimensions : List MappingExpr

abbrev pub size : MappingAttr → ℕ
size m = length m.dimensions

-- `Dimension(i)`, for `i` in range.
abbrev pub dimension : MappingAttr → ℕ → MappingExpr
dimension m i = get_or m.dimensions i none_expr

-- The loop of `VerifyMappingExprs`, from expression `i` on; `false` is the failure.
unfoldable pub verify_exprs_from : ℕ → List MappingExpr → List MappingExpr → Bool
unfolding set_inverse
verify_exprs_from i [] inverted_exprs = true
verify_exprs_from i (e ∷ es) inverted_exprs =
    let rest = verify_exprs_from (i + 1) es in
    elim (set_inverse e (dim i) inverted_exprs) [ none ↦ false | some inverses ↦ rest inverses ]

unfoldable pub verify_mapping_exprs : ℕ → List MappingExpr → Bool
unfolding verify_exprs_from
verify_mapping_exprs use_domain_size mapping_exprs =
    verify_exprs_from 0 mapping_exprs (replicate use_domain_size none_expr)

unfoldable pub get_checked : ℕ → List MappingExpr → Option MappingAttr
unfolding verify_mapping_exprs
get_checked use_domain_size mapping =
    if verify_mapping_exprs use_domain_size mapping
    then some (record { use_domain_size = use_domain_size; dimensions = mapping })
    else none

-- `dim i`, …, `dim (i + n - 1)`.
unfoldable pub dims_from : ℕ → ℕ → List MappingExpr
dims_from i zero = []
dims_from i (suc n) = dim i ∷ dims_from (i + 1) n

unfoldable pub get_identity : ℕ → ℕ → MappingAttr
unfolding dims_from
get_identity num_dimensions use_domain_size = record {
  use_domain_size = use_domain_size;
  dimensions = dims_from 0 num_dimensions;
}

unfoldable pub compose : MappingAttr → MappingAttr → MappingAttr
unfolding substitute_dims
compose m other = record m {
  dimensions = map (λ other_expr. substitute_dims other_expr m.dimensions) other.dimensions;
}

abbrev pub any : (MappingExpr → Bool) → List MappingExpr → Bool
any p [] = false
any p (e ∷ es) = p e || any p es

unfoldable pub has_none_exprs : MappingAttr → Bool
unfolding expr_has_none_exprs
has_none_exprs m = any expr_has_none_exprs m.dimensions

unfoldable pub has_unknown_exprs : MappingAttr → Bool
unfolding expr_has_unknown_exprs
has_unknown_exprs m = any expr_has_unknown_exprs m.dimensions

-- The callback of `MakeSurjective`; the state is `num_dimensions`.
unfoldable pub fresh_dim : MappingExpr → ℕ → MappingExpr × ℕ
fresh_dim e num_dimensions =
    if is_none e then (dim num_dimensions, num_dimensions + 1) else (e, num_dimensions)

unfoldable pub make_surjective_exprs : List MappingExpr → ℕ → List MappingExpr × ℕ
unfolding fresh_dim map_expr_with
make_surjective_exprs [] num_dimensions = ([], num_dimensions)
make_surjective_exprs (e ∷ es) num_dimensions =
    let (e', n) = map_expr_with fresh_dim e num_dimensions in
    let (es', n') = make_surjective_exprs es n in (e' ∷ es', n')

unfoldable pub make_surjective : MappingAttr → MappingAttr
unfolding make_surjective_exprs
make_surjective m =
    let (new_exprs, num_dimensions) = make_surjective_exprs m.dimensions m.use_domain_size in
    record { use_domain_size = num_dimensions; dimensions = new_exprs }

-- The callback of `MakeFullySpecified`.
abbrev pub unknown_to_none : MappingExpr → MappingExpr
unknown_to_none e = if is_unknown e then none_expr else e

unfoldable pub make_fully_specified : MappingAttr → MappingAttr
unfolding map_expr
make_fully_specified m = record m { dimensions = map (map_expr unknown_to_none) m.dimensions }

abbrev pub is_dim : ℕ → MappingExpr → Bool
is_dim i (dim d) = d == i
is_dim i _ = false

-- The loop of `IsIdentity`, from position `i` on.
unfoldable pub is_identity_from : ℕ → List MappingExpr → Bool
is_identity_from i [] = true
is_identity_from i (e ∷ es) = is_dim i e && is_identity_from (i + 1) es

unfoldable pub is_identity : MappingAttr → Bool
unfolding is_identity_from
is_identity m = is_identity_from 0 m.dimensions

unfoldable pub dependency_mask : MappingAttr → List Bool
unfolding set_dependencies_in_mask
dependency_mask m = foldl set_dependencies_in_mask (replicate m.use_domain_size false) m.dimensions

-- `resize` and `all` of a bit vector.
abbrev pub resize_mask : List Bool → ℕ → List Bool
resize_mask mask n = take n mask ++ replicate (n - length mask) false

abbrev pub all_bits : List Bool → Bool
all_bits [] = true
all_bits (b ∷ bs) = b && all_bits bs

unfoldable pub is_injective : MappingAttr → ℕ → Bool
unfolding dependency_mask
is_injective m num_dimensions = all_bits (resize_mask (dependency_mask m) num_dimensions)

unfoldable pub resize_use_domain : MappingAttr → ℕ → MappingAttr
unfolding dims_from substitute_dims
resize_use_domain m new_size =
    let old_size = m.use_domain_size in
    let substitutions = dims_from 0 new_size ++ replicate (old_size - new_size) none_expr in
    if new_size == old_size
    then m
    else if leb old_size new_size
    then record m { use_domain_size = new_size }
    else record {
      use_domain_size = new_size;
      dimensions = map (λ e. substitute_dims e substitutions) m.dimensions;
    }

unfoldable pub resize : MappingAttr → ℕ → MappingAttr
resize m new_size =
    let current_size = size m in
    if new_size == current_size
    then m
    else if ltb new_size current_size
    then record m { dimensions = take new_size m.dimensions }
    else record m { dimensions = m.dimensions ++ replicate (new_size - current_size) none_expr }

unfoldable pub shift_right : MappingAttr → ℕ → ℕ → MappingAttr
unfolding dims_from substitute_dims
shift_right m offset start_from =
    let substitutions =
      dims_from 0 start_from ++ dims_from (start_from + offset) (m.use_domain_size - start_from) in
    record {
      use_domain_size = m.use_domain_size + offset;
      dimensions = map (λ e. substitute_dims e substitutions) m.dimensions;
    }

-- The loop of `Inverse`, from expression `i` on; `none` where the assert on `SetInverse` fails.
unfoldable pub set_inverses : ℕ → List MappingExpr → List MappingExpr → Option (List MappingExpr)
unfolding set_inverse
set_inverses i [] inverses = some inverses
set_inverses i (e ∷ es) inverses = set_inverse e (dim i) inverses >>= set_inverses (i + 1) es

-- `none` where the assert on `SetInverse` fails. That `MappingAttr::get` asserts of the result is
-- `verify_mapping_exprs` of it; it is no part of the result.
unfoldable pub inverse : MappingAttr → Option MappingAttr
unfolding set_inverses
inverse m =
    map_option (λ inverted_exprs. record { use_domain_size = size m; dimensions = inverted_exprs })
      (set_inverses 0 m.dimensions (replicate m.use_domain_size none_expr))

unfoldable pub min_domain_size : MappingAttr → ℕ
unfolding expr_min_domain_size
min_domain_size m = foldl (λ min e. max min (expr_min_domain_size e)) 0 m.dimensions

-- The loops of `Unify` and `UnifyUnknownExprs` over both mappings' expressions.
unfoldable pub unify_exprs :
    (MappingExpr → MappingExpr → Option MappingExpr)
    → List MappingExpr
    → List MappingExpr
    → Option (List MappingExpr)
unify_exprs unify_one [] ys = some []
unify_exprs unify_one (x ∷ xs) [] = some []
unify_exprs unify_one (x ∷ xs) (y ∷ ys) =
    let rest = unify_exprs unify_one xs ys in unify_one x y >>= λ e. map_option (λ es. e ∷ es) rest

unfoldable pub unify : MappingAttr → MappingAttr → Option MappingAttr
unfolding unify_exprs unify_expr
unify m other =
    map_option (λ exprs. record m { dimensions = exprs })
      (unify_exprs unify_expr m.dimensions other.dimensions)

unfoldable pub unify_unknown_exprs : MappingAttr → MappingAttr → Option MappingAttr
unfolding unify_exprs unify_with resolve_unknown
unify_unknown_exprs m other =
    map_option (λ exprs. record m { dimensions = exprs })
      (unify_exprs (unify_stateless resolve_unknown) m.dimensions other.dimensions)

unfoldable pub add_prefix : MappingAttr → List MappingExpr → MappingAttr
add_prefix m exprs = record m { dimensions = exprs ++ m.dimensions }

unfoldable pub add_suffix : MappingAttr → List MappingExpr → MappingAttr
add_suffix m exprs = record m { dimensions = m.dimensions ++ exprs }

unfoldable pub slice : MappingAttr → ℕ → ℕ → MappingAttr
slice m begin new_size = record m { dimensions = take new_size (drop begin m.dimensions) }

unfoldable pub drop_front : MappingAttr → ℕ → MappingAttr
unfolding slice
drop_front m num_drop = slice m num_drop (size m - num_drop)
