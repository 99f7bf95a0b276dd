-- ===== src/Examples/MappingRuns.antt =====
-- Mappings at concrete inputs: a tiling of `d0` by 4 with its inverse, a mapping with placeholders,
-- and two unstripes that complete each other.
use structured_additive_ir.Common.{◌≡◌, refl, some, [], ◌∷◌, arith, ℕ_discrete}
use structured_additive_ir.Mapping.Expr.{
  dim, stripe, unstripe, nil, cons, MappingExpr-discrete, factors-discrete,
}
use structured_additive_ir.Common.{
  All, ◌≢◌, ◌≤◌, ◌↔◌, ◌<◌, ◌+◌, ℕ, zero, suc, true, false, none, get_or, leb, if◌then◌else◌, map,
}
use structured_additive_ir.Mapping.Expr.{MappingExpr, none_expr, unknown_expr, substitute_dims}
use structured_additive_ir.Mapping.Expr.Leaves.{Below}
use structured_additive_ir.Mapping.Refines.{Refines}
use structured_additive_ir.Mapping.Unify.Refine.{unify-Refines}
use structured_additive_ir.Mapping.Unify.Valid.{unify-IsValid}
use structured_additive_ir.Mapping.Inverse.Grows.{ValidInverses}
use structured_additive_ir.Mapping.Expr.Valid.{IsValid}
use structured_additive_ir.Mapping.Named.{NamedMapping, drop_unused_dims}
use structured_additive_ir.Mapping.Named.Unused.{accesses, drop_unused_dims-accesses}
use structured_additive_ir.Mapping.Attr.Compose.{
  InDomain, compose_assoc, compose-identity_left, is_identity_iff,
}
use structured_additive_ir.Mapping.Attr.Resize.{
  restrict, resize_use_domain-eq-restrict, resize_use_domain-resize_use_domain, shift_right_renames,
  min_domain_size-le_iff_All,
}
use structured_additive_ir.Mapping.Attr.Surjective.{make_surjective_lem}
use structured_additive_ir.Mapping.Attr.Specified.{Specifies, make_fully_specified_lem}
use structured_additive_ir.Mapping.Unify.{unify}
use structured_additive_ir.Mapping.Inverse.{find_in_inverse}
use structured_additive_ir.Mapping.Attr
use structured_additive_ir.Mapping.Attr.{MappingAttr, size, dimension}
use structured_additive_ir.Mapping.Attr.Invert.{
  find_in_inverse-inverse, inverse-shape, get_checked_injective,
}
use structured_additive_ir.Mapping.Canonical.{apply_rules, canonicalize, out_of_fuel}
use structured_additive_ir.Mapping.Canonical.Affine.{Tiled, as_affine}
use structured_additive_ir.Mapping.Canonical.Values.{canonicalize_lem}
use structured_additive_ir.Mapping.Canonical.Ends.{apply_rules-ne-out_of_fuel}

abbrev tiling : MappingAttr
tiling = record {
  use_domain_size = 2;
  dimensions = stripe (dim 0) (4 ∷ []) ∷ dim 1 ∷ stripe (dim 0) (4 ∷ 1 ∷ []) ∷ [];
}

abbrev tiling_inverse : MappingAttr
tiling_inverse = record {
  use_domain_size = 3;
  dimensions = unstripe (cons (dim 0) (cons (dim 2) nil)) (4 ∷ 1 ∷ []) ∷ dim 1 ∷ [];
}

inverse-tiling : Attr.inverse tiling ≡ some tiling_inverse
unfolding Attr.inverse MappingExpr-discrete factors-discrete ℕ_discrete unify
    structured_additive_ir.Mapping.Inverse.inverse_factors
    structured_additive_ir.Mapping.Inverse.inverse_operands
inverse-tiling = refl

tiling-IsValid : All IsValid tiling.dimensions
tiling-IsValid = ((tt, omega arith), (tt, ((tt, omega arith), tt)))

tiling-InDomain : InDomain tiling
tiling-InDomain = omega arith

find_in_inverse-inverse_example :
    find_in_inverse (dimension tiling 2) tiling_inverse.dimensions ≡ dim 2
find_in_inverse-inverse_example =
    find_in_inverse-inverse tiling tiling_inverse 2 (refl, (refl, (refl, tt))) tiling-IsValid
      tiling-InDomain inverse-tiling (omega arith)

inverse-shape_example :
    (tiling_inverse.use_domain_size ≡ 3)
    × (size tiling_inverse ≡ 2)
    × ValidInverses tiling_inverse.dimensions
inverse-shape_example =
    inverse-shape tiling tiling_inverse tiling-IsValid tiling-InDomain inverse-tiling

checked-tiling : Attr.get_checked 2 tiling.dimensions ≡ some tiling
unfolding Attr.get_checked MappingExpr-discrete factors-discrete ℕ_discrete unify
    structured_additive_ir.Mapping.Inverse.inverse_factors
    structured_additive_ir.Mapping.Inverse.inverse_operands
checked-tiling = refl

-- The inverse passes the assert of `MappingAttr::get`.
checked-tiling_inverse : Attr.get_checked 3 tiling_inverse.dimensions ≡ some tiling_inverse
unfolding Attr.get_checked MappingExpr-discrete factors-discrete ℕ_discrete unify
    structured_additive_ir.Mapping.Inverse.inverse_factors
    structured_additive_ir.Mapping.Inverse.inverse_operands
checked-tiling_inverse = refl

get_checked_injective_example : dimension tiling 0 ≢ dimension tiling 2
get_checked_injective_example =
    get_checked_injective 2 tiling.dimensions tiling 0 2 checked-tiling (refl, (refl, (refl, tt)))
      tiling-IsValid tiling-InDomain (omega arith) (omega arith) (λ e. cc)

-- `(d0, none, ?, d1)`.
abbrev partial : MappingAttr
partial = record { use_domain_size = 2; dimensions = dim 0 ∷ none_expr ∷ unknown_expr ∷ dim 1 ∷ [] }

partial-InDomain : InDomain partial
partial-InDomain = (omega arith, (tt, (tt, (omega arith, tt))))

make_surjective_lem_example :
    (Attr.has_none_exprs (Attr.make_surjective partial) ≡ false)
    × InDomain (Attr.make_surjective partial)
    × (2 ≤ (Attr.make_surjective partial).use_domain_size)
    × (Attr.resize_use_domain (Attr.make_surjective partial) 2 ≡ partial)
make_surjective_lem_example = make_surjective_lem partial partial-InDomain

make_fully_specified_lem_example :
    (Attr.has_unknown_exprs (Attr.make_fully_specified partial) ≡ false)
    × ((Attr.make_fully_specified partial).use_domain_size ≡ 2)
    × (size (Attr.make_fully_specified partial) ≡ 4)
    × Specifies unknown_expr (dimension (Attr.make_fully_specified partial) 2)
    × Refines (dimension (Attr.make_fully_specified partial) 2) unknown_expr
make_fully_specified_lem_example = make_fully_specified_lem partial 2

compose_assoc_example :
    Attr.compose (Attr.compose tiling_inverse tiling) partial
    ≡ Attr.compose tiling_inverse (Attr.compose tiling partial)
compose_assoc_example = compose_assoc tiling_inverse tiling partial

compose-identity_left_example : Attr.compose (Attr.get_identity 2 2) partial ≡ partial
compose-identity_left_example = compose-identity_left partial partial-InDomain

is_identity_iff_example : (Attr.is_identity partial ≡ true) ↔ (partial ≡ Attr.get_identity 4 2)
is_identity_iff_example = is_identity_iff partial

resize_use_domain-eq-restrict_example : Attr.resize_use_domain partial 1 ≡ restrict partial 1
resize_use_domain-eq-restrict_example = resize_use_domain-eq-restrict partial 1 partial-InDomain

resize_use_domain-resize_use_domain_example :
    Attr.resize_use_domain (Attr.resize_use_domain partial 1) 0 ≡ Attr.resize_use_domain partial 0
resize_use_domain-resize_use_domain_example =
    resize_use_domain-resize_use_domain partial 1 0 partial-InDomain (omega arith)

renamed :
    (d : ℕ) → d < 2 → get_or (dim 0 ∷ dim 4 ∷ []) d none_expr ≡ dim (if leb 1 d then d + 3 else d)
renamed zero h = refl
renamed (suc zero) h = refl
renamed (suc (suc d)) h = ground arith

shift_right_renames_example : Attr.shift_right partial 3 1 ≡ record {
  use_domain_size = 5;
  dimensions = map (λ e. substitute_dims e (dim 0 ∷ dim 4 ∷ [])) partial.dimensions;
}
shift_right_renames_example =
    shift_right_renames partial 3 1 (dim 0 ∷ dim 4 ∷ []) partial-InDomain (omega arith) renamed

-- `(d0, d1, d2)` shifted by 2 from `d1` on is `(d0, d3, d4)`.
shift_right-three :
    (Attr.shift_right (Attr.get_identity 3 3) 2 1).dimensions ≡ dim 0 ∷ dim 3 ∷ dim 4 ∷ []
unfolding Attr.shift_right Attr.get_identity
shift_right-three = refl

min_domain_size-le_iff_All_example :
    (Attr.min_domain_size partial ≤ 2) ↔ All (Below 2) partial.dimensions
min_domain_size-le_iff_All_example = min_domain_size-le_iff_All partial 2

-- `unstripe(d0, ?)` and `unstripe(none, d1, d2)`.
abbrev outer : MappingExpr
outer = unstripe (cons (dim 0) (cons unknown_expr nil)) (4 ∷ 1 ∷ [])

abbrev inner : MappingExpr
inner = unstripe (cons none_expr (cons (dim 1) (cons (dim 2) nil))) (4 ∷ 2 ∷ 1 ∷ [])

abbrev both : MappingExpr
both = unstripe (cons (dim 0) (cons (dim 1) (cons (dim 2) nil))) (4 ∷ 2 ∷ 1 ∷ [])

outer-IsValid : IsValid outer
outer-IsValid = ((tt, (tt, tt)), omega arith, refl)

inner-IsValid : IsValid inner
inner-IsValid = ((tt, (tt, (tt, tt))), omega arith, refl)

unify-both : unify outer inner ≡ some both
unfolding unify MappingExpr-discrete factors-discrete ℕ_discrete
unify-both = refl

unify-Refines_example : Refines outer both × Refines inner both
unify-Refines_example = unify-Refines outer inner both outer-IsValid inner-IsValid unify-both

unify-IsValid_example : IsValid both
unify-IsValid_example = unify-IsValid outer inner both outer-IsValid inner-IsValid unify-both

-- `[d0:7, d1:8, d2:9] -> (stripe(d2, [4]), d0, none)`.
abbrev unused_dim : NamedMapping
unused_dim = record {
  names = 7 ∷ 8 ∷ 9 ∷ [];
  mapping = record {
    use_domain_size = 3;
    dimensions = stripe (dim 2) (4 ∷ []) ∷ dim 0 ∷ none_expr ∷ [];
  };
}

drop_unused_dims-accesses_example : accesses (drop_unused_dims unused_dim) ≡ accesses unused_dim
drop_unused_dims-accesses_example =
    drop_unused_dims-accesses unused_dim (omega arith, (omega arith, (tt, tt))) refl

-- `d0` cut into tiles of 8 that are cut into tiles of 2, and put together in two steps.
abbrev nested_tiles : MappingExpr
nested_tiles =
    unstripe
      (cons (stripe (dim 0) (8 ∷ [])) (
        cons
          (unstripe
            (cons (stripe (dim 0) (8 ∷ 2 ∷ [])) (cons (stripe (dim 0) (8 ∷ 2 ∷ 1 ∷ [])) nil))
            (2 ∷ 1 ∷ []))
          nil))
      (8 ∷ 1 ∷ [])

-- What `Canonicalize` makes of it: the stripes are stitched to `d0` itself.
canonicalize-nested_tiles : canonicalize nested_tiles ≡ some (dim 0)
unfolding canonicalize MappingExpr-discrete factors-discrete ℕ_discrete
canonicalize-nested_tiles = refl

-- At `d0 = 13`.
abbrev thirteen : ℕ → ℕ
thirteen d = 13

nested_tiles-Tiled : Tiled thirteen nested_tiles
nested_tiles-Tiled = (
  some 13,
  (
    (tt, omega arith),
    refl,
    (
      (
        some 13,
        (
          (tt, (omega arith, omega arith)),
          refl,
          ((tt, (omega arith, (omega arith, omega arith))), refl, tt),
        ),
        (omega arith, refl),
      ),
      refl,
      tt,
    ),
  ),
  (omega arith, refl),
)

canonicalize_lem_example :
    Tiled thirteen (dim 0) × (as_affine thirteen (dim 0) ≡ as_affine thirteen nested_tiles)
canonicalize_lem_example =
    canonicalize_lem thirteen nested_tiles (dim 0) nested_tiles-Tiled canonicalize-nested_tiles

apply_rules-ne-out_of_fuel_example :
    apply_rules 7 (stripe (dim 0) (8 ∷ []) ∷ stripe (dim 0) (8 ∷ 1 ∷ []) ∷ []) (8 ∷ 1 ∷ [])
    ≢ out_of_fuel
apply_rules-ne-out_of_fuel_example =
    apply_rules-ne-out_of_fuel 7 (stripe (dim 0) (8 ∷ []) ∷ stripe (dim 0) (8 ∷ 1 ∷ []) ∷ [])
      (8 ∷ 1 ∷ []) (omega arith)

-- The stitch compares the factors of the last stripe only: the drop of three of its two factors
-- fails its assert, although the factors of the unstripe pass theirs.
abbrev repeated_tile : MappingExpr
repeated_tile =
    unstripe
      (cons (stripe (dim 0) (4 ∷ []))
        (cons (stripe (dim 0) (2 ∷ [])) (cons (stripe (dim 0) (2 ∷ 1 ∷ [])) nil)))
      (4 ∷ 2 ∷ 1 ∷ [])

repeated_tile-IsValid : IsValid repeated_tile
repeated_tile-IsValid = (
  ((tt, omega arith), ((tt, omega arith), ((tt, (omega arith, omega arith)), tt))),
  (omega arith, (omega arith, refl)),
  refl,
)

canonicalize-repeated_tile : canonicalize repeated_tile ≡ none
unfolding canonicalize MappingExpr-discrete factors-discrete ℕ_discrete
canonicalize-repeated_tile = refl
