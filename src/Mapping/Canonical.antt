-- ===== src/Mapping/Canonical.antt =====
-- `Canonicalize` of mapping expressions and mappings (sair_attributes.cc).
pub mod Affine
pub mod Stripes
pub mod Factors
pub mod Rules
pub mod Ends
pub mod Values
use structured_additive_ir.Common.{
  ℕ, zero, suc, ◌+◌, ◌-◌, Bool, true, false, ◌&&◌, Option, none, some, List, [], ◌∷◌, ◌++◌, ◌==◌,
  leb, min, if◌then◌else◌, ite, ◌>>=◌, map_option, length, take, drop, get_or, map,
}
use structured_additive_ir.Mapping.Expr.{
  MappingExpr, MappingExprs, dim, none_expr, unknown_expr, stripe, unstripe, nil, cons, to_list,
  of_list, MappingExpr-discrete, factors-discrete,
}
use structured_additive_ir.Mapping.Inverse.{last_factor}
use structured_additive_ir.Mapping.Unify.{drop_last}
use structured_additive_ir.Mapping.Attr.{MappingAttr}

-- `factors.size() == 1 && factors.back() == 1`.
abbrev pub is_unit : List ℕ → Bool
is_unit (f ∷ []) = f == 1
is_unit _ = false

-- A stripe of an unstripe with these operands: the operand, if all factors match; else both without
-- the common factors.
unfoldable pub strip_common : List ℕ → List MappingExpr → List ℕ → MappingExpr
strip_common (h ∷ []) (e ∷ es) (g ∷ gs) =
    if h == g then e else stripe (unstripe (of_list (e ∷ es)) (g ∷ gs)) (h ∷ [])
strip_common (h ∷ h' ∷ hs) (e ∷ es) (g ∷ gs) =
    let rest = strip_common (h' ∷ hs) es gs in
    if h == g then rest else stripe (unstripe (of_list (e ∷ es)) (g ∷ gs)) (h ∷ h' ∷ hs)
strip_common hs es gs = stripe (unstripe (of_list es) gs) hs

unfoldable pub canonical_stripe_of : MappingExpr → List ℕ → MappingExpr
unfolding strip_common
canonical_stripe_of (unstripe es gs) factors = strip_common factors (to_list es) gs
canonical_stripe_of canonical_operand factors = stripe canonical_operand factors

-- `GetCanonicalStripe`.
unfoldable pub get_canonical_stripe : MappingExpr → List ℕ → MappingExpr
unfolding canonical_stripe_of
get_canonical_stripe canonical_operand factors =
    if is_unit factors then canonical_operand else canonical_stripe_of canonical_operand factors

-- `back()` and the elements before it.
abbrev pub split_last {ℓ} : {A : Type ℓ} → List A → Option (List A × A)
split_last [] = none
split_last (x ∷ xs) = elim (split_last xs) [
  | none ↦ some ([], x)
  | some (init, last) ↦ some (x ∷ init, last)
]

-- What a rule does to the operands and factors.
pub data Rewrite : Type 0 where
  not_applied : Rewrite
  applied : List MappingExpr → List ℕ → Rewrite
  assert_failed : Rewrite

-- The factors of the inner unstripe do not continue the decreasing ones before them.
abbrev pub does_not_decrease : List ℕ → List ℕ → Bool
does_not_decrease [] gs = false
does_not_decrease (f ∷ fs) gs = leb (last_factor (f ∷ fs)) (get_or gs 0 0)

-- `collapse_unstripes`.
unfoldable pub collapse_last : List MappingExpr → MappingExpr → List ℕ → Rewrite
collapse_last init (unstripe es gs) outer =
    if does_not_decrease outer gs then not_applied else applied (init ++ to_list es) (outer ++ gs)
collapse_last init _ outer = not_applied

unfoldable pub collapse_unstripes : List MappingExpr → List ℕ → Rewrite
unfolding collapse_last
collapse_unstripes new_operands new_factors = elim (split_last new_operands) [
  | none ↦ not_applied
  | some (init, last) ↦ collapse_last init last (drop_last new_factors)
]

abbrev pub is_stripe_of : MappingExpr → MappingExpr → Bool
is_stripe_of operand (stripe e fs) = ite (MappingExpr-discrete e operand) true false
is_stripe_of operand _ = false

-- How many stripes with the operand end the list.
abbrev pub trailing_stripes : MappingExpr → List MappingExpr → ℕ
trailing_stripes operand [] = 0
trailing_stripes operand (e ∷ es) =
    let rest = trailing_stripes operand es in
    if rest == length es && is_stripe_of operand e then suc rest else rest

abbrev pub take_back : ℕ → List ℕ → List ℕ
take_back n fs = drop (length fs - n) fs

-- `stiche_stripes`, with `stitched` the number of stripes before the last one.
unfoldable pub stitch : ℕ → List MappingExpr → MappingExpr → List ℕ → List ℕ → Rewrite
unfolding get_canonical_stripe
stitch stitched init operand factors new_factors =
    let first_stripe = length init - stitched in
    if stitched == 0
    then not_applied
    else if leb (stitched + 1) (length factors)
    then applied
        (take first_stripe init
          ++ get_canonical_stripe operand (take (length factors - (stitched + 1)) factors ++ 1 ∷ [])
            ∷ [])
        (take first_stripe new_factors ++ 1 ∷ [])
    else assert_failed

unfoldable pub stitch_last : List MappingExpr → MappingExpr → List ℕ → Rewrite
unfolding stitch
stitch_last init (stripe e fs) new_factors =
    let n = min (length new_factors) (length fs) in
    ite (factors-discrete (take_back n new_factors) (take_back n fs))
      (stitch (trailing_stripes e init) init e fs new_factors) not_applied
stitch_last init _ new_factors = not_applied

unfoldable pub stitch_stripes : List MappingExpr → List ℕ → Rewrite
unfolding stitch_last
stitch_stripes new_operands new_factors = elim (split_last new_operands) [
  | none ↦ not_applied
  | some (init, last) ↦ stitch_last init last new_factors
]

-- What the loop over both rules ends with.
pub data Canonical : Type 0 where
  canonical : List MappingExpr → List ℕ → Canonical
  failed_assert : Canonical
  out_of_fuel : Canonical

-- The loop that applies the rules, for at most `fuel` rounds.
unfoldable pub apply_rules : ℕ → List MappingExpr → List ℕ → Canonical
unfolding collapse_unstripes stitch_stripes
apply_rules zero new_operands new_factors = out_of_fuel
apply_rules (suc fuel) new_operands new_factors =
    elim (collapse_unstripes new_operands new_factors) [
      | applied es fs ↦ apply_rules fuel es fs
      | assert_failed ↦ failed_assert
      | not_applied ↦ elim (stitch_stripes new_operands new_factors) [
        | applied es fs ↦ apply_rules fuel es fs
        | assert_failed ↦ failed_assert
        | not_applied ↦ canonical new_operands new_factors
      ]
    ]

-- The number of sub-expressions bounds the rounds.
abbrev mutual
  pub weight : MappingExpr → ℕ
  weight (dim d) = 1
  weight none_expr = 1
  weight unknown_expr = 1
  weight (stripe e fs) = suc (weight e)
  weight (unstripe es fs) = suc (total_weight es)

  pub total_weight : MappingExprs → ℕ
  total_weight nil = 0
  total_weight (cons e es) = weight e + total_weight es

unfoldable pub canonical_unstripe : List MappingExpr → List ℕ → MappingExpr
canonical_unstripe new_operands new_factors =
    if is_unit new_factors
    then get_or new_operands 0 none_expr
    else unstripe (of_list new_operands) new_factors

unfoldable pub canonicalize_unstripe : List MappingExpr → List ℕ → Option MappingExpr
unfolding apply_rules canonical_unstripe
canonicalize_unstripe operands factors =
    elim (apply_rules (suc (total_weight (of_list operands))) operands factors) [
      | canonical es fs ↦ some (canonical_unstripe es fs)
      | failed_assert ↦ none
      | out_of_fuel ↦ none
    ]

-- `none` where an assert fails.
unfoldable mutual
  unfolding get_canonical_stripe canonicalize_unstripe

  pub canonicalize : MappingExpr → Option MappingExpr
  canonicalize (dim d) = some (dim d)
  canonicalize none_expr = some none_expr
  canonicalize unknown_expr = some unknown_expr
  canonicalize (stripe e fs) = map_option (λ c. get_canonical_stripe c fs) (canonicalize e)
  canonicalize (unstripe es fs) =
      canonicalize_all es >>= λ operands. canonicalize_unstripe operands fs

  pub canonicalize_all : MappingExprs → Option (List MappingExpr)
  canonicalize_all nil = some []
  canonicalize_all (cons e es) =
      canonicalize e >>= λ c. map_option (λ cs. c ∷ cs) (canonicalize_all es)

unfoldable pub canonicalize_mapping : MappingAttr → Option MappingAttr
unfolding canonicalize_all
canonicalize_mapping m =
    map_option (λ exprs. record m { dimensions = exprs }) (canonicalize_all (of_list m.dimensions))
