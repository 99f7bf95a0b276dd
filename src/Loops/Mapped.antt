-- ===== src/Loops/Mapped.antt =====
-- `MappedDomain` (mapped_domain.cc) and the `LoopNest` that it is defined in (loop_nest.cc).
pub mod Extends
use structured_additive_ir.Common.{
  ℕ, zero, suc, ◌+◌, Bool, true, false, ◌||◌, not, ◌&&◌, Option, none, some, List, [], ◌∷◌, ◌++◌,
  length, get_or, set, take, replicate, ◌==◌, leb, ite, if◌then◌else◌, map,
}
use structured_additive_ir.Mapping.Expr.{
  MappingExpr, dim, none_expr, MappingExpr-discrete, to_list, of_list, is_placeholder,
}
use structured_additive_ir.Mapping.Attr.{
  MappingAttr, size, add_prefix, compose, dependency_mask, has_none_exprs, resize_use_domain, unify,
}
use structured_additive_ir.Mapping.Constraints.{
  Constrained, constrained, not_unified, out_of_range, unification_constraints,
}

-- `ValueAccessInstance`; a value is a number.
pub record ValueAccess : Type 0 where
  pub value : ℕ
  pub mapping : MappingAttr

pub record MappedDomain : Type 0 where
  pub domain : List ValueAccess
  pub mapping : MappingAttr
  pub loop_nest : List ℕ
  pub loops_mapping : MappingAttr

unfoldable pub nested_mapping : MappedDomain → MappingAttr
unfolding add_prefix
nested_mapping d = add_prefix d.mapping d.loops_mapping.dimensions

unfoldable pub add_none_prefix_to_mapping : MappedDomain → ℕ → MappedDomain
unfolding add_prefix
add_none_prefix_to_mapping d new_dimensions = record d {
  mapping = add_prefix d.mapping (replicate new_dimensions none_expr);
}

-- A loop nest is empty, or it is the fusion class of its innermost loop: the name and the domain.
pub data LoopNest : Type 0 where
  empty : LoopNest
  inner_loop : ℕ → MappedDomain → LoopNest

abbrev pub num_loops : LoopNest → ℕ
num_loops empty = 0
num_loops (inner_loop name fusion_class) = length fusion_class.loop_nest + 1

abbrev pub get_domain : LoopNest → List ValueAccess
get_domain empty = []
get_domain (inner_loop name fusion_class) = fusion_class.domain

unfoldable pub domain_to_loops : LoopNest → MappingAttr
unfolding nested_mapping
domain_to_loops empty = record { use_domain_size = 0; dimensions = [] }
domain_to_loops (inner_loop name fusion_class) = nested_mapping fusion_class

abbrev pub loop_names : LoopNest → List ℕ
loop_names empty = []
loop_names (inner_loop name fusion_class) = fusion_class.loop_nest ++ name ∷ []

-- The constructor.
unfoldable pub mapped_domain : LoopNest → MappedDomain
unfolding domain_to_loops
mapped_domain nest = record {
  domain = get_domain nest;
  mapping = record { use_domain_size = length (get_domain nest); dimensions = [] };
  loop_nest = loop_names nest;
  loops_mapping = domain_to_loops nest;
}

-- The state, an emitted error, or a failed assert.
pub data Unified : Type 0 where
  unified : MappedDomain → List MappingExpr → Unified
  emitted_error : Unified
  failed_assert : Unified

abbrev pub same_exprs : List MappingExpr → List MappingExpr → Bool
same_exprs [] [] = true
same_exprs [] (y ∷ ys) = false
same_exprs (x ∷ xs) [] = false
same_exprs (x ∷ xs) (y ∷ ys) =
    let rest = same_exprs xs ys in ite (MappingExpr-discrete x y) rest false

abbrev pub no_access : ValueAccess
no_access = record { value = 0; mapping = record { use_domain_size = 0; dimensions = [] } }

-- What `ResolveUnification` makes of a dimension that is no placeholder, whose constraint is at
-- position `id` of the constraints.
unfoldable pub resolve_constraint :
    MappedDomain → ℕ → ValueAccess → List MappingExpr → MappingExpr → Unified
unfolding has_none_exprs
resolve_constraint d id access constraints (dim k) =
    let old = get_or d.domain k no_access in
    if not (access.value == old.value)
      || not (same_exprs access.mapping.dimensions old.mapping.dimensions)
    then emitted_error
    else unified d constraints
resolve_constraint d id access constraints constraint =
    if is_placeholder constraint
    then if has_none_exprs access.mapping
      then failed_assert
      else unified (record d { domain = d.domain ++ access ∷ [] })
          (set constraints id (dim (length d.domain)))
    else emitted_error

-- The positions of the bits that are set, from `i` on.
abbrev pub set_bits : ℕ → List Bool → List ℕ
set_bits i [] = []
set_bits i (b ∷ bs) = let rest = set_bits (i + 1) bs in if b then i ∷ rest else rest

-- `set(0, n)` of a bit vector.
abbrev pub set_prefix : ℕ → List Bool → List Bool
set_prefix zero bs = bs
set_prefix (suc n) [] = []
set_prefix (suc n) (b ∷ bs) = true ∷ set_prefix n bs

abbrev pub same_names : List ℕ → List ℕ → Bool
same_names [] [] = true
same_names [] (y ∷ ys) = false
same_names (x ∷ xs) [] = false
same_names (x ∷ xs) (y ∷ ys) = x == y && same_names xs ys

module _ (is_placeholder_op : ℕ → Bool) where
  unfoldable pub resolve_unification : MappedDomain → ℕ → ValueAccess → List MappingExpr → Unified
  unfolding resolve_constraint
  resolve_unification d id access constraints =
      let resolved = resolve_constraint d id access constraints (get_or constraints id none_expr) in
      if is_placeholder_op access.value then unified d constraints else resolved

  -- The loop over the dimensions that the new mapping depends on.
  unfoldable pub resolve_dimensions :
      List ℕ → List ValueAccess → MappedDomain → List MappingExpr → Unified
  unfolding resolve_unification compose has_none_exprs
  resolve_dimensions [] new_domain d constraints = unified d constraints
  resolve_dimensions (id ∷ ids) new_domain d constraints =
      let rest = resolve_dimensions ids new_domain in
      let dimension = get_or new_domain id no_access in
      let constraints_mapping : MappingAttr = record {
        use_domain_size = length d.domain;
        dimensions = take id constraints;
      } in
      let access : ValueAccess = record dimension {
        mapping = compose constraints_mapping dimension.mapping;
      } in
      if has_none_exprs access.mapping
      then emitted_error
      else elim (resolve_unification d id access constraints) [
        | unified d' constraints' ↦ rest d' constraints'
        | emitted_error ↦ emitted_error
        | failed_assert ↦ failed_assert
      ]

  -- The end of `UnifyMapping`: the domain is extended, and the new mapping is unified with the old
  -- one over it.
  unfoldable pub apply_unification : MappingAttr → MappedDomain → List MappingExpr → Unified
  unfolding resize_use_domain compose unify
  apply_unification new_mapping d constraints =
      let old_mapping = resize_use_domain d.mapping (length d.domain) in
      let constraint_mapping : MappingAttr = record {
        use_domain_size = length d.domain;
        dimensions = constraints;
      } in
      elim (unify (compose constraint_mapping new_mapping) old_mapping) [
        | none ↦ failed_assert
        | some mapping ↦ unified (record d { mapping = mapping }) constraints
      ]

  unfoldable pub unify_new_mapping :
      MappedDomain → MappingAttr → List ValueAccess → List MappingExpr → Unified
  unfolding unification_constraints resolve_dimensions apply_unification dependency_mask
  unify_new_mapping d new_mapping new_mapping_domain constraints =
      elim (unification_constraints new_mapping d.mapping constraints) [
        | out_of_range ↦ failed_assert
        | not_unified ↦ emitted_error
        | constrained constraints' ↦
            elim (resolve_dimensions (set_bits 0 (dependency_mask new_mapping)) new_mapping_domain d
              constraints') [
                | emitted_error ↦ emitted_error
                | failed_assert ↦ failed_assert
                | unified extended resolved ↦ apply_unification new_mapping extended resolved
              ]
      ]

  unfoldable pub unify_mapping :
      MappedDomain → MappingAttr → MappingAttr → List ValueAccess → Unified
  unfolding unification_constraints unify_new_mapping
  unify_mapping d loop_nest_mapping new_mapping new_mapping_domain =
      elim (unification_constraints loop_nest_mapping d.loops_mapping
        (replicate (length new_mapping_domain) none_expr)) [
          | constrained constraints ↦ unify_new_mapping d new_mapping new_mapping_domain constraints
          | not_unified ↦ failed_assert
          | out_of_range ↦ failed_assert
        ]

-- The loop of `SetLoopNest` over the dimensions to keep: the renaming and the new domain.
unfoldable pub keep_dimensions :
    List ℕ
    → List ValueAccess
    → List MappingExpr
    → List ValueAccess
    → List MappingExpr × List ValueAccess
unfolding compose
keep_dimensions [] domain renaming new_domain = (renaming, new_domain)
keep_dimensions (id ∷ ids) domain renaming new_domain =
    let renaming' = set renaming id (dim (length new_domain)) in
    let dimension = get_or domain id no_access in
    let renaming_mapping : MappingAttr = record {
      use_domain_size = length new_domain;
      dimensions = take id renaming';
    } in
    keep_dimensions ids domain renaming'
      (new_domain ++ record dimension { mapping = compose renaming_mapping dimension.mapping } ∷ [])

-- `none` where an assert fails.
unfoldable pub set_loop_nest : MappedDomain → LoopNest → Option MappedDomain
unfolding domain_to_loops dependency_mask keep_dimensions compose
set_loop_nest d new_loop_nest =
    let new_size = num_loops new_loop_nest in
    let to_keep = set_prefix (length (get_domain new_loop_nest)) (dependency_mask d.mapping) in
    let (renaming, new_domain) =
      keep_dimensions (set_bits 0 to_keep) d.domain (replicate (length d.domain) none_expr) [] in
    let renaming_mapping : MappingAttr = record {
      use_domain_size = length new_domain;
      dimensions = renaming;
    } in
    if same_names (loop_names new_loop_nest) (take new_size d.loop_nest)
      && leb new_size (length d.loop_nest)
    then some (record {
      domain = new_domain;
      mapping = compose renaming_mapping d.mapping;
      loop_nest = take new_size d.loop_nest;
      loops_mapping = domain_to_loops new_loop_nest;
    })
    else none
