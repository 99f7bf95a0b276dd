-- ===== src/Loops/Space.antt =====
-- `IterationSpace` and what `IterationSpaceAnalysis` computes with them.
pub mod Translate
use structured_additive_ir.Common.{
  ℕ, zero, suc, ◌+◌, Bool, true, false, ◌||◌, ◌&&◌, Option, none, some, List, [], ◌∷◌, map,
  if◌then◌else◌, ltb, ◌==◌, take, length, ◌>>=◌, map_option,
}
use structured_additive_ir.Mapping.Expr.{MappingExpr, dependency_mask, min_domain_size}
use structured_additive_ir.Mapping.Attr.{
  MappingAttr, size, dimension, inverse, make_surjective, compose, resize, get_identity, unify,
}
use structured_additive_ir.Mapping.Canonical.{canonicalize_mapping}
use structured_additive_ir.Loops.Nest.{LoopAttr, name_of, iter_of}

pub record IterationSpace : Type 0 where
  pub loop_names : List ℕ
  pub mapping : MappingAttr
  pub fully_specified : Bool

-- The constructor; `none` where an assert fails.
unfoldable pub iteration_space : List ℕ → MappingAttr → Bool → Option IterationSpace
unfolding inverse make_surjective
iteration_space loop_names domain_to_loops fully_specified =
    let space = inverse domain_to_loops >>= λ inverted.
    map_option
      (λ mapping. record {
        loop_names = loop_names;
        mapping = mapping;
        fully_specified = fully_specified;
      })
      (inverse (make_surjective inverted)) in
    if length loop_names == size domain_to_loops then space else none

abbrev pub num_loops : IterationSpace → ℕ
num_loops space = length space.loop_names

unfoldable pub mapping_to_loops : IterationSpace → MappingAttr
unfolding resize
mapping_to_loops space = resize space.mapping (num_loops space)

-- The position of the first first_mismatch, or the length of the shorter list.
unfoldable pub first_mismatch : List ℕ → List ℕ → ℕ
first_mismatch [] other = 0
first_mismatch (x ∷ xs) [] = 0
first_mismatch (x ∷ xs) (y ∷ ys) = let rest = first_mismatch xs ys in if x == y then suc rest else 0

unfoldable pub num_common_loops : IterationSpace → IterationSpace → ℕ
unfolding first_mismatch
num_common_loops space other = first_mismatch space.loop_names other.loop_names

-- What `InferIterationSpace` reads of the operand.
pub record ValueOperand : Type 0 where
  pub mapping : MappingAttr
  pub allow_use_before_def : Bool
  pub carrying_dims : List Bool

-- The loop over the loops of the operand; it stops at the first that iterates outside of the
-- mapping.
unfoldable pub inferred_loops : ℕ → List ℕ → List MappingExpr → List ℕ
unfolding min_domain_size
inferred_loops num_dimensions [] iters = []
inferred_loops num_dimensions (name ∷ names) [] = []
inferred_loops num_dimensions (name ∷ names) (iter ∷ iters) =
    let rest = inferred_loops num_dimensions names iters in
    if ltb num_dimensions (min_domain_size iter) then [] else name ∷ rest

abbrev pub any_common : List Bool → List Bool → Bool
any_common [] ys = false
any_common (x ∷ xs) [] = false
any_common (x ∷ xs) (y ∷ ys) = x && y || any_common xs ys

-- The loop that trims the inner parallel dimensions, from a number of loops down.
unfoldable pub trim_parallel : MappingAttr → ℕ → List Bool → ℕ → ℕ
unfolding dependency_mask
trim_parallel domain_to_loops domain_size carrying_dims zero = 0
trim_parallel domain_to_loops domain_size carrying_dims (suc n) =
    let rest = trim_parallel domain_to_loops domain_size carrying_dims n in
    if any_common (dependency_mask (dimension domain_to_loops n) domain_size) carrying_dims
    then suc n
    else rest

unfoldable pub infer_iteration_space : IterationSpace → ValueOperand → Option IterationSpace
unfolding iteration_space mapping_to_loops inferred_loops trim_parallel compose resize
infer_iteration_space operand_space operand =
    let mapping = operand.mapping in
    let to_loops = mapping_to_loops operand_space in
    let loop_names = inferred_loops (size mapping) operand_space.loop_names to_loops.dimensions in
    let domain_to_loops = compose mapping (resize to_loops (length loop_names)) in
    let new_size =
      trim_parallel domain_to_loops mapping.use_domain_size operand.carrying_dims
        (length loop_names) in
    if operand.allow_use_before_def
    then iteration_space (take new_size loop_names) (resize domain_to_loops new_size)
        operand_space.fully_specified
    else iteration_space loop_names domain_to_loops operand_space.fully_specified

-- The first branch of `ComputeIterationSpace`; `decided` is whether the loop nest is specified.
unfoldable pub compute_op_iteration_space : ℕ → List LoopAttr → Bool → Option IterationSpace
unfolding iteration_space
compute_op_iteration_space domain_size loops decided =
    iteration_space (map name_of loops)
      (record { use_domain_size = domain_size; dimensions = map iter_of loops }) decided

pub data Translation : Type 0 where
  translated : MappingAttr → Translation
  incompatible_loops : Translation
  failed_assert : Translation

-- `TryTranslateMapping` up to the common loops: the mapping between the iteration spaces.
unfoldable pub space_mapping : IterationSpace → IterationSpace → MappingAttr → Option MappingAttr
unfolding inverse compose canonicalize_mapping
space_mapping from_space to_space mapping = inverse from_space.mapping >>= λ inverted.
    canonicalize_mapping (compose (compose inverted mapping) to_space.mapping)

unfoldable pub loops_mapping : IterationSpace → IterationSpace → MappingAttr
unfolding num_common_loops get_identity resize
loops_mapping from_space to_space =
    resize (get_identity (num_common_loops from_space to_space) (size from_space.mapping))
      (size to_space.mapping)

unfoldable pub try_translate_mapping : IterationSpace → IterationSpace → MappingAttr → Translation
unfolding space_mapping loops_mapping unify
try_translate_mapping from_space to_space mapping =
    elim (space_mapping from_space to_space mapping) [
      | none ↦ failed_assert
      | some between ↦ elim (unify between (loops_mapping from_space to_space)) [
        | none ↦ incompatible_loops
        | some result ↦ translated result
      ]
    ]
