-- ===== src/Loops/Fusion.antt =====
-- `LoopFusionAnalysis` (loop_nest.cc): the registration of the loops of the compute operations.
pub mod Classes
pub mod Registration
pub mod Shared
pub mod Init
pub mod Order
pub mod Agree
use structured_additive_ir.Common.{
  ℕ, zero, suc, ◌+◌, ◌%◌, ◌^◌, Bool, true, false, ◌||◌, not, Option, none, some, List, [], ◌∷◌,
  ◌++◌, length, get_or, take, map, ◌==◌, leb, if◌then◌else◌,
}
use structured_additive_ir.Mapping.Expr.{MappingExpr, none_expr}
use structured_additive_ir.Mapping.Attr.{MappingAttr, has_none_exprs}
use structured_additive_ir.Loops.Nest.{LoopAttr, name_of, iter_of}
use structured_additive_ir.Loops.Mapped.{
  ValueAccess, MappedDomain, LoopNest, empty, inner_loop, num_loops, loop_names, mapped_domain,
  add_none_prefix_to_mapping, unify_mapping, Unified, unified, emitted_error, failed_assert,
  same_names,
}

-- What the analysis reads of a `ComputeOpInstance`; operations are numbers.
pub record ComputeOp : Type 0 where
  pub op : ℕ
  pub loops : List LoopAttr
  pub domain_with_dependencies : List ValueAccess

pub record LoopFusionClass : Type 0 where
  pub name : ℕ
  pub mapped : MappedDomain
  pub last_op : ℕ
  pub unroll_factor : ℕ

-- `fusion_classes_`.
unfoldable pub find_class : ℕ → List LoopFusionClass → Option LoopFusionClass
find_class name [] = none
find_class name (c ∷ cs) = let rest = find_class name cs in if name == c.name then some c else rest

unfoldable pub put_class : LoopFusionClass → List LoopFusionClass → List LoopFusionClass
put_class c [] = c ∷ []
put_class c (x ∷ xs) = let rest = put_class c xs in if c.name == x.name then c ∷ xs else x ∷ rest

abbrev pub no_loop : LoopAttr
no_loop = record { name = 0; iter = none_expr; unroll = none }

-- Returned as `unsigned`, of 32 bits.
unfoldable pub extract_unroll_factor : ComputeOp → ℕ → ℕ
extract_unroll_factor op pos = elim (get_or op.loops pos no_loop).unroll [
  | none ↦ 0
  | some unroll_factor ↦ unroll_factor % 2 ^ 32
]

abbrev pub last? : List ℕ → Option ℕ
last? [] = none
last? (x ∷ []) = some x
last? (x ∷ y ∷ ys) = last? (y ∷ ys)

-- `none` where the code reads the end iterator.
unfoldable pub get_loop_nest : List ℕ → List LoopFusionClass → Option LoopNest
unfolding find_class
get_loop_nest names classes = elim (last? names) [
  | none ↦ some empty
  | some name ↦ elim (find_class name classes) [
    | none ↦ none
    | some c ↦ some (inner_loop c.name c.mapped)
  ]
]

-- The constructor of `LoopFusionClass`.
unfoldable pub fusion_class : ℕ → ComputeOp → LoopNest → LoopFusionClass
unfolding mapped_domain add_none_prefix_to_mapping extract_unroll_factor
fusion_class name op loop_nest = record {
  name = name;
  mapped = add_none_prefix_to_mapping (mapped_domain loop_nest) 1;
  last_op = op.op;
  unroll_factor = extract_unroll_factor op (num_loops loop_nest);
}

pub data Registered : Type 0 where
  registered : List LoopFusionClass → Registered
  rejected : Registered
  undefined_behaviour : Registered

abbrev pub outer_names : ComputeOp → ℕ → List ℕ
outer_names op loop_pos = map name_of (take loop_pos op.loops)

module _ (is_placeholder_op : ℕ → Bool) (is_before : ℕ → ℕ → Bool) where
  unfoldable pub add_use : LoopFusionClass → ComputeOp → LoopFusionClass
  add_use c op = if is_before c.last_op op.op then record c { last_op = op.op } else c

  -- The end of `RegisterLoop`: the loop's iterator is unified with the mapping of the class.
  unfoldable pub unify_class : ComputeOp → ℕ → LoopFusionClass → List LoopFusionClass → Registered
  unfolding unify_mapping put_class
  unify_class op loop_pos c classes =
      let domain_size = length op.domain_with_dependencies in
      let loop_nest_mapping : MappingAttr = record {
        use_domain_size = domain_size;
        dimensions = map iter_of (take loop_pos op.loops);
      } in
      let mapping : MappingAttr = record {
        use_domain_size = domain_size;
        dimensions = (get_or op.loops loop_pos no_loop).iter ∷ [];
      } in
      elim (unify_mapping is_placeholder_op c.mapped loop_nest_mapping mapping
        op.domain_with_dependencies) [
          | emitted_error ↦ rejected
          | failed_assert ↦ undefined_behaviour
          | unified mapped constraints ↦
              registered (put_class (record c { mapped = mapped }) classes)
        ]

  -- The class, after the checks of `RegisterLoop`; `none` where they emit an error.
  unfoldable pub checked_class :
      ComputeOp → ℕ → Option LoopFusionClass → LoopFusionClass → Option LoopFusionClass
  unfolding extract_unroll_factor add_use
  checked_class op loop_pos none new_class =
      if same_names (outer_names op loop_pos) new_class.mapped.loop_nest
      then some new_class
      else none
  checked_class op loop_pos (some c) new_class =
      if not (same_names (outer_names op loop_pos) c.mapped.loop_nest)
      then none
      else if extract_unroll_factor op loop_pos == c.unroll_factor
      then some (add_use c op)
      else none

  unfoldable pub register_loop : ComputeOp → ℕ → List LoopFusionClass → Registered
  unfolding get_loop_nest fusion_class find_class checked_class unify_class
  register_loop op loop_pos classes =
      let name = (get_or op.loops loop_pos no_loop).name in
      elim (get_loop_nest (outer_names op loop_pos) classes) [
        | none ↦ undefined_behaviour
        | some loop_nest ↦
            elim (checked_class op loop_pos (find_class name classes)
              (fusion_class name op loop_nest)) [
                | none ↦ rejected
                | some c ↦ unify_class op loop_pos c classes
              ]
      ]

  -- Registrations one after the other, as the loops of `Init` make them; the order is given.
  unfoldable pub register_all : List (ComputeOp × ℕ) → List LoopFusionClass → Registered
  unfolding register_loop
  register_all [] classes = registered classes
  register_all ((op, loop_pos) ∷ rest) classes =
      let continue = register_all rest in
      elim (register_loop op loop_pos classes) [
        | registered classes' ↦ continue classes'
        | rejected ↦ rejected
        | undefined_behaviour ↦ undefined_behaviour
      ]
