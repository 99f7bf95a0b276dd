-- ===== src/Examples/LoopRuns.antt =====
-- Loop nests at concrete inputs: a sequence of operations in nested loops, the loop nest of one
-- operation, its sub-domains, and mappings between iteration spaces.
use structured_additive_ir.Common.{
  ◌≡◌, ◌↔◌, refl, true, false, none, some, List, [], ◌∷◌, ◌++◌, map, arith, mem, Distinct, All,
  get_or, ℕ_discrete,
}
use structured_additive_ir.Mapping.Expr.{
  MappingExpr, dim, unstripe, nil, cons, dependency_mask, has_none_exprs, MappingExpr-discrete,
  factors-discrete,
}
use structured_additive_ir.Mapping.Attr.{MappingAttr, dimension, inverse}
use structured_additive_ir.Mapping.Unify
use structured_additive_ir.Mapping.Canonical.{canonicalize}
use structured_additive_ir.Loops.State.{
  LoopNestState, SequencedOp, initial_state, verify_sequence, loops_of,
}
use structured_additive_ir.Loops.State.Tree.{outer_loops, verify_sequence-tree}
use structured_additive_ir.Loops.State.Opened.{loops_of_all, verify_sequence-opened}
use structured_additive_ir.Loops.Nest.{
  LoopAttr, name_of, verify_loop_nest_well_formed, accepted, verify_sub_domains,
}
use structured_additive_ir.Loops.Nest.WellFormed.{
  IsIterator, IsCovering, iterators, verify_loop_nest_well_formed-accepted_iff,
}
use structured_additive_ir.Loops.Nest.SubDomains.{verify_sub_domains-parallel}
use structured_additive_ir.Loops.Space.{
  IterationSpace, num_common_loops, try_translate_mapping, translated,
}
use structured_additive_ir.Loops.Space.Translate.{try_translate_mapping-common}
use structured_additive_ir.Mapping.Constraints.{unification_constraints, out_of_range}
use structured_additive_ir.Loops.Mapped.{
  ValueAccess, MappedDomain, empty, mapped_domain, add_none_prefix_to_mapping, unify_mapping,
  unified,
}
use structured_additive_ir.Loops.Mapped.Extends.{Extends, IsOver, unify_mapping-Extends}
use structured_additive_ir.Mapping.Expr.{none_expr}
use structured_additive_ir.Common.{ltb, ◌≡◌}
use structured_additive_ir.Mapping.Expr.{stripe}
use structured_additive_ir.Loops.Fusion.{
  ComputeOp, LoopFusionClass, registered, outer_names, extract_unroll_factor,
}
use structured_additive_ir.Common.{inl, inr}
use structured_additive_ir.Loops.Fusion.Init.{init}
use structured_additive_ir.Loops.Fusion.Agree.{init-shared}

-- In loops 1 and 2, then in loops 1 and 3, then without a loop.
abbrev in_two : SequencedOp
in_two = record { loop_nest = some (1 ∷ 2 ∷ []); ranges_defined = true; needs_open = [] }

abbrev in_three : SequencedOp
in_three = record { loop_nest = some (1 ∷ 3 ∷ []); ranges_defined = true; needs_open = 2 ∷ [] }

abbrev outside : SequencedOp
outside = record { loop_nest = none; ranges_defined = true; needs_open = 3 ∷ [] }

abbrev final_state : LoopNestState
final_state = record { open_loops = []; closed_loops = 1 ∷ 3 ∷ 2 ∷ [] }

accepted_sequence :
    verify_sequence (in_two ∷ in_three ∷ in_three ∷ outside ∷ []) initial_state ≡ some final_state
unfolding verify_sequence
accepted_sequence = refl

-- Loop 2 does not open again.
rejected_sequence : verify_sequence (in_two ∷ in_three ∷ in_two ∷ []) initial_state ≡ none
unfolding verify_sequence
rejected_sequence = refl

verify_sequence-tree_example :
    All (λ op. mem 1 (loops_of op) ≡ true) (in_three ∷ [])
    × (outer_loops 1 (loops_of in_two) ≡ outer_loops 1 (loops_of in_three))
verify_sequence-tree_example =
    verify_sequence-tree 1 [] in_two (in_three ∷ []) in_three (outside ∷ []) final_state
      ((refl, (refl, tt)), ((refl, (refl, tt)), ((refl, (refl, tt)), (tt, tt)))) accepted_sequence
      refl refl

verify_sequence-opened_example :
    All
      (λ l. mem l (loops_of_all (in_two ∷ in_three ∷ in_three ∷ []) ++ loops_of outside) ≡ true)
      outside.needs_open
verify_sequence-opened_example =
    verify_sequence-opened (in_two ∷ in_three ∷ in_three ∷ []) outside [] final_state
      accepted_sequence

-- Loops 5 and 6 over two dimensions, in the other order.
abbrev swapped_nest : List LoopAttr
swapped_nest =
    record { name = 5; iter = dim 1; unroll = none }
    ∷ record { name = 6; iter = dim 0; unroll = none }
    ∷ []

verify_loop_nest_well_formed-accepted_iff_example :
    (verify_loop_nest_well_formed 2 swapped_nest ≡ accepted (iterators 2 swapped_nest)) ↔ (
      Distinct (map name_of swapped_nest)
      × All (IsIterator 2) swapped_nest
      × (iterators 2 swapped_nest ≡ iterators 2 swapped_nest)
      × IsCovering (iterators 2 swapped_nest))
verify_loop_nest_well_formed-accepted_iff_example =
    verify_loop_nest_well_formed-accepted_iff 2 swapped_nest (iterators 2 swapped_nest)

accepted_nest : verify_loop_nest_well_formed 2 swapped_nest ≡ accepted (iterators 2 swapped_nest)
unfolding verify_loop_nest_well_formed MappingExpr-discrete factors-discrete ℕ_discrete Unify.unify
accepted_nest = refl

-- A loop over the two parallel dimensions.
abbrev both_parallel : MappingExpr
both_parallel = unstripe (cons (dim 0) (cons (dim 1) nil)) (4 ∷ 1 ∷ [])

accepted_domains : verify_sub_domains 3 (2 ∷ 1 ∷ []) (dim 2 ∷ both_parallel ∷ []) ≡ some true
unfolding verify_sub_domains dependency_mask has_none_exprs
accepted_domains = refl

verify_sub_domains-parallel_example : get_or (dependency_mask both_parallel 3) 2 false ≡ false
unfolding has_none_exprs dependency_mask
verify_sub_domains-parallel_example =
    verify_sub_domains-parallel 3 2 (1 ∷ []) (dim 2 ∷ []) both_parallel [] 2 accepted_domains refl
      (omega arith)

-- A loop over the two dimensions of the second sub-domain, after one parallel dimension: the code
-- adds the size of the first sub-domain again and rejects it.
rejected_domains :
    verify_sub_domains 3 (1 ∷ 2 ∷ []) (unstripe (cons (dim 1) (cons (dim 2) nil)) (4 ∷ 1 ∷ []) ∷ [])
    ≡ some false
unfolding verify_sub_domains dependency_mask has_none_exprs
rejected_domains = refl

-- Two operations in loop 1 over the first dimension; the second is also in loop 2.
abbrev outer_space : IterationSpace
outer_space = record {
  loop_names = 1 ∷ [];
  mapping = record { use_domain_size = 2; dimensions = dim 0 ∷ dim 1 ∷ [] };
  fully_specified = true;
}

abbrev inner_space : IterationSpace
inner_space = record {
  loop_names = 1 ∷ 2 ∷ [];
  mapping = record { use_domain_size = 2; dimensions = dim 0 ∷ dim 1 ∷ [] };
  fully_specified = true;
}

abbrev identity_two : MappingAttr
identity_two = record { use_domain_size = 2; dimensions = dim 0 ∷ dim 1 ∷ [] }

translated_identity :
    try_translate_mapping outer_space inner_space identity_two ≡ translated identity_two
unfolding try_translate_mapping MappingExpr-discrete factors-discrete ℕ_discrete canonicalize
    Unify.unify inverse
translated_identity = refl

try_translate_mapping-common_example : dimension identity_two 0 ≡ dim 0
unfolding num_common_loops
try_translate_mapping-common_example =
    try_translate_mapping-common outer_space inner_space identity_two identity_two 0
      translated_identity (omega arith) (omega arith)

-- The fusion class of an outermost loop, before its first use: the mapping is `none`.
abbrev fresh_class : MappedDomain
fresh_class = record {
  domain = [];
  mapping = record { use_domain_size = 0; dimensions = none_expr ∷ [] };
  loop_nest = [];
  loops_mapping = record { use_domain_size = 0; dimensions = [] };
}

fresh_class-eq : add_none_prefix_to_mapping (mapped_domain empty) 1 ≡ fresh_class
unfolding add_none_prefix_to_mapping mapped_domain
fresh_class-eq = refl

-- An operation over two dimensions, and its loop over the second one.
abbrev two_dims : List ValueAccess
two_dims =
    record { value = 10; mapping = record { use_domain_size = 0; dimensions = [] } }
    ∷ record { value = 11; mapping = record { use_domain_size = 1; dimensions = [] } }
    ∷ []

abbrev second_dim : MappingAttr
second_dim = record { use_domain_size = 2; dimensions = dim 1 ∷ [] }

abbrev no_loops : MappingAttr
no_loops = record { use_domain_size = 2; dimensions = [] }

abbrev used_class : MappedDomain
used_class = record {
  domain = record { value = 11; mapping = record { use_domain_size = 0; dimensions = [] } } ∷ [];
  mapping = record { use_domain_size = 1; dimensions = dim 0 ∷ [] };
  loop_nest = [];
  loops_mapping = record { use_domain_size = 0; dimensions = [] };
}

unify_mapping-fresh_class :
    unify_mapping (λ op. false) fresh_class no_loops second_dim two_dims
    ≡ unified used_class (none_expr ∷ dim 0 ∷ [])
unfolding unify_mapping MappingExpr-discrete factors-discrete ℕ_discrete Unify.unify
    Unify.unify_with
unify_mapping-fresh_class = refl

unify_mapping-Extends_example : Extends fresh_class used_class × IsOver used_class
unify_mapping-Extends_example =
    unify_mapping-Extends (λ op. false) fresh_class used_class no_loops second_dim two_dims
      (none_expr ∷ dim 0 ∷ []) unify_mapping-fresh_class

-- The unstripe with fewer factors becomes the argument of the unification, so the callback gets a
-- dimension of the other mapping, which is not shifted: the code accesses the constraints below zero.
constraints-out_of_range :
    unification_constraints
      (record {
        use_domain_size = 1;
        dimensions = unstripe (cons (dim 0) (cons none_expr nil)) (4 ∷ 1 ∷ []) ∷ [];
      })
      (record {
        use_domain_size = 3;
        dimensions =
            unstripe (cons (dim 0) (cons (dim 1) (cons (dim 2) nil))) (4 ∷ 2 ∷ 1 ∷ []) ∷ [];
      })
      (none_expr ∷ [])
    ≡ out_of_range
unfolding unification_constraints MappingExpr-discrete factors-discrete ℕ_discrete Unify.unify
    Unify.unify_with
constraints-out_of_range = refl

-- Two operations in loop 1 over their one dimension; the second is in loop 2 as well.
abbrev one_dim : List ValueAccess
one_dim = record { value = 11; mapping = record { use_domain_size = 0; dimensions = [] } } ∷ []

abbrev outer_op : ComputeOp
outer_op = record {
  op = 20;
  loops = record { name = 1; iter = stripe (dim 0) (4 ∷ []); unroll = some 2 } ∷ [];
  domain_with_dependencies = one_dim;
}

abbrev inner_op : ComputeOp
inner_op = record {
  op = 21;
  loops =
      record { name = 1; iter = stripe (dim 0) (4 ∷ []); unroll = some 2 }
      ∷ record { name = 2; iter = stripe (dim 0) (4 ∷ 1 ∷ []); unroll = none }
      ∷ [];
  domain_with_dependencies = one_dim;
}

abbrev classes : List LoopFusionClass
classes =
    record {
      name = 1;
      mapped = record {
        domain = one_dim;
        mapping = record { use_domain_size = 1; dimensions = stripe (dim 0) (4 ∷ []) ∷ [] };
        loop_nest = [];
        loops_mapping = record { use_domain_size = 0; dimensions = [] };
      };
      last_op = 21;
      unroll_factor = 2;
    }
    ∷ record {
      name = 2;
      mapped = record {
        domain = one_dim;
        mapping = record { use_domain_size = 1; dimensions = stripe (dim 0) (4 ∷ 1 ∷ []) ∷ [] };
        loop_nest = 1 ∷ [];
        loops_mapping = record { use_domain_size = 1; dimensions = stripe (dim 0) (4 ∷ []) ∷ [] };
      };
      last_op = 21;
      unroll_factor = 0;
    }
    ∷ []

init_both : init (λ value. false) ltb 3 (outer_op ∷ inner_op ∷ []) ≡ some (registered classes)
unfolding init MappingExpr-discrete factors-discrete ℕ_discrete Unify.unify Unify.unify_with
init_both = refl

init-shared_example :
    (outer_names outer_op 0 ≡ outer_names inner_op 0)
    × (extract_unroll_factor outer_op 0 ≡ extract_unroll_factor inner_op 0)
init-shared_example =
    init-shared (λ value. false) ltb 2 (outer_op ∷ inner_op ∷ []) classes outer_op inner_op 0 0
      (omega arith, (omega arith, tt)) init_both (inl refl) (inr (inl refl)) (omega arith)
      (omega arith) refl

-- The factors 2 and 4294967298 of two operations in one loop count as the same.
abbrev wide_op : ComputeOp
wide_op = record {
  op = 21;
  loops = record { name = 1; iter = stripe (dim 0) (4 ∷ []); unroll = some 4294967298 } ∷ [];
  domain_with_dependencies = one_dim;
}

abbrev wide_classes : List LoopFusionClass
wide_classes =
    record {
      name = 1;
      mapped = record {
        domain = one_dim;
        mapping = record { use_domain_size = 1; dimensions = stripe (dim 0) (4 ∷ []) ∷ [] };
        loop_nest = [];
        loops_mapping = record { use_domain_size = 0; dimensions = [] };
      };
      last_op = 21;
      unroll_factor = 2;
    }
    ∷ []

init_wide : init (λ value. false) ltb 3 (outer_op ∷ wide_op ∷ []) ≡ some (registered wide_classes)
unfolding init MappingExpr-discrete factors-discrete ℕ_discrete Unify.unify Unify.unify_with
init_wide = refl
