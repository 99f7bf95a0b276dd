-- ===== src/Loops/Nest.antt =====
-- `VerifyLoopNestWellFormed` up to its call of `VerifyMappingShape`, and `VerifySubDomains`.
pub mod WellFormed
pub mod SubDomains
use structured_additive_ir.Common.{
  ℕ, zero, suc, ◌+◌, Bool, true, false, ◌||◌, not, Option, none, some, List, [], ◌∷◌, map,
  if◌then◌else◌, ltb, leb, mem, ◌>>=◌,
}
use structured_additive_ir.Mapping.Expr.{
  MappingExpr, has_unknown_exprs, has_none_exprs as expr_has_none_exprs, min_domain_size,
  dependency_mask,
}
use structured_additive_ir.Mapping.Attr.{MappingAttr, get_checked, inverse, has_none_exprs}

-- `LoopAttr`. Names are numbers; the unroll factor is there where the loop is unrolled.
pub record LoopAttr : Type 0 where
  pub name : ℕ
  pub iter : MappingExpr
  pub unroll : Option ℕ

pub data NestError : Type 0 where
  name_used_twice : NestError
  dimension_out_of_range : NestError
  unknown_iterator : NestError
  incompatible_iterators : NestError
  dimensions_not_covered : NestError

-- The loop over the loop nest, after the loops with the given names.
unfoldable pub verify_loops : ℕ → List ℕ → List LoopAttr → Option NestError
unfolding min_domain_size has_unknown_exprs
verify_loops domain_size names [] = none
verify_loops domain_size names (l ∷ ls) =
    let rest = verify_loops domain_size (l.name ∷ names) ls in
    if mem l.name names
    then some name_used_twice
    else if ltb domain_size (min_domain_size l.iter)
    then some dimension_out_of_range
    else if has_unknown_exprs l.iter
    then some unknown_iterator
    else rest

-- The result before the shape is verified; `failed_assert` where `Inverse` does not return.
pub data NestResult : Type 0 where
  accepted : MappingAttr → NestResult
  rejected : NestError → NestResult
  failed_assert : NestResult

unfoldable pub verify_covered : MappingAttr → NestResult
unfolding inverse has_none_exprs
verify_covered mapping = elim (inverse mapping) [
  | none ↦ failed_assert
  | some inverted ↦
      if has_none_exprs inverted then rejected dimensions_not_covered else accepted mapping
]

unfoldable pub verify_iterators : ℕ → List MappingExpr → NestResult
unfolding get_checked verify_covered
verify_iterators domain_size iter_exprs = elim (get_checked domain_size iter_exprs) [
  | none ↦ rejected incompatible_iterators
  | some mapping ↦ verify_covered mapping
]

abbrev pub name_of : LoopAttr → ℕ
name_of l = l.name

abbrev pub iter_of : LoopAttr → MappingExpr
iter_of l = l.iter

unfoldable pub verify_loop_nest_well_formed : ℕ → List LoopAttr → NestResult
unfolding verify_loops verify_iterators
verify_loop_nest_well_formed domain_size loop_nest = elim (verify_loops domain_size [] loop_nest) [
  | none ↦ verify_iterators domain_size (map iter_of loop_nest)
  | some e ↦ rejected e
]

-- `any`, `find_first` and `find_last` of a bit vector, the latter two where a bit is set.
abbrev pub any_bit : List Bool → Bool
any_bit [] = false
any_bit (b ∷ bs) = b || any_bit bs

abbrev pub find_first : List Bool → ℕ
find_first [] = 0
find_first (b ∷ bs) = let rest = find_first bs in if b then 0 else suc rest

abbrev pub find_last : List Bool → ℕ
find_last [] = 0
find_last (b ∷ bs) = let rest = find_last bs in if any_bit bs then suc rest else 0

-- The `while` loop of `VerifySubDomains`; the list is what `sub_domain` has not passed. `none`
-- where the code reads past the end of `sub_domains`.
unfoldable pub find_sub_domain : ℕ → ℕ → ℕ → List ℕ → Option (ℕ × ℕ)
find_sub_domain first min_dim_index max_dim_index [] =
    if leb max_dim_index first then none else some (min_dim_index, max_dim_index)
find_sub_domain first min_dim_index max_dim_index (size ∷ sizes) =
    let rest = find_sub_domain first max_dim_index (max_dim_index + size) sizes in
    if leb max_dim_index first then rest else some (min_dim_index, max_dim_index)

-- One loop of `VerifySubDomains`: `none` where the code reads out of range, else whether the
-- iterator passes.
unfoldable pub verify_sub_domain : ℕ → List ℕ → MappingExpr → Option Bool
unfolding dependency_mask expr_has_none_exprs find_sub_domain
verify_sub_domain domain_size [] e =
    if any_bit (dependency_mask e domain_size) then none else some true
verify_sub_domain domain_size (parallel ∷ sizes) e =
    let dimensions = dependency_mask e domain_size in
    let bounds =
      if expr_has_none_exprs e
      then some (0, parallel)
      else find_sub_domain (find_first dimensions) 0 parallel (parallel ∷ sizes) in
    if not (any_bit dimensions)
    then some true
    else bounds >>= λ (min_dim_index, max_dim_index). some (
        not (ltb (find_first dimensions) min_dim_index || leb max_dim_index (find_last dimensions)))

unfoldable pub verify_sub_domains : ℕ → List ℕ → List MappingExpr → Option Bool
unfolding verify_sub_domain
verify_sub_domains domain_size sub_domains [] = some true
verify_sub_domains domain_size sub_domains (e ∷ es) =
    let rest = verify_sub_domains domain_size sub_domains es in
    verify_sub_domain domain_size sub_domains e >>= λ passes. if passes then rest else some false
