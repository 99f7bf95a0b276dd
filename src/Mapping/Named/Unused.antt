-- ===== src/Mapping/Named/Unused.antt =====
-- `NamedMappingAttr::DropUnusedDims` of sair_attributes.cc.
use mathlib.Core.List.{map-map}
use structured_additive_ir.Common.{
  ℕ, zero, suc, ◌+◌, ◌≤◌, ◌≡◌, refl, sym, ap, ap₂, ◌∙◌, subst, Bool, true, false, List, [], ◌∷◌,
  arith, All, All-imp, map-congr, get_or, get_or-set, length-set, length, length-replicate,
  replicate, get_or-map, map, foldl, ◌==◌,
}
use structured_additive_ir.Mapping.Expr.{
  MappingExpr, MappingExprs, dim, none_expr, unknown_expr, stripe, unstripe, nil, cons, walk,
  set_bit, set_dependencies_in_mask, substitute_dims,
}
use structured_additive_ir.Mapping.Expr.Leaves.{
  Leaves, LeavesAll, Leaves-imp, DimBelow, Below, walk-Leaves,
}
use structured_additive_ir.Mapping.Expr.Substitute.{
  substitute_dims-dim, substitute_all, substitute_dims-compose,
}
use structured_additive_ir.Mapping.Attr.{MappingAttr, dependency_mask}
use structured_additive_ir.Mapping.Attr
use structured_additive_ir.Mapping.Attr.Compose.{InDomain}
use structured_additive_ir.Mapping.Named.{NamedMapping, substitutions, used_names, drop_unused_dims}

-- The expressions with each dimension replaced by its name.
abbrev pub accesses : NamedMapping → List MappingExpr
accesses n = map (λ e. substitute_dims e (map dim n.names)) n.mapping.dimensions

abbrev InMask : List Bool → MappingExpr → Type 0
InMask mask (dim d) = get_or mask d false ≡ true
InMask mask _ = Unit

-- The new dimension of a used one has its name.
substitutions-used_names :
    (bits : List Bool) (names : List ℕ) (next d : ℕ)
    → length bits ≤ length names
    → get_or bits d false ≡ true
    → (r : ℕ) × (get_or (substitutions bits next) d none_expr ≡ dim (next + r))
      × (get_or (map dim (used_names bits names)) r none_expr ≡ get_or (map dim names) d none_expr)
unfolding substitutions used_names
substitutions-used_names [] names next d le h = cc
substitutions-used_names (used ∷ bits) [] next d le h = absurd (omega arith)
substitutions-used_names (true ∷ bits) (name ∷ names) next zero le h =
    (0, ap dim {x = next} {y = next + 0} (omega arith), refl)
substitutions-used_names (false ∷ bits) (name ∷ names) next zero le h = cc
substitutions-used_names (true ∷ bits) (name ∷ names) next (suc d) le h =
    let (r, new, same) = substitutions-used_names bits names (next + 1) d (omega arith) h in
    (suc r, new ∙ ap dim {x = next + 1 + r} {y = next + suc r} (omega arith), same)
substitutions-used_names (false ∷ bits) (name ∷ names) next (suc d) le h =
    substitutions-used_names bits names next d (omega arith) h

pub length-set_bit : (mask : List Bool) (e : MappingExpr) → length (set_bit mask e) ≡ length mask
length-set_bit mask (dim d) = length-set mask d true
length-set_bit mask none_expr = refl
length-set_bit mask unknown_expr = refl
length-set_bit mask (stripe e fs) = refl
length-set_bit mask (unstripe es fs) = refl

-- Bits stay set.
set_bit-keeps :
    (mask : List Bool) (e : MappingExpr) (d : ℕ)
    → DimBelow (length mask) e
    → get_or mask d false ≡ true
    → get_or (set_bit mask e) d false ≡ true
set_bit-keeps mask (dim i) d b h = get_or-set mask i d true false b ∙ ground (arith, h)
set_bit-keeps mask none_expr d b h = h
set_bit-keeps mask unknown_expr d b h = h
set_bit-keeps mask (stripe e fs) d b h = h
set_bit-keeps mask (unstripe es fs) d b h = h

set_bit-sets :
    (mask : List Bool) (e : MappingExpr) → DimBelow (length mask) e → InMask (set_bit mask e) e
set_bit-sets mask (dim i) b =
    let here : (i == i) ≡ true = ground arith in get_or-set mask i i true false b ∙ rw here refl
set_bit-sets mask none_expr b = tt
set_bit-sets mask unknown_expr b = tt
set_bit-sets mask (stripe e fs) b = tt
set_bit-sets mask (unstripe es fs) b = tt

abbrev Keeps : List Bool → List Bool → Type 0
Keeps mask after =
    (length after ≡ length mask)
    × ((d : ℕ) → get_or mask d false ≡ true → get_or after d false ≡ true)

InMask-Keeps :
    (mask after : List Bool) → Keeps mask after → (e : MappingExpr) → InMask mask e → InMask after e
InMask-Keeps mask after k (dim d) h = k.1 d h
InMask-Keeps mask after k none_expr h = tt
InMask-Keeps mask after k unknown_expr h = tt
InMask-Keeps mask after k (stripe e fs) h = tt
InMask-Keeps mask after k (unstripe es fs) h = tt

-- A walk sets the bits of all dimensions that it meets.
foldl-set_bit :
    (xs : List MappingExpr) (mask : List Bool)
    → All (DimBelow (length mask)) xs
    → Keeps mask (foldl set_bit mask xs) × All (InMask (foldl set_bit mask xs)) xs
foldl-set_bit [] mask h = ((refl, λ d m. m), tt)
foldl-set_bit (x ∷ xs) mask h =
    let count = length-set_bit mask x in
    let (keeps, met) =
      foldl-set_bit xs (set_bit mask x) (subst (λ n. All (DimBelow n) xs) (sym count) h.1) in
    (
      (keeps.0 ∙ count, λ d m. keeps.1 d (set_bit-keeps mask x d h.0 m)),
      (
        InMask-Keeps (set_bit mask x) (foldl set_bit (set_bit mask x) xs) keeps x
            (set_bit-sets mask x h.0),
        met,
      ),
    )

Leaves-Keeps :
    (mask after : List Bool)
    → Keeps mask after
    → (e : MappingExpr) → Leaves (InMask mask) e
    → Leaves (InMask after) e
Leaves-Keeps mask after k = Leaves-imp (InMask mask) (InMask after) (InMask-Keeps mask after k)

set_dependencies_in_mask-InMask :
    (mask : List Bool) (e : MappingExpr)
    → Below (length mask) e
    → Keeps mask (set_dependencies_in_mask mask e)
      × Leaves (InMask (set_dependencies_in_mask mask e)) e
unfolding set_dependencies_in_mask
set_dependencies_in_mask-InMask mask e b =
    let walked =
      foldl-set_bit (walk e) mask
        ((walk-Leaves (DimBelow (length mask)) (λ _ _. tt) (λ _ _. tt) e).1 b) in
    (
      walked.0,
      (walk-Leaves (InMask (foldl set_bit mask (walk e))) (λ _ _. tt) (λ _ _. tt) e).0 walked.1,
    )

foldl-set_dependencies_in_mask :
    (es : List MappingExpr) (mask : List Bool)
    → All (Below (length mask)) es
    → Keeps mask (foldl set_dependencies_in_mask mask es)
      × All (Leaves (InMask (foldl set_dependencies_in_mask mask es))) es
foldl-set_dependencies_in_mask [] mask h = ((refl, λ d m. m), tt)
foldl-set_dependencies_in_mask (e ∷ es) mask h =
    let (first, inside) = set_dependencies_in_mask-InMask mask e h.0 in
    let next = set_dependencies_in_mask mask e in
    let (keeps, met) =
      foldl-set_dependencies_in_mask es next (subst (λ n. All (Below n) es) (sym first.0) h.1) in
    (
      (keeps.0 ∙ first.0, λ d m. keeps.1 d (first.1 d m)),
      (Leaves-Keeps next (foldl set_dependencies_in_mask next es) keeps e inside, met),
    )

mutual
  unfolding substitute_dims

  -- Only the expressions for the dimensions in the mask matter.
  substitute_dims-masked :
      (e : MappingExpr) (mask : List Bool) (s t : List MappingExpr)
      → Leaves (InMask mask) e
      → ((d : ℕ) → get_or mask d false ≡ true → get_or s d none_expr ≡ get_or t d none_expr)
      → substitute_dims e s ≡ substitute_dims e t
  substitute_dims-masked (dim d) mask s t h agree =
      substitute_dims-dim d s ∙ agree d h ∙ sym (substitute_dims-dim d t)
  substitute_dims-masked none_expr mask s t h agree = refl
  substitute_dims-masked unknown_expr mask s t h agree = refl
  substitute_dims-masked (stripe e fs) mask s t h agree =
      ap (λ x. stripe x fs) (substitute_dims-masked e mask s t h agree)
  substitute_dims-masked (unstripe es fs) mask s t h agree =
      ap (λ xs. unstripe xs fs) (substitute_all-masked es mask s t h agree)

  substitute_all-masked :
      (es : MappingExprs) (mask : List Bool) (s t : List MappingExpr)
      → LeavesAll (InMask mask) es
      → ((d : ℕ) → get_or mask d false ≡ true → get_or s d none_expr ≡ get_or t d none_expr)
      → substitute_all es s ≡ substitute_all es t
  substitute_all-masked nil mask s t h agree = refl
  substitute_all-masked (cons e es) mask s t h agree =
      ap₂ cons (substitute_dims-masked e mask s t h.0 agree)
        (substitute_all-masked es mask s t h.1 agree)

dependency_mask-InMask :
    (m : MappingAttr)
    → InDomain m
    → (length (dependency_mask m) ≡ m.use_domain_size)
      × All (Leaves (InMask (dependency_mask m))) m.dimensions
unfolding dependency_mask
dependency_mask-InMask m h =
    let count = length-replicate m.use_domain_size false in
    let (keeps, met) =
      foldl-set_dependencies_in_mask m.dimensions (replicate m.use_domain_size false)
        (subst (λ k. All (Below k) m.dimensions) (sym count) h) in
    (keeps.0 ∙ count, met)

-- `DropUnusedDims` of a named mapping in its domain, with a name for each dimension of it, leaves
-- the expressions unchanged when each dimension is replaced by its name.
pub drop_unused_dims-accesses :
    (n : NamedMapping)
    → InDomain n.mapping
    → length n.names ≡ n.mapping.use_domain_size
    → accesses (drop_unused_dims n) ≡ accesses n
unfolding drop_unused_dims Attr.compose
drop_unused_dims-accesses n h named =
    let mask = dependency_mask n.mapping in
    let (count, inside) = dependency_mask-InMask n.mapping h in
    let subs = substitutions mask 0 in
    let new_names = map dim (used_names mask n.names) in
    let agree : (d : ℕ)
        → get_or mask d false ≡ true
        → get_or (map (λ x. substitute_dims x new_names) subs) d none_expr
          ≡ get_or (map dim n.names) d none_expr =
      λ d m.
        let (r, new, same) =
          substitutions-used_names mask n.names 0 d (omega (arith, count, named)) m in
        get_or-map (λ x. substitute_dims x new_names) subs d none_expr
        ∙ ap (λ x. substitute_dims x new_names) new
        ∙ substitute_dims-dim (0 + r) new_names
        ∙ ap (λ k. get_or new_names k none_expr) {x = 0 + r} {y = r} (omega arith)
        ∙ same in
    map-map (λ e. substitute_dims e new_names) (λ e. substitute_dims e subs) n.mapping.dimensions
    ∙ map-congr (λ e. substitute_dims (substitute_dims e subs) new_names)
        (λ e. substitute_dims e (map dim n.names)) n.mapping.dimensions
        (All-imp (Leaves (InMask mask)) _ n.mapping.dimensions
          (λ e used.
            substitute_dims-compose e subs new_names
            ∙ substitute_dims-masked e mask (map (λ x. substitute_dims x new_names) subs)
                (map dim n.names) used agree)
          inside)
