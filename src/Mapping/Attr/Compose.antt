-- ===== src/Mapping/Attr/Compose.antt =====
-- `Compose`, `GetIdentity` and `IsIdentity` of `MappingAttr`.
use mathlib.Core.List.{map-map}
use structured_additive_ir.Common.{
  ℕ, zero, suc, ◌+◌, ◌<◌, ◌≡◌, refl, sym, ap, ap₂, ◌∙◌, true, ◌↔◌, List, [], ◌∷◌, map, arith,
  length, get_or, All, map-congr, All-of, All-imp,
}
use structured_additive_ir.Mapping.Expr.{
  MappingExpr, dim, none_expr, unknown_expr, stripe, unstripe, substitute_dims,
}
use structured_additive_ir.Mapping.Expr.Leaves.{Below}
use structured_additive_ir.Mapping.Expr.Substitute.{
  substitute_dims-compose, substitute_dims_self, substitute_dims-dim,
}
use structured_additive_ir.Mapping.Attr.{
  MappingAttr, size, dims_from, get_identity, compose, is_identity, is_identity_from,
}

-- The dimensions that occur are those of the use domain.
abbrev pub InDomain : MappingAttr → Type 0
InDomain m = All (Below m.use_domain_size) m.dimensions

pub get_or-dims_from : (i n d : ℕ) → d < n → get_or (dims_from i n) d none_expr ≡ dim (i + d)
unfolding dims_from
get_or-dims_from i zero d h = absurd (omega arith)
get_or-dims_from i (suc n) zero h = ap dim (omega arith)
get_or-dims_from i (suc n) (suc d) h =
    get_or-dims_from (i + 1) n d (omega arith) ∙ ap dim (omega arith)

pub length-dims_from : (i n : ℕ) → length (dims_from i n) ≡ n
unfolding dims_from
length-dims_from i zero = refl
length-dims_from i (suc n) = ap suc (length-dims_from (i + 1) n)

-- Composition is associative.
pub compose_assoc : (a b c : MappingAttr) → compose (compose a b) c ≡ compose a (compose b c)
unfolding compose
compose_assoc a b c =
    ap (λ es. record { use_domain_size = a.use_domain_size; dimensions = es })
      (map-congr _ _ c.dimensions
          (All-of _ c.dimensions λ e. sym (substitute_dims-compose e b.dimensions a.dimensions))
        ∙ sym (map-map _ _ c.dimensions))

pub map_self :
    (f : MappingExpr → MappingExpr) (xs : List MappingExpr) → All (λ x. f x ≡ x) xs → map f xs ≡ xs
map_self f [] h = refl
map_self f (x ∷ xs) h = rw (h.0, map_self f xs h.1)

-- The identity mapping is a left unit for the mappings in its domain.
pub compose-identity_left :
    (m : MappingAttr)
    → InDomain m
    → compose (get_identity m.use_domain_size m.use_domain_size) m ≡ m
unfolding compose get_identity
compose-identity_left m h =
    ap (λ es. record { use_domain_size = m.use_domain_size; dimensions = es })
      (map_self _ m.dimensions (
        All-imp _ _ m.dimensions
          (λ e b.
            substitute_dims_self e _ m.use_domain_size b
              (λ d lt. get_or-dims_from 0 _ d lt ∙ ap dim (omega arith)))
          h))

map-dims_from :
    (i : ℕ) (s es : List MappingExpr)
    → ((j : ℕ) → j < length es → get_or s (i + j) none_expr ≡ get_or es j none_expr)
    → map (λ e. substitute_dims e s) (dims_from i (length es)) ≡ es
unfolding dims_from
map-dims_from i s [] h = refl
map-dims_from i s (e ∷ es) h =
    let head : get_or s i none_expr ≡ e =
      ap (λ n. get_or s n none_expr) {x = i} {y = i + 0} (omega arith) ∙ h 0 (omega arith) in
    ap₂ ◌∷◌ (substitute_dims-dim i s ∙ head) (
      map-dims_from (i + 1) s es λ j lt.
        ap (λ n. get_or s n none_expr) {x = i + 1 + j} {y = i + suc j} (omega arith)
        ∙ h (suc j) (omega arith))

-- The identity on a mapping's dimensions is a right unit.
pub compose-identity_right : (m : MappingAttr) (n : ℕ) → compose m (get_identity (size m) n) ≡ m
unfolding compose get_identity
compose-identity_right m n =
    ap (λ es. record { use_domain_size = m.use_domain_size; dimensions = es })
      (map-dims_from 0 m.dimensions m.dimensions
        λ j lt. ap (λ n. get_or m.dimensions n none_expr) {x = 0 + j} {y = j} (omega arith))

is_identity_from_iff :
    (i : ℕ) (es : List MappingExpr)
    → (is_identity_from i es ≡ true) ↔ (es ≡ dims_from i (length es))
unfolding is_identity_from dims_from
is_identity_from_iff i [] = (λ h. refl, λ h. refl)
is_identity_from_iff i (dim d ∷ es) = ground (arith, is_identity_from_iff (i + 1) es)
is_identity_from_iff i (none_expr ∷ es) = (λ h. cc, λ h. cc)
is_identity_from_iff i (unknown_expr ∷ es) = (λ h. cc, λ h. cc)
is_identity_from_iff i (stripe e fs ∷ es) = (λ h. cc, λ h. cc)
is_identity_from_iff i (unstripe xs fs ∷ es) = (λ h. cc, λ h. cc)

-- `IsIdentity` recognises the identity mappings and no others.
pub is_identity_iff :
    (m : MappingAttr) → (is_identity m ≡ true) ↔ (m ≡ get_identity (size m) m.use_domain_size)
unfolding is_identity get_identity
is_identity_iff m =
    let both = is_identity_from_iff 0 m.dimensions in
    (
      λ h. ap (λ es. record { use_domain_size = m.use_domain_size; dimensions = es }) (both.0 h),
      λ h. both.1 (ap (λ (x : MappingAttr). x.dimensions) h),
    )
