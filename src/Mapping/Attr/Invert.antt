-- ===== src/Mapping/Attr/Invert.antt =====
-- `Inverse` and `VerifyMappingExprs`.
use structured_additive_ir.Common.{
  ℕ, zero, suc, ◌+◌, ◌<◌, ◌≡◌, ◌≢◌, false, inl, inr, Option-cases, ◌↔◌, refl, sym, ap, ◌∙◌, subst,
  none, some, List, [], ◌∷◌, arith, length, length-replicate, get_or, get_or-replicate, replicate,
  >>=-eq-some, map_option-eq-some, All,
}
use structured_additive_ir.Mapping.Expr.{MappingExpr, dim, none_expr}
use structured_additive_ir.Mapping.Expr.Leaves.{Below}
use structured_additive_ir.Mapping.Expr.Valid.{IsValid}
use structured_additive_ir.Mapping.Inverse.{set_inverse, find_in_inverse}
use structured_additive_ir.Mapping.Inverse.Grows.{
  ValidInverses, Grows-refl, Grows-trans, Kept, set_inverse-Kept,
}
use structured_additive_ir.Mapping.Inverse.Finds.{Specified, find_in_inverse-set_inverse}
use structured_additive_ir.Mapping.Attr.{
  MappingAttr, size, dimension, verify_exprs_from, verify_mapping_exprs, set_inverses, inverse,
  get_checked,
}
use structured_additive_ir.Mapping.Attr.Compose.{InDomain}

set_inverses-Kept :
    (k : ℕ) (es inverses final : List MappingExpr)
    → All IsValid es
    → All (Below (length inverses)) es
    → ValidInverses inverses
    → set_inverses k es inverses ≡ some final
    → Kept inverses final
unfolding set_inverses
set_inverses-Kept k [] inverses final v b vi h =
    let e : inverses ≡ final = cc in
    subst (Kept inverses) e (record { grows = Grows-refl inverses; valid = vi })
set_inverses-Kept k (e ∷ es) inverses final v b vi h =
    let (mid, ok, rest) = >>=-eq-some (set_inverse e (dim k) inverses) _ h in
    let first = set_inverse-Kept e (dim k) inverses mid v.0 b.0 tt vi ok in
    let later =
      set_inverses-Kept (k + 1) es mid final v.1
        (subst (λ n. All (Below n) es) (sym first.grows.size) b.1) first.valid rest in
    record { grows = Grows-trans inverses mid final first.grows later.grows; valid = later.valid }

set_inverses-found :
    (k : ℕ) (es inverses final : List MappingExpr) (i : ℕ)
    → All Specified es
    → All IsValid es
    → All (Below (length inverses)) es
    → ValidInverses inverses
    → set_inverses k es inverses ≡ some final
    → i < length es
    → find_in_inverse (get_or es i none_expr) final ≡ dim (k + i)
unfolding set_inverses
set_inverses-found k [] inverses final i sp v b vi h lt = absurd (omega arith)
set_inverses-found k (e ∷ es) inverses final zero sp v b vi h lt =
    let (mid, ok, rest) = >>=-eq-some (set_inverse e (dim k) inverses) _ h in
    let first = set_inverse-Kept e (dim k) inverses mid v.0 b.0 tt vi ok in
    let later =
      set_inverses-Kept (k + 1) es mid final v.1
        (subst (λ n. All (Below n) es) (sym first.grows.size) b.1) first.valid rest in
    find_in_inverse-set_inverse e (dim k) inverses mid final sp.0 v.0 b.0 tt vi ok later.grows
    ∙ ap dim (omega arith)
set_inverses-found k (e ∷ es) inverses final (suc i) sp v b vi h lt =
    let (mid, ok, rest) = >>=-eq-some (set_inverse e (dim k) inverses) _ h in
    let first = set_inverse-Kept e (dim k) inverses mid v.0 b.0 tt vi ok in
    set_inverses-found (k + 1) es mid final i sp.1 v.1
      (subst (λ n. All (Below n) es) (sym first.grows.size) b.1) first.valid rest (omega arith)
    ∙ ap dim (omega arith)

nones-ValidInverses : (n : ℕ) → ValidInverses (replicate n none_expr)
nones-ValidInverses n d = rw (get_or-replicate n d none_expr) tt

-- In the inverse of a mapping with no placeholder, `FindInInverse` of the expression at position
-- `i` finds exactly dimension `i`.
pub find_in_inverse-inverse :
    (m inv : MappingAttr) (i : ℕ)
    → All Specified m.dimensions
    → All IsValid m.dimensions
    → InDomain m
    → inverse m ≡ some inv
    → i < size m
    → find_in_inverse (dimension m i) inv.dimensions ≡ dim i
unfolding inverse
find_in_inverse-inverse m inv i sp v b h lt =
    let (final, ok, e) =
      map_option-eq-some _ (set_inverses 0 m.dimensions (replicate m.use_domain_size none_expr))
        h in
    subst (λ (x : MappingAttr). find_in_inverse (dimension m i) x.dimensions ≡ dim i) e
      (set_inverses-found 0 m.dimensions _ final i sp v
          (subst (λ n. All (Below n) m.dimensions)
            (sym (length-replicate m.use_domain_size none_expr)) b)
          (nones-ValidInverses m.use_domain_size) ok lt
        ∙ ap dim (omega arith))

-- The inverse maps back: its use domain has the size of the mapping, it has one expression for
-- each dimension of the mapping's use domain, and they pass the asserts.
pub inverse-shape :
    (m inv : MappingAttr)
    → All IsValid m.dimensions
    → InDomain m
    → inverse m ≡ some inv
    → (inv.use_domain_size ≡ size m) × (size inv ≡ m.use_domain_size) × ValidInverses inv.dimensions
unfolding inverse
inverse-shape m inv v b h =
    let (final, ok, e) =
      map_option-eq-some _ (set_inverses 0 m.dimensions (replicate m.use_domain_size none_expr))
        h in
    let n = length-replicate m.use_domain_size none_expr in
    let kept =
      set_inverses-Kept 0 m.dimensions _ final v (subst (λ n. All (Below n) m.dimensions) (sym n) b)
        (nones-ValidInverses m.use_domain_size) ok in
    subst
      (λ (x : MappingAttr).
        (x.use_domain_size ≡ size m) × (size x ≡ m.use_domain_size) × ValidInverses x.dimensions)
      e (refl, kept.grows.size ∙ n, kept.valid)

-- The loop of `VerifyMappingExprs` fails where the loop of `Inverse` does.
verify_exprs_from-set_inverses :
    (k : ℕ) (es inverses : List MappingExpr)
    → (verify_exprs_from k es inverses ≡ false) ↔ (set_inverses k es inverses ≡ none)
unfolding verify_exprs_from set_inverses
verify_exprs_from-set_inverses k [] inverses = (λ h. cc, λ h. cc)
verify_exprs_from-set_inverses k (e ∷ es) inverses =
    elim (Option-cases (set_inverse e (dim k) inverses)) [
      | inl failed ↦ rw (failed, verify_exprs_from, set_inverses) (λ h. refl, λ h. refl)
      | inr (mid, ok) ↦
          rw (ok, verify_exprs_from, set_inverses) (verify_exprs_from-set_inverses (k + 1) es mid)
    ]

pub get_checked-inverse :
    (n : ℕ) (exprs : List MappingExpr)
    → (get_checked n exprs ≡ none)
      ↔ (inverse (record { use_domain_size = n; dimensions = exprs }) ≡ none)
unfolding get_checked verify_mapping_exprs inverse
get_checked-inverse n exprs =
    ground (arith, verify_exprs_from-set_inverses 0 exprs (replicate n none_expr))

get_checked-fields :
    (n : ℕ) (exprs : List MappingExpr) (m : MappingAttr)
    → get_checked n exprs ≡ some m
    → m ≡ record { use_domain_size = n; dimensions = exprs }
unfolding get_checked
get_checked-fields n exprs m h = ground arith

-- A mapping that `getChecked` accepts, with no placeholder, with valid factors and in its domain,
-- has different expressions at different positions.
pub get_checked_injective :
    (n : ℕ) (exprs : List MappingExpr) (m : MappingAttr) (i j : ℕ)
    → get_checked n exprs ≡ some m
    → All Specified m.dimensions
    → All IsValid m.dimensions
    → InDomain m
    → i < size m
    → j < size m
    → i ≢ j
    → dimension m i ≢ dimension m j
get_checked_injective n exprs m i j h sp v b lt lt' ne same = elim (Option-cases (inverse m)) [
  | inl failed ↦
      (let rejected : get_checked n exprs ≡ none =
          (get_checked-inverse n exprs).1
            (subst (λ x. inverse x ≡ none) (get_checked-fields n exprs m h) failed) in
        cc)
  | inr (inv, ok) ↦
      (let one = find_in_inverse-inverse m inv i sp v b ok lt in
        let two = find_in_inverse-inverse m inv j sp v b ok lt' in
        let equal : dim i ≡ dim j =
          sym one ∙ ap (λ e. find_in_inverse e inv.dimensions) same ∙ two in
        let numbers : i ≡ j = cc in absurd (ne numbers))
]
