-- ===== src/Mapping/Attr/Resize.antt =====
-- `MinDomainSize`, `ResizeUseDomain` and `ShiftRight`.
use mathlib.Core.List.{map-map}
use structured_additive_ir.Common.{
  ℕ, ◌+◌, ◌-◌, ◌≤◌, ◌<◌, max, ◌≡◌, sym, ap, ◌∙◌, subst, ◌↔◌, Bool-cases, inl, inr, List, [], ◌∷◌,
  ◌++◌, map, foldl, arith, get_or, get_or-replicate, replicate, ◌==◌, ==_iff, leb, leb→le,
  if◌then◌else◌, All, All-map, All-imp, map-congr, get_or_of_le, get_or-append, get_or-map,
}
use structured_additive_ir.Mapping.Expr.{
  MappingExpr, dim, none_expr, substitute_dims, min_domain_size as expr_min_domain_size,
}
use structured_additive_ir.Mapping.Expr.Leaves.{Below, DimBelow, min_domain_size-le_iff}
use structured_additive_ir.Mapping.Expr.Substitute.{
  substitute_dims-compose, substitute_dims-congr, substitute_dims-dim, substitute_dims-Leaves,
  substitute_dims_self,
}
use structured_additive_ir.Mapping.Attr.{
  MappingAttr, dims_from, min_domain_size, resize_use_domain, shift_right,
}
use structured_additive_ir.Mapping.Attr.Compose.{
  InDomain, map_self, get_or-dims_from, length-dims_from,
}

foldl-min_domain_size-le_iff :
    (n m : ℕ) (es : List MappingExpr)
    → (foldl (λ min e. max min (expr_min_domain_size e)) m es ≤ n) ↔ ((m ≤ n) × All (Below n) es)
foldl-min_domain_size-le_iff n m [] = (λ h. (h, tt), λ h. h.0)
foldl-min_domain_size-le_iff n m (e ∷ es) =
    let ih = foldl-min_domain_size-le_iff n (max m (expr_min_domain_size e)) es in
    let one = min_domain_size-le_iff e n in
    (
      λ h. let (a, b) = ih.0 h in (omega arith, (one.0 (omega arith), b)),
      λ h. let c = one.1 h.1.0 in ih.1 (omega arith, h.1.1),
    )

-- `MinDomainSize` is at most `n` exactly when all dimensions of the mapping are below `n`.
pub min_domain_size-le_iff_All :
    (m : MappingAttr) (n : ℕ) → (min_domain_size m ≤ n) ↔ All (Below n) m.dimensions
unfolding min_domain_size
min_domain_size-le_iff_All m n =
    let both = foldl-min_domain_size-le_iff n 0 m.dimensions in
    (λ h. (both.0 h).1, λ h. both.1 (omega arith, h))

substitutions : ℕ → ℕ → List MappingExpr
substitutions new old = dims_from 0 new ++ replicate (old - new) none_expr

-- The substitution of `ResizeUseDomain` keeps the dimensions below the new size and drops the rest.
get_or-substitutions :
    (new old d : ℕ)
    → get_or (substitutions new old) d none_expr ≡ (if leb new d then none_expr else dim d)
unfolding substitutions
get_or-substitutions new old d = elim (Bool-cases (leb new d)) [
  | inl out ↦
      rw (get_or-append (dims_from 0 new) _ d none_expr, length-dims_from 0 new, out)
        (get_or-replicate (old - new) (d - new) none_expr)
  | inr inside ↦
      rw (get_or-append (dims_from 0 new) _ d none_expr, length-dims_from 0 new, inside)
        (get_or-dims_from 0 new d (ground arith) ∙ ap dim (omega arith))
]

-- The mapping with the dimensions from `n` on replaced by `none`.
abbrev pub restrict : MappingAttr → ℕ → MappingAttr
restrict m n = record {
  use_domain_size = n;
  dimensions = map (λ e. substitute_dims e (dims_from 0 n)) m.dimensions;
}

-- Without the `none`s at its end a substitution maps dimensions alike.
pub get_or-dims_from_total :
    (n d : ℕ) → get_or (dims_from 0 n) d none_expr ≡ (if leb n d then none_expr else dim d)
get_or-dims_from_total n d = elim (Bool-cases (leb n d)) [
  | inl out ↦
      rw out (get_or_of_le (dims_from 0 n) d none_expr (rw (length-dims_from 0 n) (leb→le n d out)))
  | inr inside ↦ rw inside (get_or-dims_from 0 n d (ground arith) ∙ ap dim (omega arith))
]

restrict-wide :
    (m : MappingAttr) (n : ℕ)
    → InDomain m
    → m.use_domain_size ≤ n
    → restrict m n ≡ record { use_domain_size = n; dimensions = m.dimensions }
restrict-wide m n h le =
    ap (λ es. record { use_domain_size = n; dimensions = es })
      (map_self _ m.dimensions (
        All-imp _ _ m.dimensions
          (λ e b.
            substitute_dims_self e _ m.use_domain_size b
              λ d lt. get_or-dims_from 0 n d (omega arith) ∙ ap dim (omega arith))
          h))

-- On all its branches `ResizeUseDomain` replaces the dimensions outside of the new use domain by
-- `none` and keeps the others.
pub resize_use_domain-eq-restrict :
    (m : MappingAttr) (n : ℕ) → InDomain m → resize_use_domain m n ≡ restrict m n
unfolding resize_use_domain substitutions
resize_use_domain-eq-restrict m n h = elim (Bool-cases (n == m.use_domain_size)) [
  | inl same ↦
      let e = (==_iff n m.use_domain_size).0 same in
      rw same (
        ap (λ k. record { use_domain_size = k; dimensions = m.dimensions }) (sym e)
        ∙ sym (restrict-wide m n h (omega arith)))
  | inr other ↦ elim (Bool-cases (leb m.use_domain_size n)) [
    | inl grow ↦ rw (other, grow) (sym (restrict-wide m n h (leb→le m.use_domain_size n grow)))
    | inr shrink ↦
        rw (other, shrink)
          (ap (λ es. record { use_domain_size = n; dimensions = es })
            (map-congr _ _ m.dimensions (
              All-imp _ _ m.dimensions
                (λ e b. substitute_dims-congr e m.use_domain_size _ _ b λ d lt.
                  get_or-substitutions n m.use_domain_size d ∙ sym (get_or-dims_from_total n d))
                h)))
  ]
]

dims_from-Below : (n d : ℕ) → Below n (get_or (dims_from 0 n) d none_expr)
dims_from-Below n d =
    subst (Below n) (sym (get_or-dims_from_total n d))
      (elim (Bool-cases (leb n d)) [ inl out ↦ rw out tt | inr inside ↦ rw inside (ground arith) ])

-- After `ResizeUseDomain` the mapping refers to the new use domain only.
pub resize_use_domain-InDomain :
    (m : MappingAttr) (n : ℕ) → InDomain m → InDomain (resize_use_domain m n)
resize_use_domain-InDomain m n h = rw (resize_use_domain-eq-restrict m n h) (
    All-map _ _ m.dimensions (
      All-imp _ _ m.dimensions
        (λ e b.
          substitute_dims-Leaves (DimBelow m.use_domain_size) (DimBelow n) (dims_from 0 n)
            (λ d _. dims_from-Below n d) (λ _. tt) (λ _. tt) e b)
        h))

dims_from-restrict :
    (n k d : ℕ)
    → k ≤ n
    → get_or (map (λ e. substitute_dims e (dims_from 0 k)) (dims_from 0 n)) d none_expr
      ≡ get_or (dims_from 0 k) d none_expr
unfolding substitute_dims
dims_from-restrict n k d le =
    get_or-map (λ e. substitute_dims e (dims_from 0 k)) (dims_from 0 n) d none_expr
    ∙ elim (Bool-cases (leb n d)) [
      | inl out ↦
          rw (get_or-dims_from_total n d, out)
            (sym
              (get_or_of_le (dims_from 0 k) d none_expr (rw (length-dims_from 0 k) (ground arith))))
      | inr inside ↦ rw (get_or-dims_from_total n d, inside) (substitute_dims-dim d (dims_from 0 k))
    ]

-- Resizing the use domain twice, the second time to a smaller one, is resizing it once.
pub resize_use_domain-resize_use_domain :
    (m : MappingAttr) (n k : ℕ)
    → InDomain m
    → k ≤ n
    → resize_use_domain (resize_use_domain m n) k ≡ resize_use_domain m k
resize_use_domain-resize_use_domain m n k h le =
    resize_use_domain-eq-restrict (resize_use_domain m n) k (resize_use_domain-InDomain m n h)
    ∙ ap (λ x. restrict x k) (resize_use_domain-eq-restrict m n h)
    ∙ ap (λ es. record { use_domain_size = k; dimensions = es })
        (map-map _ _ m.dimensions
          ∙ map-congr _ _ m.dimensions (
              All-imp _ _ m.dimensions
                (λ e b.
                  substitute_dims-compose e (dims_from 0 n) (dims_from 0 k)
                  ∙ substitute_dims-congr e m.use_domain_size _ _ b
                      λ d lt. dims_from-restrict n k d le)
                h))
    ∙ sym (resize_use_domain-eq-restrict m k h)

-- The substitution of `ShiftRight`.
get_or-shift :
    (offset start whole d : ℕ)
    → start ≤ whole
    → d < whole
    → get_or (dims_from 0 start ++ dims_from (start + offset) (whole - start)) d none_expr
      ≡ dim (if leb start d then d + offset else d)
get_or-shift offset start whole d le lt = elim (Bool-cases (leb start d)) [
  | inl out ↦
      rw (get_or-append (dims_from 0 start) _ d none_expr, length-dims_from 0 start, out)
        (get_or-dims_from (start + offset) (whole - start) (d - start) (ground arith)
          ∙ ap dim (ground arith))
  | inr inside ↦
      rw (get_or-append (dims_from 0 start) _ d none_expr, length-dims_from 0 start, inside)
        (get_or-dims_from 0 start d (ground arith) ∙ ap dim (omega arith))
]

-- `ShiftRight` renames each dimension of the use domain: from `start_from` on by `offset`.
pub shift_right_renames :
    (m : MappingAttr) (offset start_from : ℕ) (renaming : List MappingExpr)
    → InDomain m
    → start_from ≤ m.use_domain_size
    → ((d : ℕ)
        → d < m.use_domain_size
        → get_or renaming d none_expr ≡ dim (if leb start_from d then d + offset else d))
    → shift_right m offset start_from ≡ record {
      use_domain_size = m.use_domain_size + offset;
      dimensions = map (λ e. substitute_dims e renaming) m.dimensions;
    }
unfolding shift_right
shift_right_renames m offset start_from renaming h le names =
    ap (λ es. record { use_domain_size = m.use_domain_size + offset; dimensions = es })
      (map-congr _ _ m.dimensions (
        All-imp _ _ m.dimensions
          (λ e b.
            substitute_dims-congr e m.use_domain_size _ _ b
              λ d lt. get_or-shift offset start_from m.use_domain_size d le lt ∙ sym (names d lt))
          h))

-- After `ShiftRight` the mapping stays in its domain.
pub shift_right-InDomain :
    (m : MappingAttr) (offset start_from : ℕ)
    → InDomain m
    → start_from ≤ m.use_domain_size
    → InDomain (shift_right m offset start_from)
unfolding shift_right
shift_right-InDomain m offset start_from h le = All-map _ _ m.dimensions (
    All-imp _ _ m.dimensions
      (λ e b.
        substitute_dims-Leaves (DimBelow m.use_domain_size) (DimBelow (m.use_domain_size + offset))
          _
          (λ d lt.
            subst (Below (m.use_domain_size + offset))
              (sym (get_or-shift offset start_from m.use_domain_size d le lt)) (ground arith))
          (λ _. tt) (λ _. tt) e b)
      h)
