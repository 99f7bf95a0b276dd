-- ===== src/Mapping/Inverse/Grows.antt =====
-- What `SetInverse` does to the inverses that are passed to it.
use structured_additive_ir.Common.{
  ℕ, zero, suc, ◌+◌, ◌-◌, ◌≤◌, ◌<◌, ◌≡◌, refl, sym, ap, ◌∙◌, subst, Bool-cases, inl, inr, some,
  List, [], ◌∷◌, ◌++◌, arith, length, length-set, length-append, length-replicate, take, get_or,
  get_or-set, set, replicate, ◌==◌, ==_iff, >>=-eq-some, map_option-eq-some,
}
use structured_additive_ir.Mapping.Expr.{
  MappingExpr, MappingExprs, dim, none_expr, unknown_expr, stripe, unstripe, nil, cons, to_list,
  of_list,
}
use structured_additive_ir.Mapping.Expr.Leaves.{Below, LeavesAll, DimBelow}
use structured_additive_ir.Mapping.Expr.Valid.{
  IsValid, AllValid, UnstripeFactors, StripeFactors, UnstripeFactors-pos,
}
use structured_additive_ir.Mapping.Refines.{Refines, Refines-refl, Refines-trans}
use structured_additive_ir.Mapping.Unify.{unify}
use structured_additive_ir.Mapping.Unify.Refine.{unify-Refines}
use structured_additive_ir.Mapping.Unify.Valid.{unify-IsValid}
use structured_additive_ir.Mapping.Inverse.{
  set_inverse, set_inverse_operands, inverse_operands, inverse_factors, last_factor,
}

-- Every inverse passes the asserts.
abbrev pub ValidInverses : List MappingExpr → Type 0
ValidInverses inverses = (d : ℕ) → IsValid (get_or inverses d none_expr)

-- The later inverses refine the earlier ones, dimension by dimension.
pub record Grows (before after : List MappingExpr) : Type 0 where
  pub size : length after ≡ length before
  pub refines : (d : ℕ) → Refines (get_or before d none_expr) (get_or after d none_expr)

pub Grows-refl : (inverses : List MappingExpr) → Grows inverses inverses
Grows-refl inverses = record { size = refl; refines = λ d. Refines-refl _ }

pub Grows-trans : (xs ys zs : List MappingExpr) → Grows xs ys → Grows ys zs → Grows xs zs
Grows-trans xs ys zs h k = record {
  size = k.size ∙ h.size;
  refines = λ d. Refines-trans _ _ _ (h.refines d) (k.refines d);
}

Grows-set :
    (inverses : List MappingExpr) (i : ℕ) (u : MappingExpr)
    → i < length inverses
    → Refines (get_or inverses i none_expr) u
    → Grows inverses (set inverses i u)
Grows-set inverses i u h r = record {
  size = length-set inverses i u;
  refines = λ d. rw (get_or-set inverses i d u none_expr h) (elim (Bool-cases (d == i)) [
    | inl e ↦ rw e (subst (λ j. Refines (get_or inverses j none_expr) u) (sym ((==_iff d i).0 e)) r)
    | inr ne ↦ rw ne (Refines-refl _)
  ]);
}

ValidInverses-set :
    (inverses : List MappingExpr) (i : ℕ) (u : MappingExpr)
    → i < length inverses
    → ValidInverses inverses
    → IsValid u
    → ValidInverses (set inverses i u)
ValidInverses-set inverses i u h v vu d =
    rw (get_or-set inverses i d u none_expr h)
      (elim (Bool-cases (d == i)) [ inl e ↦ rw e vu | inr ne ↦ rw ne (v d) ])

-- The first factors of an unstripe are those of a stripe.
pub StripeFactors-take :
    (i : ℕ) (fs : List ℕ) → i < length fs → UnstripeFactors fs → StripeFactors (take (suc i) fs)
StripeFactors-take i [] h u = absurd (omega arith)
StripeFactors-take zero (f ∷ fs) h u = UnstripeFactors-pos f fs u
StripeFactors-take (suc i) (f ∷ []) h u = absurd (omega arith)
StripeFactors-take (suc i) (f ∷ g ∷ fs) h u = (u.0, StripeFactors-take i (g ∷ fs) (omega arith) u.1)

-- The factors of the inverse of a stripe are those of an unstripe.
inverse_factors-UnstripeFactors :
    (fs : List ℕ) → StripeFactors fs → UnstripeFactors (inverse_factors fs)
unfolding inverse_factors
inverse_factors-UnstripeFactors [] h = elim h [ ]
inverse_factors-UnstripeFactors (f ∷ []) h = elim (Bool-cases (f == 1)) [
  | inl one ↦ rw one ((==_iff f 1).0 one)
  | inr more ↦ rw more (ground arith, refl)
]
inverse_factors-UnstripeFactors (f ∷ g ∷ fs) h =
    let rest = inverse_factors-UnstripeFactors (g ∷ fs) h.1 in
    elim (Bool-cases (last_factor (g ∷ fs) == 1)) [
      | inl one ↦ rw one (h.0, rw one at rest)
      | inr more ↦ rw more (h.0, rw more at rest)
    ]

inverse_operands-length :
    (context : MappingExpr) (fs : List ℕ)
    → 1 ≤ length fs
    → length (inverse_operands context fs) ≡ length (inverse_factors fs)
unfolding inverse_operands inverse_factors
inverse_operands-length context fs h = elim (Bool-cases (last_factor fs == 1)) [
  | inl one ↦ rw one (
      omega (
        arith,
        length-append (replicate (length fs - 1) none_expr) (context ∷ []),
        length-replicate (length fs - 1) none_expr,
      ))
  | inr more ↦ rw more (
      omega (
        arith,
        length-append (replicate (length fs - 1) none_expr) (context ∷ none_expr ∷ []),
        length-append fs (1 ∷ []),
        length-replicate (length fs - 1) none_expr,
      ))
]

AllValid-nones :
    (n : ℕ) (rest : List MappingExpr)
    → AllValid (of_list rest)
    → AllValid (of_list (replicate n none_expr ++ rest))
AllValid-nones zero rest h = h
AllValid-nones (suc n) rest h = (tt, AllValid-nones n rest h)

inverse_operands-AllValid :
    (context : MappingExpr) (fs : List ℕ)
    → IsValid context
    → AllValid (of_list (inverse_operands context fs))
unfolding inverse_operands
inverse_operands-AllValid context fs v = elim (Bool-cases (last_factor fs == 1)) [
  | inl one ↦ rw one (AllValid-nones (length fs - 1) (context ∷ []) (v, tt))
  | inr more ↦ rw more (AllValid-nones (length fs - 1) (context ∷ none_expr ∷ []) (v, (tt, tt)))
]

to_list-of_list : (es : List MappingExpr) → to_list (of_list es) ≡ es
to_list-of_list [] = refl
to_list-of_list (e ∷ es) = ap (λ xs. e ∷ xs) (to_list-of_list es)

StripeFactors-nonempty : (fs : List ℕ) → StripeFactors fs → 1 ≤ length fs
StripeFactors-nonempty [] h = elim h [ ]
StripeFactors-nonempty (f ∷ fs) h = omega arith

-- The context that a stripe hands to its operand passes the asserts.
pub inverse_context-IsValid :
    (context : MappingExpr) (fs : List ℕ)
    → IsValid context
    → StripeFactors fs
    → IsValid (unstripe (of_list (inverse_operands context fs)) (inverse_factors fs))
inverse_context-IsValid context fs v h = (
  inverse_operands-AllValid context fs v,
  inverse_factors-UnstripeFactors fs h,
  ap length (to_list-of_list (inverse_operands context fs))
      ∙ inverse_operands-length context fs (StripeFactors-nonempty fs h),
)

-- What a step of the inversion keeps.
pub record Kept (before after : List MappingExpr) : Type 0 where
  pub grows : Grows before after
  pub valid : ValidInverses after

mutual
  unfolding set_inverse

  set_inverse-Kept' :
      (e context : MappingExpr) (inverses after : List MappingExpr)
      → IsValid e
      → Below (length inverses) e
      → IsValid context
      → ValidInverses inverses
      → set_inverse e context inverses ≡ some after
      → Kept inverses after
  set_inverse-Kept' (dim d) context inverses after ve b vc vi h =
      let (u, ok, e) = map_option-eq-some _ (unify (get_or inverses d none_expr) context) h in
      let (r, _) = unify-Refines (get_or inverses d none_expr) context u (vi d) vc ok in
      let vu = unify-IsValid (get_or inverses d none_expr) context u (vi d) vc ok in
      subst (Kept inverses) e (record {
        grows = Grows-set inverses d u b r;
        valid = ValidInverses-set inverses d u b vi vu;
      })
  set_inverse-Kept' none_expr context inverses after ve b vc vi h =
      let e : inverses ≡ after = cc in
      subst (Kept inverses) e (record { grows = Grows-refl inverses; valid = vi })
  set_inverse-Kept' unknown_expr context inverses after ve b vc vi h =
      let e : inverses ≡ after = cc in
      subst (Kept inverses) e (record { grows = Grows-refl inverses; valid = vi })
  set_inverse-Kept' (stripe e fs) context inverses after ve b vc vi h =
      set_inverse-Kept' e _ inverses after ve.0 b (inverse_context-IsValid context fs vc ve.1) vi h
  set_inverse-Kept' (unstripe es fs) context inverses after ve b vc vi h =
      set_inverse_operands-Kept' es 0 fs context inverses after ve.0 ve.1 (omega arith) b vc vi h

  set_inverse_operands-Kept' :
      (es : MappingExprs) (i : ℕ) (fs : List ℕ) (context : MappingExpr)
      (inverses after : List MappingExpr)
      → AllValid es
      → UnstripeFactors fs
      → i + length (to_list es) ≤ length fs
      → LeavesAll (DimBelow (length inverses)) es
      → IsValid context
      → ValidInverses inverses
      → set_inverse_operands es i fs context inverses ≡ some after
      → Kept inverses after
  set_inverse_operands-Kept' nil i fs context inverses after ve u le b vc vi h =
      let e : inverses ≡ after = cc in
      subst (Kept inverses) e (record { grows = Grows-refl inverses; valid = vi })
  set_inverse_operands-Kept' (cons e es) i fs context inverses after ve u le b vc vi h =
      let (mid, ok, rest) =
        >>=-eq-some (set_inverse e (stripe context (take (i + 1) fs)) inverses) _ h in
      let next : suc i ≡ i + 1 = omega arith in
      let first =
        set_inverse-Kept' e (stripe context (take (i + 1) fs)) inverses mid ve.0 b.0
          (
            vc,
            subst (λ n. StripeFactors (take n fs)) next (StripeFactors-take i fs (omega arith) u),
          )
          vi ok in
      let later =
        set_inverse_operands-Kept' es (i + 1) fs context mid after ve.1 u (omega arith)
          (subst (λ n. LeavesAll (DimBelow n) es) (sym first.grows.size) b.1) vc first.valid rest in
      record { grows = Grows-trans inverses mid after first.grows later.grows; valid = later.valid }

-- A successful `SetInverse` refines the inverses that were set and keeps them well formed.
pub set_inverse-Kept :
    (e context : MappingExpr) (inverses after : List MappingExpr)
    → IsValid e
    → Below (length inverses) e
    → IsValid context
    → ValidInverses inverses
    → set_inverse e context inverses ≡ some after
    → Kept inverses after
set_inverse-Kept = set_inverse-Kept'

pub set_inverse_operands-Kept :
    (es : MappingExprs) (i : ℕ) (fs : List ℕ) (context : MappingExpr)
    (inverses after : List MappingExpr)
    → AllValid es
    → UnstripeFactors fs
    → i + length (to_list es) ≤ length fs
    → LeavesAll (DimBelow (length inverses)) es
    → IsValid context
    → ValidInverses inverses
    → set_inverse_operands es i fs context inverses ≡ some after
    → Kept inverses after
set_inverse_operands-Kept = set_inverse_operands-Kept'
