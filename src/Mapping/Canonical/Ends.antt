-- ===== src/Mapping/Canonical/Ends.antt =====
-- The loop over the rules of `MappingUnStripeExpr::Canonicalize`: the weight of the operands falls.
use structured_additive_ir.Common.{
  ℕ, zero, suc, ◌+◌, ◌-◌, ◌≤◌, ◌<◌, ◌≡◌, ◌≢◌, refl, sym, ap, subst, true, ◌&&◌, Bool-cases, inl,
  inr, List, [], ◌∷◌, ◌++◌, ◌==◌, ==_iff, arith, if_pos, if_neg, length, take, leb, min,
}
use structured_additive_ir.Mapping.Expr.{
  MappingExpr, dim, none_expr, unknown_expr, stripe, unstripe, to_list, of_list,
  MappingExpr-discrete, factors-discrete,
}
use structured_additive_ir.Mapping.Unify.{drop_last}
use structured_additive_ir.Mapping.Canonical.{
  is_unit, strip_common, canonical_stripe_of, get_canonical_stripe, Rewrite, not_applied, applied,
  assert_failed, does_not_decrease, collapse_last, collapse_unstripes, is_stripe_of,
  trailing_stripes, take_back, stitch, stitch_last, stitch_stripes, out_of_fuel, apply_rules,
  weight, total_weight,
}
use structured_additive_ir.Mapping.Canonical.Affine.{of_list-to_list}
use structured_additive_ir.Mapping.Canonical.Factors.{split_last-append}
use structured_additive_ir.Mapping.Canonical.Rules.{trailing_stripes-le}

weight_pos : (e : MappingExpr) → 1 ≤ weight e
weight_pos (dim d) = omega arith
weight_pos none_expr = omega arith
weight_pos unknown_expr = omega arith
weight_pos (stripe e fs) = omega arith
weight_pos (unstripe es fs) = omega arith

abbrev list_weight : List MappingExpr → ℕ
list_weight es = total_weight (of_list es)

list_weight-append :
    (xs ys : List MappingExpr) → list_weight (xs ++ ys) ≡ list_weight xs + list_weight ys
list_weight-append [] ys = omega arith
list_weight-append (x ∷ xs) ys = omega (arith, list_weight-append xs ys)

weight-strip_common :
    (hs : List ℕ) (es : List MappingExpr) (gs : List ℕ)
    → weight (strip_common hs es gs) ≤ suc (suc (list_weight es))
unfolding strip_common
weight-strip_common [] es gs = omega arith
weight-strip_common (h ∷ []) [] gs = omega arith
weight-strip_common (h ∷ h' ∷ hs) [] gs = omega arith
weight-strip_common (h ∷ []) (e ∷ es) [] = omega arith
weight-strip_common (h ∷ h' ∷ hs) (e ∷ es) [] = omega arith
weight-strip_common (h ∷ []) (e ∷ es) (g ∷ gs) = elim (Bool-cases (h == g)) [
  | inl same ↦ rw same (omega arith)
  | inr ne ↦ rw ne (omega arith)
]
weight-strip_common (h ∷ h' ∷ hs) (e ∷ es) (g ∷ gs) = elim (Bool-cases (h == g)) [
  | inl same ↦ rw same (omega (arith, weight-strip_common (h' ∷ hs) es gs))
  | inr ne ↦ rw ne (omega arith)
]

weight-canonical_stripe_of :
    (e : MappingExpr) (fs : List ℕ) → weight (canonical_stripe_of e fs) ≤ suc (weight e)
unfolding canonical_stripe_of
weight-canonical_stripe_of (dim d) fs = omega arith
weight-canonical_stripe_of none_expr fs = omega arith
weight-canonical_stripe_of unknown_expr fs = omega arith
weight-canonical_stripe_of (stripe e gs) fs = omega arith
weight-canonical_stripe_of (unstripe es gs) fs =
    omega (arith, weight-strip_common fs (to_list es) gs, ap total_weight (of_list-to_list es))

weight-get_canonical_stripe :
    (e : MappingExpr) (fs : List ℕ) → weight (get_canonical_stripe e fs) ≤ suc (weight e)
unfolding get_canonical_stripe
weight-get_canonical_stripe e fs = elim (Bool-cases (is_unit fs)) [
  | inl unit ↦ rw unit (omega arith)
  | inr ne ↦ rw ne (weight-canonical_stripe_of e fs)
]

-- What a rule rewrites to is lighter.
abbrev Lightens : ℕ → Rewrite → Type 0
Lightens n not_applied = Unit
Lightens n assert_failed = Unit
Lightens n (applied es fs) = list_weight es < n

collapse_last-Lightens :
    (init : List MappingExpr) (last : MappingExpr) (outer : List ℕ)
    → Lightens (list_weight (init ++ last ∷ [])) (collapse_last init last outer)
unfolding collapse_last
collapse_last-Lightens init (dim d) outer = tt
collapse_last-Lightens init none_expr outer = tt
collapse_last-Lightens init unknown_expr outer = tt
collapse_last-Lightens init (stripe e fs) outer = tt
collapse_last-Lightens init (unstripe es gs) outer =
    elim (Bool-cases (does_not_decrease outer gs)) [
      | inl stop ↦ rw stop tt
      | inr go ↦ rw go (
          omega (
            arith,
            list_weight-append init (to_list es),
            list_weight-append init (unstripe es gs ∷ []),
            ap total_weight (of_list-to_list es),
          ))
    ]

is_stripe_of-weight : (e x : MappingExpr) → is_stripe_of e x ≡ true → weight x ≡ suc (weight e)
is_stripe_of-weight e (dim d) h = cc
is_stripe_of-weight e none_expr h = cc
is_stripe_of-weight e unknown_expr h = cc
is_stripe_of-weight e (unstripe es fs) h = cc
is_stripe_of-weight e (stripe x fs) h = elim (MappingExpr-discrete x e) [
  | yes same ↦ ap (λ y. suc (weight y)) same
  | no ne ↦ cc (rw (if_neg _ ne) at h)
]

list_weight-take_none : (k : ℕ) (xs : List MappingExpr) → k ≡ 0 → list_weight (take k xs) ≡ 0
list_weight-take_none zero xs h = refl
list_weight-take_none (suc k) xs h = absurd (omega arith)

list_weight-take_some :
    (k m : ℕ) (x : MappingExpr) (xs : List MappingExpr)
    → k ≡ suc m
    → list_weight (take k (x ∷ xs)) ≡ weight x + list_weight (take m xs)
list_weight-take_some k m x xs h = ap (λ n. list_weight (take n (x ∷ xs))) h

-- The stripes that are stitched are heavier than the stripe that takes their place.
trailing_stripes-weight :
    (e : MappingExpr) (xs : List MappingExpr)
    → 1 ≤ trailing_stripes e xs
    → list_weight (take (length xs - trailing_stripes e xs) xs) + suc (weight e) ≤ list_weight xs
trailing_stripes-weight e [] h = absurd (omega arith)
trailing_stripes-weight e (x ∷ xs) h =
    let rest = trailing_stripes e xs in
    elim (Bool-cases (rest == length xs && is_stripe_of e x)) [
      | inl all ↦
          (let whole : rest ≡ length xs = (==_iff rest (length xs)).0 (ground (arith, all)) in
            let heavy = is_stripe_of-weight e x (ground (arith, all)) in
            rw all (
              omega (
                arith,
                list_weight-take_none (suc (length xs) - suc rest) (x ∷ xs) (omega arith),
                heavy,
              )))
      | inr out ↦
          (let some_rest : 1 ≤ rest = rw out at h in
            rw out (
              omega (
                arith,
                list_weight-take_some (suc (length xs) - rest) (length xs - rest) x xs
                    (omega (arith, trailing_stripes-le e xs)),
                trailing_stripes-weight e xs some_rest,
              )))
    ]

stitch_last-Lightens :
    (init : List MappingExpr) (last : MappingExpr) (fs : List ℕ)
    → Lightens (list_weight (init ++ last ∷ [])) (stitch_last init last fs)
unfolding stitch_last stitch
stitch_last-Lightens init (dim d) fs = tt
stitch_last-Lightens init none_expr fs = tt
stitch_last-Lightens init unknown_expr fs = tt
stitch_last-Lightens init (unstripe es gs) fs = tt
stitch_last-Lightens init (stripe e gs) fs =
    let n = min (length fs) (length gs) in
    let t = trailing_stripes e init in
    elim (factors-discrete (take_back n fs) (take_back n gs)) [
      | no ne ↦ rw (if_neg _ ne) tt
      | yes eq ↦ rw (if_pos _ eq) (elim (Bool-cases (t == 0)) [
        | inl stop ↦ rw stop tt
        | inr go ↦ rw go (elim (Bool-cases (leb (t + 1) (length gs))) [
          | inr short ↦ rw short tt
          | inl long ↦ rw long (
              omega (
                arith,
                list_weight-append (take (length init - t) init)
                    (get_canonical_stripe e (take (length gs - (t + 1)) gs ++ 1 ∷ []) ∷ []),
                list_weight-append init (stripe e gs ∷ []),
                weight-get_canonical_stripe e (take (length gs - (t + 1)) gs ++ 1 ∷ []),
                trailing_stripes-weight e init (ground (arith, go)),
              ))
        ])
      ])
    ]

collapse_unstripes-Lightens :
    (es : List MappingExpr) (fs : List ℕ) → Lightens (list_weight es) (collapse_unstripes es fs)
unfolding collapse_unstripes
collapse_unstripes-Lightens es fs = elim (split_last-append es) [
  | inl e ↦ simp (e, collapse_unstripes) tt
  | inr (init, last, found, split) ↦
      simp (found, collapse_unstripes)
        (subst (λ l. Lightens (list_weight l) (collapse_last init last (drop_last fs))) (sym split)
          (collapse_last-Lightens init last (drop_last fs)))
]

stitch_stripes-Lightens :
    (es : List MappingExpr) (fs : List ℕ) → Lightens (list_weight es) (stitch_stripes es fs)
unfolding stitch_stripes
stitch_stripes-Lightens es fs = elim (split_last-append es) [
  | inl e ↦ simp (e, stitch_stripes) tt
  | inr (init, last, found, split) ↦
      simp (found, stitch_stripes)
        (subst (λ l. Lightens (list_weight l) (stitch_last init last fs)) (sym split)
          (stitch_last-Lightens init last fs))
]

-- With fuel above the number of sub-expressions of the operands, the loop over the rules ends.
pub apply_rules-ne-out_of_fuel :
    (fuel : ℕ) (es : List MappingExpr) (fs : List ℕ)
    → total_weight (of_list es) < fuel
    → apply_rules fuel es fs ≢ out_of_fuel
unfolding apply_rules
apply_rules-ne-out_of_fuel zero es fs h = absurd (omega arith)
apply_rules-ne-out_of_fuel (suc fuel) es fs h =
    round (collapse_unstripes es fs) refl (collapse_unstripes-Lightens es fs) (stitch_stripes es fs)
      refl (stitch_stripes-Lightens es fs) (apply_rules-ne-out_of_fuel fuel)
  where
    round :
        (r : Rewrite)
        → collapse_unstripes es fs ≡ r
        → Lightens (total_weight (of_list es)) r
        → (q : Rewrite) → stitch_stripes es fs ≡ q
        → Lightens (total_weight (of_list es)) q
        → ((es' : List MappingExpr) (fs' : List ℕ)
            → total_weight (of_list es') < fuel
            → apply_rules fuel es' fs' ≢ out_of_fuel)
        → apply_rules (suc fuel) es fs ≢ out_of_fuel
    round (applied es' fs') e l q e' l' ih =
        simp (e, apply_rules) (ih es' fs' (omega (arith, l, h)))
    round assert_failed e l q e' l' ih = simp (e, apply_rules) (λ p. cc)
    round not_applied e l (applied es' fs') e' l' ih =
        simp (e, e', apply_rules) (ih es' fs' (omega (arith, l', h)))
    round not_applied e l assert_failed e' l' ih = simp (e, e', apply_rules) (λ p. cc)
    round not_applied e l not_applied e' l' ih = simp (e, e', apply_rules) (λ p. cc)
