-- ===== src/Mapping/Canonical/Stripes.antt =====
-- `GetCanonicalStripe` on tiled expressions.
use structured_additive_ir.Common.{
  ℕ, ◌≤◌, ◌≡◌, refl, sym, ap, ◌∙◌, subst, true, Bool-cases, inl, inr, Option, List, [], ◌∷◌, ◌==◌,
  ==_iff, arith,
}
use structured_additive_ir.Mapping.Expr.{
  MappingExpr, dim, none_expr, unknown_expr, stripe, unstripe, to_list, of_list,
}
use structured_additive_ir.Mapping.Expr.Valid.{UnstripeFactors, StripeFactors}
use structured_additive_ir.Mapping.Inverse.{last_factor}
use structured_additive_ir.Mapping.Canonical.{
  is_unit, strip_common, canonical_stripe_of, get_canonical_stripe,
}
use structured_additive_ir.Mapping.Canonical.Affine.{
  strip, strip_one, as_affine, as_affine_last, Tiled, Tiles, TilesAll-to_list, TilesAll-of_list,
  as_affine_last-Tiles, of_list-to_list,
}

-- An expression in place of the stripe with these factors of an expression that evaluates to `v`.
pub record IsStrip (env : ℕ → ℕ) (v : Option ℕ) (fs : List ℕ) (c : MappingExpr) : Type 0 where
  pub tiled : Tiled env c
  pub value : as_affine env c ≡ strip (last_factor fs) v

pub StripeFactors-pos : (f : ℕ) (fs : List ℕ) → StripeFactors (f ∷ fs) → 1 ≤ f
StripeFactors-pos f [] h = h
StripeFactors-pos f (g ∷ fs) h = omega (arith, StripeFactors-pos g fs h.1)

module _ (env : ℕ → ℕ) (v : Option ℕ) where
  kept :
      (hs : List ℕ) (es : List MappingExpr) (gs : List ℕ)
      → StripeFactors hs
      → Tiles env v es gs
      → UnstripeFactors gs
      → IsStrip env v hs (stripe (unstripe (of_list es) gs) hs)
  kept hs es gs s t u = record {
    tiled = ((v, TilesAll-of_list env v es gs t, u), s);
    value = ap (strip (last_factor hs)) (as_affine_last-Tiles env v es gs t u);
  }

  pub strip_common-IsStrip :
      (hs : List ℕ) (es : List MappingExpr) (gs : List ℕ)
      → StripeFactors hs
      → Tiles env v es gs
      → UnstripeFactors gs
      → IsStrip env v hs (strip_common hs es gs)
  unfolding strip_common
  strip_common-IsStrip [] es gs s t u = elim s [ ]
  strip_common-IsStrip (h ∷ hs) [] [] s t u = elim u [ ]
  strip_common-IsStrip (h ∷ hs) [] (g ∷ gs) s t u = elim t [ ]
  strip_common-IsStrip (h ∷ hs) (e ∷ es) [] s t u = elim t [ ]
  strip_common-IsStrip (h ∷ []) (e ∷ es) (g ∷ gs) s t u = elim (Bool-cases (h == g)) [
    | inl same ↦
        rw same
          (record { tiled = t.0; value = t.1 ∙ ap (λ k. strip k v) (sym ((==_iff h g).0 same)) })
    | inr ne ↦ rw ne (kept (h ∷ []) (e ∷ es) (g ∷ gs) s t u)
  ]
  strip_common-IsStrip (h ∷ h' ∷ hs) (e ∷ es) (g ∷ []) s t u = elim (Bool-cases (h == g)) [
    | inl same ↦ absurd (omega (arith, (==_iff h g).0 same, StripeFactors-pos h' hs s.1))
    | inr ne ↦ rw ne (kept (h ∷ h' ∷ hs) (e ∷ es) (g ∷ []) s t u)
  ]
  strip_common-IsStrip (h ∷ h' ∷ hs) (e ∷ es) (g ∷ g' ∷ gs) s t u =
      let rest = strip_common-IsStrip (h' ∷ hs) es (g' ∷ gs) s.1 t.2 u.1 in
      elim (Bool-cases (h == g)) [
        | inl same ↦ rw same (record { tiled = rest.tiled; value = rest.value })
        | inr ne ↦ rw ne (kept (h ∷ h' ∷ hs) (e ∷ es) (g ∷ g' ∷ gs) s t u)
      ]

canonical_stripe_of-IsStrip :
    (env : ℕ → ℕ) (e : MappingExpr) (hs : List ℕ)
    → Tiled env e
    → StripeFactors hs
    → IsStrip env (as_affine env e) hs (canonical_stripe_of e hs)
unfolding canonical_stripe_of
canonical_stripe_of-IsStrip env (dim d) hs t s = record { tiled = (t, s); value = refl }
canonical_stripe_of-IsStrip env none_expr hs t s = record { tiled = (t, s); value = refl }
canonical_stripe_of-IsStrip env unknown_expr hs t s = record { tiled = (t, s); value = refl }
canonical_stripe_of-IsStrip env (stripe e fs) hs t s = record { tiled = (t, s); value = refl }
canonical_stripe_of-IsStrip env (unstripe es gs) hs t s =
    let (v, tiles, u) = t in
    let listed = TilesAll-to_list env v es gs tiles in
    let value : as_affine_last env es ≡ v =
      ap (as_affine_last env) (sym (of_list-to_list es))
      ∙ as_affine_last-Tiles env v (to_list es) gs listed u in
    subst (λ w. IsStrip env w hs (strip_common hs (to_list es) gs)) (sym value)
      (strip_common-IsStrip env v hs (to_list es) gs s listed u)

unit-IsStrip :
    (env : ℕ → ℕ) (e : MappingExpr) (hs : List ℕ)
    → Tiled env e
    → is_unit hs ≡ true
    → IsStrip env (as_affine env e) hs e
unit-IsStrip env e [] t h = cc
unit-IsStrip env e (f ∷ []) t h = record {
  tiled = t;
  value =
      sym (ap (λ k. strip k (as_affine env e)) ((==_iff f 1).0 h) ∙ strip_one (as_affine env e));
}
unit-IsStrip env e (f ∷ g ∷ fs) t h = cc

-- `GetCanonicalStripe` keeps the expression tiled, and its value.
pub get_canonical_stripe-IsStrip :
    (env : ℕ → ℕ) (e : MappingExpr) (hs : List ℕ)
    → Tiled env e
    → StripeFactors hs
    → IsStrip env (as_affine env e) hs (get_canonical_stripe e hs)
unfolding get_canonical_stripe
get_canonical_stripe-IsStrip env e hs t s = elim (Bool-cases (is_unit hs)) [
  | inl unit ↦ rw unit (unit-IsStrip env e hs t unit)
  | inr ne ↦ rw ne (canonical_stripe_of-IsStrip env e hs t s)
]
