-- ===== src/Mapping/Canonical/Rules.antt =====
-- The rules that canonicalize an unstripe, on tiled operands.
use structured_additive_ir.Common.{
  ℕ, zero, suc, ◌+◌, ◌-◌, ◌≤◌, ◌<◌, ◌≡◌, refl, sym, ap, ap₂, ◌∙◌, subst, Bool-cases, inl, inr,
  Option, List, [], ◌∷◌, ◌++◌, ◌==◌, arith, if_pos, if_neg, length, take, leb, leb→le, min,
  length-append,
}
use structured_additive_ir.Mapping.Expr.{
  MappingExpr, dim, none_expr, unknown_expr, stripe, unstripe, to_list, factors-discrete,
}
use structured_additive_ir.Mapping.Expr.Valid.{UnstripeFactors, StripeFactors}
use structured_additive_ir.Mapping.Inverse.{last_factor}
use structured_additive_ir.Mapping.Unify.{drop_last}
use structured_additive_ir.Mapping.Canonical.{
  Rewrite, not_applied, applied, assert_failed, does_not_decrease, collapse_last,
  collapse_unstripes, trailing_stripes, take_back, stitch, stitch_last, stitch_stripes,
  get_canonical_stripe,
}
use structured_additive_ir.Mapping.Canonical.Affine.{
  strip, strip_one, as_affine, as_affine_last, Tiled, Tiles, TilesAll-to_list, as_affine_last-Tiles,
  of_list-to_list, Tiles-append, Tiles-take, Tiles-split, Tiles-length,
}
use structured_additive_ir.Mapping.Canonical.Factors.{
  split_last-append, drop_last-append, last_factor-append, UnstripeFactors-last,
  UnstripeFactors-collapse, UnstripeFactors-take, StripeFactors-take_one, last_factor-take_back,
}
use structured_additive_ir.Mapping.Canonical.Stripes.{get_canonical_stripe-IsStrip}

pub trailing_stripes-le :
    (e : MappingExpr) (xs : List MappingExpr) → trailing_stripes e xs ≤ length xs
trailing_stripes-le e [] = omega arith
trailing_stripes-le e (x ∷ xs) = ground (arith, trailing_stripes-le e xs)

StripeFactors-length : (gs : List ℕ) → StripeFactors gs → 0 < length gs
StripeFactors-length [] s = elim s [ ]
StripeFactors-length (g ∷ gs) s = omega arith

take-append_le : (k : ℕ) (xs ys : List ℕ) → k ≤ length xs → take k (xs ++ ys) ≡ take k xs
take-append_le zero xs ys h = refl
take-append_le (suc k) [] ys h = absurd (omega arith)
take-append_le (suc k) (x ∷ xs) ys h = ap (λ l. x ∷ l) (take-append_le k xs ys (omega arith))

-- Tiles of the value, whose factors pass the asserts.
pub record IsTiling (env : ℕ → ℕ) (v : Option ℕ) (es : List MappingExpr) (fs : List ℕ)
    : Type 0 where
  pub tiles : Tiles env v es fs
  pub factors : UnstripeFactors fs

-- What a rule rewrites to, if it applies, is a tiling of the value.
abbrev pub KeepsTiling : (ℕ → ℕ) → Option ℕ → Rewrite → Type 0
KeepsTiling env v not_applied = Unit
KeepsTiling env v assert_failed = Unit
KeepsTiling env v (applied es fs) = IsTiling env v es fs

module _ (env : ℕ → ℕ) (v : Option ℕ) where
  collapse_last-KeepsTiling :
      (init : List MappingExpr) (last : MappingExpr) (outer : List ℕ) (f : ℕ)
      → Tiles env v init outer
      → Tiled env last
      → as_affine env last ≡ strip f v
      → UnstripeFactors (outer ++ f ∷ [])
      → KeepsTiling env v (collapse_last init last outer)
  unfolding collapse_last
  collapse_last-KeepsTiling init (dim d) outer f ti tl value u = tt
  collapse_last-KeepsTiling init none_expr outer f ti tl value u = tt
  collapse_last-KeepsTiling init unknown_expr outer f ti tl value u = tt
  collapse_last-KeepsTiling init (stripe e hs) outer f ti tl value u = tt
  collapse_last-KeepsTiling init (unstripe es gs) outer f ti tl value u =
      let (w, tiles, inner) = tl in
      let listed = TilesAll-to_list env w es gs tiles in
      let one : f ≡ 1 =
        sym (last_factor-append outer f) ∙ UnstripeFactors-last (outer ++ f ∷ []) u in
      let same : w ≡ v =
        sym (as_affine_last-Tiles env w (to_list es) gs listed inner)
        ∙ ap (as_affine_last env) (of_list-to_list es)
        ∙ value
        ∙ ap (λ k. strip k v) one
        ∙ strip_one v in
      elim (Bool-cases (does_not_decrease outer gs)) [
        | inl stop ↦ rw stop tt
        | inr go ↦ rw go (record {
          tiles =
              Tiles-append env v init (to_list es) outer gs ti
                (subst (λ x. Tiles env x (to_list es) gs) same listed);
          factors = UnstripeFactors-collapse outer f gs u inner go;
        })
      ]

  pub collapse_unstripes-KeepsTiling :
      (es : List MappingExpr) (fs : List ℕ)
      → IsTiling env v es fs
      → KeepsTiling env v (collapse_unstripes es fs)
  unfolding collapse_unstripes
  collapse_unstripes-KeepsTiling es fs t = elim (split_last-append es) [
    | inl e ↦ simp (e, collapse_unstripes) tt
    | inr (init, last, found, split) ↦
        (let (outer, f, e, ti, tl, value) =
            Tiles-split env v init last fs (subst (λ l. Tiles env v l fs) split t.tiles) in
          let kept =
            collapse_last-KeepsTiling init last outer f ti tl value
              (subst UnstripeFactors e t.factors) in
          simp (found, collapse_unstripes)
            (subst (λ l. KeepsTiling env v (collapse_last init last l))
              (sym (ap drop_last e ∙ drop_last-append outer f)) kept))
  ]

  stitched-IsTiling :
      (k : ℕ) (init : List MappingExpr) (e : MappingExpr) (gs outer : List ℕ) (n : ℕ)
      → k ≤ length outer
      → n < length gs
      → Tiles env v init outer
      → Tiled env e
      → StripeFactors gs
      → as_affine env e ≡ v
      → UnstripeFactors (outer ++ 1 ∷ [])
      → IsTiling env v
          (take k init ++ get_canonical_stripe e (take n gs ++ 1 ∷ []) ∷ [])
          (take k (outer ++ 1 ∷ []) ++ 1 ∷ [])
  stitched-IsTiling k init e gs outer n le short ti te s value u =
      let new =
        get_canonical_stripe-IsStrip env e (take n gs ++ 1 ∷ []) te
          (StripeFactors-take_one gs n s short) in
      record {
        tiles =
            Tiles-append env v (take k init) _ (take k (outer ++ 1 ∷ [])) _
              (subst (Tiles env v (take k init)) (sym (take-append_le k outer (1 ∷ []) le))
                (Tiles-take env v k init outer ti))
              (new.tiled, new.value ∙ ap₂ strip (last_factor-append (take n gs) 1) value, tt);
        factors =
            UnstripeFactors-take (outer ++ 1 ∷ []) k u
              (omega (arith, length-append outer (1 ∷ [])));
      }

  stitch-KeepsTiling :
      (stitched : ℕ) (init : List MappingExpr) (e : MappingExpr) (gs outer : List ℕ)
      → stitched ≤ length init
      → Tiles env v init outer
      → Tiled env e
      → StripeFactors gs
      → as_affine env e ≡ v
      → UnstripeFactors (outer ++ 1 ∷ [])
      → KeepsTiling env v (stitch stitched init e gs (outer ++ 1 ∷ []))
  unfolding stitch
  stitch-KeepsTiling stitched init e gs outer le ti te s value u =
      elim (Bool-cases (stitched == 0)) [
        | inl stop ↦ rw stop tt
        | inr go ↦ rw go (elim (Bool-cases (leb (stitched + 1) (length gs))) [
          | inr short ↦ rw short tt
          | inl long ↦ rw long (
              stitched-IsTiling (length init - stitched) init e gs outer
                (length gs - (stitched + 1)) (omega (arith, Tiles-length env v init outer ti))
                (omega (arith, leb→le (stitched + 1) (length gs) long)) ti te s value u)
        ])
      ]

  stitch_last-KeepsTiling :
      (init : List MappingExpr) (last : MappingExpr) (outer : List ℕ)
      → Tiles env v init outer
      → Tiled env last
      → as_affine env last ≡ v
      → UnstripeFactors (outer ++ 1 ∷ [])
      → KeepsTiling env v (stitch_last init last (outer ++ 1 ∷ []))
  unfolding stitch_last
  stitch_last-KeepsTiling init (dim d) outer ti tl value u = tt
  stitch_last-KeepsTiling init none_expr outer ti tl value u = tt
  stitch_last-KeepsTiling init unknown_expr outer ti tl value u = tt
  stitch_last-KeepsTiling init (unstripe es gs) outer ti tl value u = tt
  stitch_last-KeepsTiling init (stripe e gs) outer ti tl value u =
      let n = min (length (outer ++ 1 ∷ [])) (length gs) in
      elim (factors-discrete (take_back n (outer ++ 1 ∷ [])) (take_back n gs)) [
        | no ne ↦ rw (if_neg _ ne) tt
        | yes eq ↦
            (let ends : 1 ≡ last_factor gs =
                sym (last_factor-append outer 1)
                ∙ last_factor-take_back (outer ++ 1 ∷ []) gs
                    (omega (arith, length-append outer (1 ∷ []))) (StripeFactors-length gs tl.1)
                    eq in
              let whole : as_affine env e ≡ v =
                sym (strip_one (as_affine env e))
                ∙ ap (λ k. strip k (as_affine env e)) ends
                ∙ value in
              rw (if_pos _ eq) (
                stitch-KeepsTiling (trailing_stripes e init) init e gs outer
                  (trailing_stripes-le e init) ti tl.0 tl.1 whole u))
      ]

  pub stitch_stripes-KeepsTiling :
      (es : List MappingExpr) (fs : List ℕ)
      → IsTiling env v es fs
      → KeepsTiling env v (stitch_stripes es fs)
  unfolding stitch_stripes
  stitch_stripes-KeepsTiling es fs t = elim (split_last-append es) [
    | inl e ↦ simp (e, stitch_stripes) tt
    | inr (init, last, found, split) ↦
        (let (outer, f, e, ti, tl, value) =
            Tiles-split env v init last fs (subst (λ l. Tiles env v l fs) split t.tiles) in
          let u = subst UnstripeFactors e t.factors in
          let one : f ≡ 1 =
            sym (last_factor-append outer f) ∙ UnstripeFactors-last (outer ++ f ∷ []) u in
          let ends : fs ≡ outer ++ 1 ∷ [] = e ∙ ap (λ k. outer ++ k ∷ []) one in
          simp (found, stitch_stripes)
            (subst (λ l. KeepsTiling env v (stitch_last init last l)) (sym ends)
              (stitch_last-KeepsTiling init last outer ti tl
                (value ∙ ap (λ k. strip k v) one ∙ strip_one v)
                (subst UnstripeFactors ends t.factors))))
  ]
