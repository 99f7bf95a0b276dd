-- ===== src/Mapping/Canonical/Values.antt =====
-- `Canonicalize` on tiled expressions.
use structured_additive_ir.Common.{
  ℕ, zero, suc, ◌≡◌, refl, sym, ap, ◌∙◌, subst, true, Option, none, some, List, [], ◌∷◌, ◌==◌,
  ==_iff, >>=-eq-some, map_option-eq-some,
}
use structured_additive_ir.Mapping.Expr.{
  MappingExpr, MappingExprs, dim, none_expr, unknown_expr, stripe, unstripe, nil, cons, to_list,
  of_list,
}
use structured_additive_ir.Mapping.Inverse.{last_factor}
use structured_additive_ir.Mapping.Canonical.{
  Rewrite, not_applied, applied, assert_failed, collapse_unstripes, stitch_stripes, Canonical,
  canonical, failed_assert, out_of_fuel, apply_rules, total_weight, canonical_unstripe,
  canonicalize_unstripe, canonicalize, canonicalize_all, get_canonical_stripe,
}
use structured_additive_ir.Mapping.Canonical.Affine.{
  strip, strip_one, as_affine, as_affine_last, Tiled, TilesAll, Tiles, TilesAll-to_list,
  TilesAll-of_list, as_affine_last-Tiles, of_list-to_list,
}
use structured_additive_ir.Mapping.Canonical.Stripes.{get_canonical_stripe-IsStrip}
use structured_additive_ir.Mapping.Canonical.Rules.{
  IsTiling, KeepsTiling, collapse_unstripes-KeepsTiling, stitch_stripes-KeepsTiling,
}

module _ (env : ℕ → ℕ) where
  apply_rules-IsTiling :
      (v : Option ℕ) (fuel : ℕ) (es cs : List MappingExpr) (fs gs : List ℕ)
      → IsTiling env v es fs
      → apply_rules fuel es fs ≡ canonical cs gs
      → IsTiling env v cs gs
  unfolding apply_rules
  apply_rules-IsTiling v zero es cs fs gs t h = cc
  apply_rules-IsTiling v (suc fuel) es cs fs gs t h =
      collapsed (collapse_unstripes es fs) refl (collapse_unstripes-KeepsTiling env v es fs t)
        (stitch_stripes es fs) refl (stitch_stripes-KeepsTiling env v es fs t)
        (λ es' fs'. apply_rules-IsTiling v fuel es' cs fs' gs) h
    where
      collapsed :
          (r : Rewrite)
          → collapse_unstripes es fs ≡ r
          → KeepsTiling env v r
          → (q : Rewrite) → stitch_stripes es fs ≡ q
          → KeepsTiling env v q
          → ((es' : List MappingExpr) (fs' : List ℕ)
              → IsTiling env v es' fs'
              → apply_rules fuel es' fs' ≡ canonical cs gs
              → IsTiling env v cs gs)
          → apply_rules (suc fuel) es fs ≡ canonical cs gs
          → IsTiling env v cs gs
      collapsed (applied es' fs') e k q e' k' ih h = ih es' fs' k (simp (e, apply_rules) at h)
      collapsed assert_failed e k q e' k' ih h = cc (simp (e, apply_rules) at h)
      collapsed not_applied e k (applied es' fs') e' k' ih h =
          ih es' fs' k' (simp (e, e', apply_rules) at h)
      collapsed not_applied e k assert_failed e' k' ih h = cc (simp (e, e', apply_rules) at h)
      collapsed not_applied e k not_applied e' k' ih h =
          let same : canonical es fs ≡ canonical cs gs = simp (e, e', apply_rules) at h in
          let operands : es ≡ cs = cc in
          let factors : fs ≡ gs = cc in
          subst (λ l. IsTiling env v l gs) operands (subst (λ l. IsTiling env v es l) factors t)

  canonical_unstripe-value :
      (v : Option ℕ) (es : List MappingExpr) (fs : List ℕ)
      → IsTiling env v es fs
      → Tiled env (canonical_unstripe es fs) × (as_affine env (canonical_unstripe es fs) ≡ v)
  unfolding canonical_unstripe
  canonical_unstripe-value v [] [] t = elim t.factors [ ]
  canonical_unstripe-value v [] (f ∷ fs) t = elim t.tiles [ ]
  canonical_unstripe-value v (e ∷ es) [] t = elim t.tiles [ ]
  canonical_unstripe-value v (e ∷ es) (f ∷ []) t =
      let unit : (f == 1) ≡ true = (==_iff f 1).1 t.factors in
      rw unit (t.tiles.0, t.tiles.1 ∙ ap (λ k. strip k v) t.factors ∙ strip_one v)
  canonical_unstripe-value v (e ∷ es) (f ∷ g ∷ fs) t = (
    (v, TilesAll-of_list env v (e ∷ es) (f ∷ g ∷ fs) t.tiles, t.factors),
    as_affine_last-Tiles env v (e ∷ es) (f ∷ g ∷ fs) t.tiles t.factors,
  )

  canonicalize_unstripe-value :
      (v : Option ℕ) (es : List MappingExpr) (fs : List ℕ) (c : MappingExpr)
      → IsTiling env v es fs
      → canonicalize_unstripe es fs ≡ some c
      → Tiled env c × (as_affine env c ≡ v)
  unfolding canonicalize_unstripe
  canonicalize_unstripe-value v es fs c t h =
      finished (apply_rules (suc (total_weight (of_list es))) es fs) refl h
    where
      finished :
          (r : Canonical)
          → apply_rules (suc (total_weight (of_list es))) es fs ≡ r
          → elim r [
            | canonical cs gs ↦ some (canonical_unstripe cs gs)
            | failed_assert ↦ none
            | out_of_fuel ↦ none
          ]
            ≡ some c
          → Tiled env c × (as_affine env c ≡ v)
      finished (canonical cs gs) e h =
          let same : canonical_unstripe cs gs ≡ c = cc in
          subst (λ x. Tiled env x × (as_affine env x ≡ v)) same
            (canonical_unstripe-value v cs gs
              (apply_rules-IsTiling v (suc (total_weight (of_list es))) es cs fs gs t e))
      finished failed_assert e h = cc
      finished out_of_fuel e h = cc

  mutual
    unfolding canonicalize

    canonicalize-value :
        (e c : MappingExpr)
        → Tiled env e
        → canonicalize e ≡ some c
        → Tiled env c × (as_affine env c ≡ as_affine env e)
    canonicalize-value (dim d) c t h =
        let same : dim d ≡ c = cc in
        subst (λ x. Tiled env x × (as_affine env x ≡ some (env d))) same (tt, refl)
    canonicalize-value none_expr c t h =
        let same : none_expr ≡ c = cc in
        subst (λ x. Tiled env x × (as_affine env x ≡ none)) same (tt, refl)
    canonicalize-value unknown_expr c t h =
        let same : unknown_expr ≡ c = cc in
        subst (λ x. Tiled env x × (as_affine env x ≡ none)) same (tt, refl)
    canonicalize-value (stripe e fs) c t h =
        let (operand, found, same) =
          map_option-eq-some (λ x. get_canonical_stripe x fs) (canonicalize e) h in
        let (tiled, value) = canonicalize-value e operand t.0 found in
        let new = get_canonical_stripe-IsStrip env operand fs tiled t.1 in
        subst (λ x. Tiled env x × (as_affine env x ≡ as_affine env (stripe e fs))) same
          (new.tiled, new.value ∙ ap (strip (last_factor fs)) value)
    canonicalize-value (unstripe es fs) c t h =
        let (v, tiles, u) = t in
        let (operands, found, finished) = >>=-eq-some (canonicalize_all es) _ h in
        let (tiled, value) =
          canonicalize_unstripe-value v operands fs c
            (record { tiles = canonicalize_all-Tiles v es operands fs tiles found; factors = u })
            finished in
        (
          tiled,
          value
              ∙ sym (
                  ap (as_affine_last env) (sym (of_list-to_list es))
                  ∙ as_affine_last-Tiles env v (to_list es) fs (TilesAll-to_list env v es fs tiles)
                      u),
        )

    canonicalize_all-Tiles :
        (v : Option ℕ) (es : MappingExprs) (cs : List MappingExpr) (fs : List ℕ)
        → TilesAll env v es fs
        → canonicalize_all es ≡ some cs
        → Tiles env v cs fs
    canonicalize_all-Tiles v nil cs [] t h =
        let same : [] ≡ cs = cc in subst (λ x. Tiles env v x []) same tt
    canonicalize_all-Tiles v nil cs (f ∷ fs) t h = elim t [ ]
    canonicalize_all-Tiles v (cons e es) cs [] t h = elim t [ ]
    canonicalize_all-Tiles v (cons e es) cs (f ∷ fs) t h =
        let (c, found, others) = >>=-eq-some (canonicalize e) _ h in
        let (rest, found_rest, same) =
          map_option-eq-some (λ l. c ∷ l) (canonicalize_all es) others in
        let (tiled, value) = canonicalize-value e c t.0 found in
        subst (λ x. Tiles env v x (f ∷ fs)) same
          (tiled, value ∙ t.1, canonicalize_all-Tiles v es rest fs t.2 found_rest)

-- Where the operands of each unstripe are the strips of one value and the factors pass the asserts,
-- the canonical form has the same affine expression, and its unstripes are such, too.
pub canonicalize_lem :
    (env : ℕ → ℕ) (e c : MappingExpr)
    → Tiled env e
    → canonicalize e ≡ some c
    → Tiled env c × (as_affine env c ≡ as_affine env e)
canonicalize_lem = canonicalize-value
