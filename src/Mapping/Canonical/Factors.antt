-- ===== src/Mapping/Canonical/Factors.antt =====
-- Lists of factors, and the last elements of lists.
use structured_additive_ir.Common.{
  ℕ, zero, suc, ◌-◌, ◌<◌, ◌≡◌, ◌⊎◌, refl, sym, ap, ◌∙◌, false, inl, inr, some, List, [], ◌∷◌, ◌++◌,
  arith, length, take, drop, min,
}
use structured_additive_ir.Mapping.Expr.Valid.{UnstripeFactors, StripeFactors, UnstripeFactors-pos}
use structured_additive_ir.Mapping.Inverse.{last_factor}
use structured_additive_ir.Mapping.Unify.{drop_last}
use structured_additive_ir.Mapping.Canonical.{split_last, does_not_decrease, take_back}
use structured_additive_ir.Mapping.Canonical.Stripes.{StripeFactors-pos}

pub split_last-append {ℓ} :
    {A : Type ℓ} (xs : List A)
    → (xs ≡ [])
      ⊎ ((init : List A) × (last : A) × (split_last xs ≡ some (init, last))
          × (xs ≡ init ++ last ∷ []))
split_last-append [] = inl refl
split_last-append (x ∷ xs) = elim (split_last-append xs) [
  | inl e ↦ rw e (inr ([], x, refl, refl))
  | inr (init, last, e, split) ↦ inr (x ∷ init, last, rw e refl, ap (λ l. x ∷ l) split)
]

pub drop_last-append : (fs : List ℕ) (f : ℕ) → drop_last (fs ++ f ∷ []) ≡ fs
drop_last-append [] f = refl
drop_last-append (x ∷ []) f = refl
drop_last-append (x ∷ y ∷ fs) f = ap (λ l. x ∷ l) (drop_last-append (y ∷ fs) f)

pub last_factor-append : (fs : List ℕ) (f : ℕ) → last_factor (fs ++ f ∷ []) ≡ f
last_factor-append [] f = refl
last_factor-append (x ∷ []) f = refl
last_factor-append (x ∷ y ∷ fs) f = last_factor-append (y ∷ fs) f

-- The factors of an unstripe end with 1.
pub UnstripeFactors-last : (fs : List ℕ) → UnstripeFactors fs → last_factor fs ≡ 1
UnstripeFactors-last [] u = elim u [ ]
UnstripeFactors-last (f ∷ []) u = u
UnstripeFactors-last (f ∷ g ∷ fs) u = UnstripeFactors-last (g ∷ fs) u.1

-- The factors of an inner unstripe continue those of the outer one.
pub UnstripeFactors-collapse :
    (outer : List ℕ) (f : ℕ) (gs : List ℕ)
    → UnstripeFactors (outer ++ f ∷ [])
    → UnstripeFactors gs
    → does_not_decrease outer gs ≡ false
    → UnstripeFactors (outer ++ gs)
UnstripeFactors-collapse [] f gs u w h = w
UnstripeFactors-collapse (x ∷ []) f [] u w h = elim w [ ]
UnstripeFactors-collapse (x ∷ []) f (g ∷ gs) u w h = (ground (arith, h), w)
UnstripeFactors-collapse (x ∷ y ∷ outer) f gs u w h =
    (u.0, UnstripeFactors-collapse (y ∷ outer) f gs u.1 w h)

-- The first factors, and 1.
pub UnstripeFactors-take :
    (fs : List ℕ) (k : ℕ)
    → UnstripeFactors fs
    → k < length fs
    → UnstripeFactors (take k fs ++ 1 ∷ [])
UnstripeFactors-take fs zero u h = refl
UnstripeFactors-take [] (suc k) u h = elim u [ ]
UnstripeFactors-take (f ∷ []) (suc k) u h = absurd (omega arith)
UnstripeFactors-take (f ∷ g ∷ fs) (suc zero) u h =
    (omega (arith, UnstripeFactors-pos g fs u.1), refl)
UnstripeFactors-take (f ∷ g ∷ fs) (suc (suc k)) u h =
    (u.0, UnstripeFactors-take (g ∷ fs) (suc k) u.1 (omega arith))

pub StripeFactors-take_one :
    (fs : List ℕ) (k : ℕ) → StripeFactors fs → k < length fs → StripeFactors (take k fs ++ 1 ∷ [])
StripeFactors-take_one fs zero u h = omega arith
StripeFactors-take_one [] (suc k) u h = elim u [ ]
StripeFactors-take_one (f ∷ []) (suc k) u h = absurd (omega arith)
StripeFactors-take_one (f ∷ g ∷ fs) (suc zero) u h =
    (omega (arith, StripeFactors-pos g fs u.1), omega arith)
StripeFactors-take_one (f ∷ g ∷ fs) (suc (suc k)) u h =
    (u.0, StripeFactors-take_one (g ∷ fs) (suc k) u.1 (omega arith))

pub last_factor-drop :
    (fs : List ℕ) (n : ℕ) → n < length fs → last_factor (drop n fs) ≡ last_factor fs
last_factor-drop [] n h = absurd (omega arith)
last_factor-drop (f ∷ fs) zero h = refl
last_factor-drop (f ∷ []) (suc n) h = absurd (omega arith)
last_factor-drop (f ∷ g ∷ fs) (suc n) h = last_factor-drop (g ∷ fs) n (omega arith)

-- Two lists with the same last factors end alike.
pub last_factor-take_back :
    (fs gs : List ℕ)
    → 0 < length fs
    → 0 < length gs
    → take_back (min (length fs) (length gs)) fs ≡ take_back (min (length fs) (length gs)) gs
    → last_factor fs ≡ last_factor gs
last_factor-take_back fs gs hf hg e =
    sym (last_factor-drop fs (length fs - min (length fs) (length gs)) (omega arith))
    ∙ ap last_factor e
    ∙ last_factor-drop gs (length gs - min (length fs) (length gs)) (omega arith)
