-- ===== src/Mapping/Canonical/Affine.antt =====
-- `AsAffineExpr`, evaluated, and expressions whose unstripes put one value together.
use structured_additive_ir.Common.{
  ℕ, zero, suc, ◌*◌, ◌/◌, ◌≡◌, refl, ap, ◌∙◌, Option, none, some, List, [], ◌∷◌, ◌++◌, arith,
  map_option, length, take,
}
use structured_additive_ir.Mapping.Expr.{
  MappingExpr, MappingExprs, dim, none_expr, unknown_expr, stripe, unstripe, nil, cons, to_list,
  of_list,
}
use structured_additive_ir.Mapping.Expr.Valid.{UnstripeFactors, StripeFactors}
use structured_additive_ir.Mapping.Inverse.{last_factor}

-- `step * operand.floorDiv(step)`.
abbrev pub strip : ℕ → Option ℕ → Option ℕ
strip step v = map_option (λ n. step * (n / step)) v

-- `none` at `llvm_unreachable`.
abbrev mutual
  pub as_affine : (ℕ → ℕ) → MappingExpr → Option ℕ
  as_affine env (dim d) = some (env d)
  as_affine env none_expr = none
  as_affine env unknown_expr = none
  as_affine env (stripe e fs) = strip (last_factor fs) (as_affine env e)
  as_affine env (unstripe es fs) = as_affine_last env es

  -- That of the last operand.
  pub as_affine_last : (ℕ → ℕ) → MappingExprs → Option ℕ
  as_affine_last env nil = none
  as_affine_last env (cons e nil) = as_affine env e
  as_affine_last env (cons e (cons e' es)) = as_affine_last env (cons e' es)

-- The operands of each unstripe are the strips of one value, and the factors pass the asserts.
abbrev mutual
  pub Tiled : (ℕ → ℕ) → MappingExpr → Type 0
  Tiled env (dim d) = Unit
  Tiled env none_expr = Unit
  Tiled env unknown_expr = Unit
  Tiled env (stripe e fs) = Tiled env e × StripeFactors fs
  Tiled env (unstripe es fs) = (v : Option ℕ) × TilesAll env v es fs × UnstripeFactors fs

  pub TilesAll : (ℕ → ℕ) → Option ℕ → MappingExprs → List ℕ → Type 0
  TilesAll env v nil [] = Unit
  TilesAll env v nil (f ∷ fs) = ⊥
  TilesAll env v (cons e es) [] = ⊥
  TilesAll env v (cons e es) (f ∷ fs) =
      Tiled env e × (as_affine env e ≡ strip f v) × TilesAll env v es fs

abbrev pub Tiles : (ℕ → ℕ) → Option ℕ → List MappingExpr → List ℕ → Type 0
Tiles env v [] [] = Unit
Tiles env v [] (f ∷ fs) = ⊥
Tiles env v (e ∷ es) [] = ⊥
Tiles env v (e ∷ es) (f ∷ fs) = Tiled env e × (as_affine env e ≡ strip f v) × Tiles env v es fs

pub of_list-to_list : (es : MappingExprs) → of_list (to_list es) ≡ es
of_list-to_list nil = refl
of_list-to_list (cons e es) = ap (cons e) (of_list-to_list es)

pub strip_one : (v : Option ℕ) → strip 1 v ≡ v
strip_one none = refl
strip_one (some n) = ap some {x = 1 * (n / 1)} {y = n} (omega arith)

module _ (env : ℕ → ℕ) (v : Option ℕ) where
  pub TilesAll-to_list :
      (es : MappingExprs) (fs : List ℕ) → TilesAll env v es fs → Tiles env v (to_list es) fs
  TilesAll-to_list nil [] h = tt
  TilesAll-to_list nil (f ∷ fs) h = h
  TilesAll-to_list (cons e es) [] h = h
  TilesAll-to_list (cons e es) (f ∷ fs) h = (h.0, h.1, TilesAll-to_list es fs h.2)

  pub TilesAll-of_list :
      (es : List MappingExpr) (fs : List ℕ) → Tiles env v es fs → TilesAll env v (of_list es) fs
  TilesAll-of_list [] [] h = tt
  TilesAll-of_list [] (f ∷ fs) h = h
  TilesAll-of_list (e ∷ es) [] h = h
  TilesAll-of_list (e ∷ es) (f ∷ fs) h = (h.0, h.1, TilesAll-of_list es fs h.2)

  -- The last operand has the whole value.
  pub as_affine_last-Tiles :
      (es : List MappingExpr) (fs : List ℕ)
      → Tiles env v es fs
      → UnstripeFactors fs
      → as_affine_last env (of_list es) ≡ v
  as_affine_last-Tiles [] [] h u = elim u [ ]
  as_affine_last-Tiles [] (f ∷ fs) h u = elim h [ ]
  as_affine_last-Tiles (e ∷ es) [] h u = elim h [ ]
  as_affine_last-Tiles (e ∷ []) (f ∷ []) h u = h.1 ∙ ap (λ k. strip k v) u ∙ strip_one v
  as_affine_last-Tiles (e ∷ []) (f ∷ g ∷ fs) h u = elim h.2 [ ]
  as_affine_last-Tiles (e ∷ e' ∷ es) (f ∷ []) h u = elim h.2 [ ]
  as_affine_last-Tiles (e ∷ e' ∷ es) (f ∷ g ∷ fs) h u =
      as_affine_last-Tiles (e' ∷ es) (g ∷ fs) h.2 u.1

  pub Tiles-append :
      (xs ys : List MappingExpr) (fs gs : List ℕ)
      → Tiles env v xs fs
      → Tiles env v ys gs
      → Tiles env v (xs ++ ys) (fs ++ gs)
  Tiles-append [] ys [] gs h k = k
  Tiles-append [] ys (f ∷ fs) gs h k = elim h [ ]
  Tiles-append (x ∷ xs) ys [] gs h k = elim h [ ]
  Tiles-append (x ∷ xs) ys (f ∷ fs) gs h k = (h.0, h.1, Tiles-append xs ys fs gs h.2 k)

  pub Tiles-take :
      (n : ℕ) (xs : List MappingExpr) (fs : List ℕ)
      → Tiles env v xs fs
      → Tiles env v (take n xs) (take n fs)
  Tiles-take zero xs fs h = tt
  Tiles-take (suc n) [] [] h = tt
  Tiles-take (suc n) [] (f ∷ fs) h = elim h [ ]
  Tiles-take (suc n) (x ∷ xs) [] h = elim h [ ]
  Tiles-take (suc n) (x ∷ xs) (f ∷ fs) h = (h.0, h.1, Tiles-take n xs fs h.2)

  -- The last operand and its factor.
  pub Tiles-split :
      (init : List MappingExpr) (last : MappingExpr) (fs : List ℕ)
      → Tiles env v (init ++ last ∷ []) fs
      → (outer : List ℕ) × (f : ℕ) × (fs ≡ outer ++ f ∷ [])
        × Tiles env v init outer
        × Tiled env last
        × (as_affine env last ≡ strip f v)
  Tiles-split [] last [] h = elim h [ ]
  Tiles-split [] last (f ∷ []) h = ([], f, refl, tt, h.0, h.1)
  Tiles-split [] last (f ∷ g ∷ fs) h = elim h.2 [ ]
  Tiles-split (x ∷ xs) last [] h = elim h [ ]
  Tiles-split (x ∷ xs) last (f ∷ fs) h =
      let (outer, g, e, rest, inner, value) = Tiles-split xs last fs h.2 in
      (f ∷ outer, g, ap (λ l. f ∷ l) e, (h.0, h.1, rest), inner, value)

  pub Tiles-length :
      (xs : List MappingExpr) (fs : List ℕ) → Tiles env v xs fs → length xs ≡ length fs
  Tiles-length [] [] h = refl
  Tiles-length [] (f ∷ fs) h = elim h [ ]
  Tiles-length (x ∷ xs) [] h = elim h [ ]
  Tiles-length (x ∷ xs) (f ∷ fs) h = ap suc (Tiles-length xs fs h.2)
