-- ===== src/Mapping/Inverse/Finds.antt =====
-- `FindInInverse` after `SetInverse`.
use structured_additive_ir.Common.{
  ℕ, zero, suc, ◌+◌, ◌-◌, ◌≡◌, refl, sym, subst, false, inl, inr, some, List, [], ◌∷◌, ◌++◌, arith,
  length, take, get_or, replicate, if◌then◌else◌, >>=-eq-some, map_option-eq-some, get_or-set,
  ==_iff,
}
use structured_additive_ir.Mapping.Expr.{
  MappingExpr, MappingExprs, dim, none_expr, unknown_expr, stripe, unstripe, nil, cons, to_list,
  of_list, is_placeholder,
}
use structured_additive_ir.Mapping.Expr.Leaves.{Leaves, LeavesAll, Below, DimBelow}
use structured_additive_ir.Mapping.Expr.Valid.{IsValid, UnstripeFactors}
use structured_additive_ir.Mapping.Refines.{
  Refines, RefinesOperands, Refines-trans, Refines-of_placeholder, tail,
}
use structured_additive_ir.Mapping.Unify.{unify}
use structured_additive_ir.Mapping.Unify.Refine.{unify-Refines}
use structured_additive_ir.Mapping.Inverse.{
  set_inverse, set_inverse_operands, inverse_operands, inverse_factors, find_in_inverse,
  find_in_operands, unstripe_operand,
}
use structured_additive_ir.Mapping.Inverse.Grows.{
  ValidInverses, Grows, Grows-trans, set_inverse-Kept, set_inverse_operands-Kept,
  inverse_context-IsValid, StripeFactors-take,
}

-- The operand behind `k` outer stripes is found again in a refinement.
behind_nones :
    (k : ℕ) (context : MappingExpr) (rest : List MappingExpr) (fs : List ℕ) (rs : MappingExprs)
    (gs : List ℕ)
    → RefinesOperands (of_list (replicate k none_expr ++ context ∷ rest)) fs rs gs
    → Refines context (get_or (to_list rs) k none_expr)
behind_nones zero context rest fs nil gs h = elim h [ ]
behind_nones zero context rest fs (cons r rs) gs (inl (p, _)) = Refines-of_placeholder context r p
behind_nones zero context rest fs (cons r rs) gs (inr (_, h, _)) = h
behind_nones (suc k) context rest fs nil gs h = elim h [ ]
behind_nones (suc zero) context rest fs (cons r rs) gs (inl (_, e)) = cc
behind_nones (suc (suc k)) context rest fs (cons r rs) gs (inl (_, e)) = cc
behind_nones (suc k) context rest fs (cons r rs) gs (inr (_, _, h)) =
    behind_nones k context rest (tail fs) rs (tail gs) h

-- A refinement of the unstripe that a stripe hands to its operand has the context at the stripe's
-- position.
unstripe_operand-Refines :
    (context x : MappingExpr) (fs : List ℕ)
    → Refines (unstripe (of_list (inverse_operands context fs)) (inverse_factors fs)) x
    → Refines context (if is_placeholder x then x else unstripe_operand x (length fs - 1))
unfolding inverse_operands
unstripe_operand-Refines context x fs (rs, gs, e, h) =
    rw e (behind_nones (length fs - 1) context _ (inverse_factors fs) rs gs h)

UnstripeFactors-nonempty : (fs : List ℕ) → UnstripeFactors fs → 0 ≡ length fs → ⊥
UnstripeFactors-nonempty [] u h = u
UnstripeFactors-nonempty (f ∷ fs) u h = omega arith

-- No placeholder occurs.
abbrev pub Specified : MappingExpr → Type 0
Specified = Leaves (λ e. is_placeholder e ≡ false)

mutual
  unfolding set_inverse find_in_inverse

  set_inverse-found :
      (e context : MappingExpr) (inverses after final : List MappingExpr)
      → Specified e
      → IsValid e
      → Below (length inverses) e
      → IsValid context
      → ValidInverses inverses
      → set_inverse e context inverses ≡ some after
      → Grows after final
      → Refines context (find_in_inverse e final)
  set_inverse-found (dim d) context inverses after final sp ve b vc vi h g =
      let (u, ok, e) = map_option-eq-some _ (unify (get_or inverses d none_expr) context) h in
      let (_, r) = unify-Refines (get_or inverses d none_expr) context u (vi d) vc ok in
      let here : get_or after d none_expr ≡ u =
        (rw (← e) (rw (get_or-set inverses d d u none_expr b, (==_iff d d).1 refl))) in
      Refines-trans context u _ r
        (subst (λ x. Refines x (get_or final d none_expr)) here (g.refines d))
  set_inverse-found none_expr context inverses after final sp ve b vc vi h g = cc
  set_inverse-found unknown_expr context inverses after final sp ve b vc vi h g = cc
  set_inverse-found (stripe e fs) context inverses after final sp ve b vc vi h g =
      unstripe_operand-Refines context (find_in_inverse e final) fs (
        set_inverse-found e _ inverses after final sp ve.0 b
          (inverse_context-IsValid context fs vc ve.1) vi h g)
  set_inverse-found (unstripe es fs) context inverses after final sp ve b vc vi h g =
      set_inverse_operands-found es fs context inverses after final sp ve b vc vi h g

  set_inverse_operands-found :
      (es : MappingExprs) (fs : List ℕ) (context : MappingExpr)
      (inverses after final : List MappingExpr)
      → LeavesAll (λ e. is_placeholder e ≡ false) es
      → IsValid (unstripe es fs)
      → LeavesAll (DimBelow (length inverses)) es
      → IsValid context
      → ValidInverses inverses
      → set_inverse_operands es 0 fs context inverses ≡ some after
      → Grows after final
      → Refines context (find_in_operands es none_expr final)
  set_inverse_operands-found nil fs context inverses after final sp ve b vc vi h g =
      absurd (UnstripeFactors-nonempty fs ve.1 ve.2)
  set_inverse_operands-found (cons e es) fs context inverses after final sp ve b vc vi h g =
      let (mid, ok, rest) =
        >>=-eq-some (set_inverse e (stripe context (take (0 + 1) fs)) inverses) _ h in
      let vs : IsValid (stripe context (take (0 + 1) fs)) =
        (vc, StripeFactors-take 0 fs (omega arith) ve.1) in
      let first = set_inverse-Kept e _ inverses mid ve.0.0 b.0 vs vi ok in
      let later =
        set_inverse_operands-Kept es (0 + 1) fs context mid after ve.0.1 ve.1 (omega arith)
          (subst (λ n. LeavesAll (DimBelow n) es) (sym first.grows.size) b.1) vc first.valid rest in
      let (x, eq, r) =
        set_inverse-found e _ inverses mid final sp.0 ve.0.0 b.0 vs vi ok
          (Grows-trans mid after final later.grows g) in
      rw eq r

-- Once `SetInverse` has succeeded, and whatever is unified into the inverses later,
-- `FindInInverse` of an expression with no placeholder finds a refinement of the context that the
-- expression was inverted in.
pub find_in_inverse-set_inverse :
    (e context : MappingExpr) (inverses after final : List MappingExpr)
    → Specified e
    → IsValid e
    → Below (length inverses) e
    → IsValid context
    → ValidInverses inverses
    → set_inverse e context inverses ≡ some after
    → Grows after final
    → Refines context (find_in_inverse e final)
find_in_inverse-set_inverse = set_inverse-found
