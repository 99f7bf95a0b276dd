-- ===== src/Loops/Space/Translate.antt =====
-- The common loops in what `TryTranslateMapping` returns.
use structured_additive_ir.Common.{
  ℕ, zero, suc, ◌≤◌, ◌<◌, ◌≡◌, refl, sym, ap, ◌∙◌, subst, Bool-cases, Option-cases, inl, inr,
  Option, none, some, List, [], ◌∷◌, if_pos, if_neg, ltb, ◌==◌, arith, length, get_or,
  get_or-append, take, >>=-eq-some, map_option-eq-some,
}
use structured_additive_ir.Mapping.Expr.{
  MappingExpr, dim, none_expr, unknown_expr, stripe, unstripe, MappingExpr-discrete,
}
use structured_additive_ir.Mapping.Unify.{unify as unify_expr, unify_with, resolve_none_and_unknown}
use structured_additive_ir.Mapping.Attr.{
  MappingAttr, size, dimension, get_identity, resize, unify, unify_exprs,
}
use structured_additive_ir.Mapping.Attr.Compose.{length-dims_from, get_or-dims_from}
use structured_additive_ir.Loops.Space.{
  IterationSpace, num_common_loops, translated, space_mapping, loops_mapping, try_translate_mapping,
}

unify-dims : (d i : ℕ) (r : MappingExpr) → unify_expr (dim d) (dim i) ≡ some r → r ≡ dim i
unfolding unify_expr unify_with resolve_none_and_unknown
unify-dims d i r h = elim (MappingExpr-discrete (dim i) (dim d)) [
  | yes same ↦
      (let h' : some (dim d) ≡ some r =
          rw (if_pos (MappingExpr-discrete (dim i) (dim d)) same, unify_expr, unify_with) at h in
        (let here : dim d ≡ r = cc in sym here ∙ sym same))
  | no ne ↦ cc (rw (if_neg (MappingExpr-discrete (dim i) (dim d)) ne, unify_expr, unify_with) at h)
]

unify-dim : (e : MappingExpr) (i : ℕ) (r : MappingExpr) → unify_expr e (dim i) ≡ some r → r ≡ dim i
unfolding unify_expr unify_with resolve_none_and_unknown MappingExpr-discrete
unify-dim (dim d) i r h = unify-dims d i r h
unify-dim none_expr i r h = cc
unify-dim unknown_expr i r h = cc
unify-dim (stripe e fs) i r h = cc
unify-dim (unstripe es fs) i r h = cc

abbrev items : Option (List MappingExpr) → List MappingExpr
items none = []
items (some es) = es

unify_exprs-size :
    (xs ys rs : List MappingExpr) → unify_exprs unify_expr xs ys ≡ some rs → length rs ≤ length ys
unfolding unify_exprs
unify_exprs-size [] ys rs h = subst (λ o. length (items o) ≤ length ys) h (omega arith)
unify_exprs-size (x ∷ xs) [] rs h = subst (λ o. length (items o) ≤ 0) h (omega arith)
unify_exprs-size (x ∷ xs) (y ∷ ys) rs h =
    let (e, one, rest) = >>=-eq-some (unify_expr x y) _ h in
    let (es, later, whole) = map_option-eq-some _ (unify_exprs unify_expr xs ys) rest in
    subst (λ l. length l ≤ suc (length ys)) whole
      (let ih = unify_exprs-size xs ys es later in omega arith)

unify_exprs-dim :
    (xs ys rs : List MappingExpr) (k i : ℕ)
    → unify_exprs unify_expr xs ys ≡ some rs
    → k < length rs
    → get_or ys k none_expr ≡ dim i
    → get_or rs k none_expr ≡ dim i
unfolding unify_exprs
unify_exprs-dim [] ys rs k i h lt at_k =
    absurd (let lt' : k < 0 = subst (λ o. k < length (items o)) (sym h) lt in omega arith)
unify_exprs-dim (x ∷ xs) [] rs k i h lt at_k =
    absurd (let lt' : k < 0 = subst (λ o. k < length (items o)) (sym h) lt in omega arith)
unify_exprs-dim (x ∷ xs) (y ∷ ys) rs zero i h lt at_k =
    let (e, one, rest) = >>=-eq-some (unify_expr x y) _ h in
    let (es, later, whole) = map_option-eq-some _ (unify_exprs unify_expr xs ys) rest in
    subst (λ l. get_or l 0 none_expr ≡ dim i) whole
      (unify-dim x i e (subst (λ z. unify_expr x z ≡ some e) at_k one))
unify_exprs-dim (x ∷ xs) (y ∷ ys) rs (suc k) i h lt at_k =
    let (e, one, rest) = >>=-eq-some (unify_expr x y) _ h in
    let (es, later, whole) = map_option-eq-some _ (unify_exprs unify_expr xs ys) rest in
    subst (λ l. get_or l (suc k) none_expr ≡ dim i) whole
      (unify_exprs-dim xs ys es k i later
        (let lt' : suc k < suc (length es) = subst (λ l. suc k < length l) (sym whole) lt in
          omega arith)
        at_k)

get_or-take :
    (n : ℕ) (xs : List MappingExpr) (i : ℕ)
    → i < length (take n xs)
    → get_or (take n xs) i none_expr ≡ get_or xs i none_expr
get_or-take zero xs i lt = absurd (omega arith)
get_or-take (suc n) [] i lt = refl
get_or-take (suc n) (x ∷ xs) zero lt = refl
get_or-take (suc n) (x ∷ xs) (suc i) lt = get_or-take n xs i (omega arith)

get_or-resized :
    (m : MappingAttr) (new_size i : ℕ)
    → i < size (resize m new_size)
    → i < size m
    → dimension (resize m new_size) i ≡ dimension m i
unfolding resize
get_or-resized m new_size i lt inside = elim (Bool-cases (new_size == size m)) [
  | inl same ↦ rw same refl
  | inr other ↦ elim (Bool-cases (ltb new_size (size m))) [
    | inl less ↦
        rw (other, less) (get_or-take new_size m.dimensions i (rw (other, less, resize) at lt))
    | inr more ↦
        rw (other, more) (get_or-append m.dimensions _ i none_expr ∙ ground (arith, inside))
  ]
]

-- The common loops are mapped to themselves.
loops_mapping-dim :
    (from_space to_space : IterationSpace) (i : ℕ)
    → i < num_common_loops from_space to_space
    → i < size (loops_mapping from_space to_space)
    → dimension (loops_mapping from_space to_space) i ≡ dim i
unfolding loops_mapping get_identity
loops_mapping-dim from_space to_space i lt inside =
    let common = num_common_loops from_space to_space in
    get_or-resized (get_identity common (size from_space.mapping)) (size to_space.mapping) i inside
      (let n = length-dims_from 0 common in omega (arith, n))
    ∙ get_or-dims_from 0 common i lt
    ∙ ap dim (omega arith)

-- A translated mapping maps the loops that the two iteration spaces have in common to themselves.
pub try_translate_mapping-common :
    (from_space to_space : IterationSpace) (mapping result : MappingAttr) (i : ℕ)
    → try_translate_mapping from_space to_space mapping ≡ translated result
    → i < num_common_loops from_space to_space
    → i < size result
    → dimension result i ≡ dim i
unfolding try_translate_mapping unify
try_translate_mapping-common from_space to_space mapping result i h common lt =
    elim (Option-cases (space_mapping from_space to_space mapping)) [
      | inl bad ↦ cc (rw (bad, try_translate_mapping) at h)
      | inr (between, e) ↦ elim (Option-cases (unify between (loops_mapping from_space to_space))) [
        | inl bad ↦ cc (rw (e, bad, try_translate_mapping) at h)
        | inr (unified, u) ↦
            (let h' : translated unified ≡ translated result =
                rw (e, u, try_translate_mapping) at h in
              let same : unified ≡ result = cc in
              let (es, good, whole) =
                map_option-eq-some _
                  (unify_exprs unify_expr between.dimensions
                    (loops_mapping from_space to_space).dimensions)
                  u in
              let same_size : i < length es =
                subst (λ (x : MappingAttr). i < size x) (sym same ∙ sym whole) lt in
              subst (λ (x : MappingAttr). dimension x i ≡ dim i) (whole ∙ same)
                (unify_exprs-dim between.dimensions (loops_mapping from_space to_space).dimensions
                  es i i good same_size
                  (loops_mapping-dim from_space to_space i common
                    (let le = unify_exprs-size between.dimensions _ es good in omega (arith, le)))))
      ]
    ]
