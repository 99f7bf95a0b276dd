-- ===== src/Mapping/Attr/Surjective.antt =====
-- `MakeSurjective`.
use structured_additive_ir.Common.{
  ℕ, ◌≤◌, ◌≡◌, ◌↔◌, refl, ap, ap₂, ◌∙◌, Bool, false, Bool-cases, inl, inr, List, [], ◌∷◌, map,
  arith, All,
}
use structured_additive_ir.Mapping.Expr.{
  MappingExpr, MappingExprs, dim, none_expr, unknown_expr, stripe, unstripe, nil, cons,
  map_expr_with, map_exprs_with, substitute_dims, has_none_exprs as expr_has_none_exprs,
}
use structured_additive_ir.Mapping.Expr.Leaves.{
  Leaves, LeavesAll, Below, DimBelow, NotNone, has_none_exprs-false_iff, Below-mono,
}
use structured_additive_ir.Mapping.Expr.Substitute.{substitute_dims-dim, substitute_all}
use structured_additive_ir.Mapping.Attr.{
  MappingAttr, fresh_dim, make_surjective_exprs, make_surjective, dims_from, any, has_none_exprs,
  resize_use_domain,
}
use structured_additive_ir.Mapping.Attr.Compose.{InDomain}
use structured_additive_ir.Mapping.Attr.Resize.{
  resize_use_domain-eq-restrict, get_or-dims_from_total,
}

-- What numbering the `none`s from `n` on gives: the next number, no `none`, and what was there
-- when the dimensions from `old` on are dropped.
record Numbered (old : ℕ) (e : MappingExpr) (n : ℕ) (r : MappingExpr × ℕ) : Type 0 where
  next : n ≤ r.1
  full : Leaves NotNone r.0
  bound : Below r.1 r.0
  back : substitute_dims r.0 (dims_from 0 old) ≡ e

record NumberedAll (old : ℕ) (es : MappingExprs) (n : ℕ) (r : MappingExprs × ℕ) : Type 0 where
  next : n ≤ r.1
  full : LeavesAll NotNone r.0
  bound : LeavesAll (DimBelow r.1) r.0
  back : substitute_all r.0 (dims_from 0 old) ≡ es

mutual
  unfolding map_expr_with fresh_dim substitute_dims

  number_expr :
      (old : ℕ) (e : MappingExpr) (n : ℕ)
      → Below old e
      → old ≤ n
      → Numbered old e n (map_expr_with fresh_dim e n)
  number_expr old (dim d) n b le = record {
    next = omega arith;
    full = refl;
    bound = omega arith;
    back = substitute_dims-dim d _ ∙ get_or-dims_from_total old d ∙ ground arith;
  }
  number_expr old none_expr n b le = record {
    next = omega arith;
    full = refl;
    bound = omega arith;
    back = substitute_dims-dim n _ ∙ get_or-dims_from_total old n ∙ ground arith;
  }
  number_expr old unknown_expr n b le = record {
    next = omega arith;
    full = refl;
    bound = tt;
    back = refl;
  }
  number_expr old (stripe e fs) n b le =
      let ih = number_expr old e n b le in
      record {
        next = ih.next;
        full = ih.full;
        bound = ih.bound;
        back = ap (λ x. stripe x fs) ih.back;
      }
  number_expr old (unstripe es fs) n b le =
      let ih = number_exprs old es n b le in
      record {
        next = ih.next;
        full = ih.full;
        bound = ih.bound;
        back = ap (λ x. unstripe x fs) ih.back;
      }

  number_exprs :
      (old : ℕ) (es : MappingExprs) (n : ℕ)
      → LeavesAll (DimBelow old) es
      → old ≤ n
      → NumberedAll old es n (map_exprs_with fresh_dim es n)
  number_exprs old nil n b le = record { next = omega arith; full = tt; bound = tt; back = refl }
  number_exprs old (cons e es) n b le =
      let one = number_expr old e n b.0 le in
      let n' = (map_expr_with fresh_dim e n).1 in
      let n'' = (map_exprs_with fresh_dim es n').1 in
      let rest = number_exprs old es n' b.1 (omega (arith, one.next)) in
      record {
        next = omega (arith, one.next, rest.next);
        full = (one.full, rest.full);
        bound = (Below-mono n' n'' rest.next (map_expr_with fresh_dim e n).0 one.bound, rest.bound);
        back = ap₂ cons one.back rest.back;
      }

record NumberedList (old : ℕ) (es : List MappingExpr) (n : ℕ) (r : List MappingExpr × ℕ)
    : Type 0 where
  next : n ≤ r.1
  full : All (Leaves NotNone) r.0
  bound : All (Below r.1) r.0
  back : map (λ e. substitute_dims e (dims_from 0 old)) r.0 ≡ es

make_surjective_exprs-Numbered :
    (old : ℕ) (es : List MappingExpr) (n : ℕ)
    → All (Below old) es
    → old ≤ n
    → NumberedList old es n (make_surjective_exprs es n)
unfolding make_surjective_exprs
make_surjective_exprs-Numbered old [] n b le = record {
  next = omega arith;
  full = tt;
  bound = tt;
  back = refl;
}
make_surjective_exprs-Numbered old (e ∷ es) n b le =
    let one = number_expr old e n b.0 le in
    let n' = (map_expr_with fresh_dim e n).1 in
    let n'' = (make_surjective_exprs es n').1 in
    let rest = make_surjective_exprs-Numbered old es n' b.1 (omega (arith, one.next)) in
    record {
      next = omega (arith, one.next, rest.next);
      full = (one.full, rest.full);
      bound = (Below-mono n' n'' rest.next (map_expr_with fresh_dim e n).0 one.bound, rest.bound);
      back = ap₂ ◌∷◌ one.back rest.back;
    }

pub any-false_iff :
    (p : MappingExpr → Bool) (P : MappingExpr → Type 0)
    → ((e : MappingExpr) → (p e ≡ false) ↔ P e)
    → (es : List MappingExpr) → (any p es ≡ false) ↔ All P es
any-false_iff p P one [] = (λ h. tt, λ h. refl)
any-false_iff p P one (e ∷ es) =
    let ih = any-false_iff p P one es in
    let here = one e in
    elim (Bool-cases (p e)) [
      | inl t ↦ (λ h. cc (rw t at h), λ h. cc (here.1 h.0))
      | inr f ↦ (λ h. (here.0 f, ih.0 (rw f at h)), λ h. rw f (ih.1 h.1))
    ]

-- `HasNoneExprs` of a mapping is false exactly when no leaf of it is `none`.
pub has_none_exprs-false :
    (m : MappingAttr) → (has_none_exprs m ≡ false) ↔ All (Leaves NotNone) m.dimensions
unfolding has_none_exprs
has_none_exprs-false m =
    any-false_iff expr_has_none_exprs (Leaves NotNone) has_none_exprs-false_iff m.dimensions

make_surjective-Numbered :
    (m : MappingAttr)
    → InDomain m
    → NumberedList m.use_domain_size m.dimensions m.use_domain_size
        ((make_surjective m).dimensions, (make_surjective m).use_domain_size)
unfolding make_surjective
make_surjective-Numbered m b =
    let made =
      make_surjective_exprs-Numbered m.use_domain_size m.dimensions m.use_domain_size b
        (omega arith) in
    record { next = made.next; full = made.full; bound = made.bound; back = made.back }

-- `MakeSurjective` gives a surjective mapping in its domain, whose first dimensions are the old
-- ones: dropping the new dimensions gives the mapping back.
pub make_surjective_lem :
    (m : MappingAttr)
    → InDomain m
    → (has_none_exprs (make_surjective m) ≡ false)
      × InDomain (make_surjective m)
      × (m.use_domain_size ≤ (make_surjective m).use_domain_size)
      × (resize_use_domain (make_surjective m) m.use_domain_size ≡ m)
make_surjective_lem m b =
    let numbered = make_surjective-Numbered m b in
    (
      (has_none_exprs-false (make_surjective m)).1 numbered.full,
      numbered.bound,
      numbered.next,
      resize_use_domain-eq-restrict (make_surjective m) m.use_domain_size numbered.bound
          ∙ ap (λ es. record { use_domain_size = m.use_domain_size; dimensions = es })
              numbered.back,
    )
