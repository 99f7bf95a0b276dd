-- ===== src/Loops/Mapped/Extends.antt =====
-- What `UnifyMapping` keeps of the domain.
use structured_additive_ir.Common.{
  ℕ, ◌≡◌, refl, sym, ap, ◌∙◌, subst, Bool, true, false, Bool-cases, Option-cases, inl, inr, List,
  [], ◌∷◌, ◌++◌, length, get_or, All, All-append, append_assoc, append-nil, if◌then◌else◌,
  map_option-eq-some, replicate, take,
}
use structured_additive_ir.Mapping.Expr.{
  MappingExpr, dim, none_expr, unknown_expr, stripe, unstripe,
}
use structured_additive_ir.Mapping.Attr.{
  MappingAttr, has_none_exprs, compose, unify, unify_exprs, resize_use_domain, dependency_mask,
}
use structured_additive_ir.Mapping.Unify.{unify as unify_expr}
use structured_additive_ir.Mapping.Constraints.{
  Constrained, constrained, not_unified, out_of_range, unification_constraints,
}
use structured_additive_ir.Loops.Mapped.{
  ValueAccess, MappedDomain, Unified, unified, emitted_error, failed_assert, no_access,
  resolve_constraint, resolve_unification, resolve_dimensions, apply_unification, unify_new_mapping,
  unify_mapping, set_bits,
}

abbrev pub IsSurjective : ValueAccess → Type 0
IsSurjective access = has_none_exprs access.mapping ≡ false

-- A domain that has more dimensions at its end, each of them mapped by all of its expressions.
pub record Extends (d d' : MappedDomain) : Type 0 where
  pub added : List ValueAccess
  pub extended : d'.domain ≡ d.domain ++ added
  pub surjective : All IsSurjective added
  pub same_loops : d'.loop_nest ≡ d.loop_nest
  pub same_mapping : d'.loops_mapping ≡ d.loops_mapping

Extends-refl : (d : MappedDomain) → Extends d d
Extends-refl d = record {
  added = [];
  extended = sym (append-nil d.domain);
  surjective = tt;
  same_loops = refl;
  same_mapping = refl;
}

Extends-trans : (a b c : MappedDomain) → Extends a b → Extends b c → Extends a c
Extends-trans a b c first second = record {
  added = first.added ++ second.added;
  extended =
      second.extended
      ∙ ap (λ l. l ++ second.added) first.extended
      ∙ append_assoc a.domain first.added second.added;
  surjective =
      (All-append IsSurjective first.added second.added).1 (first.surjective, second.surjective);
  same_loops = second.same_loops ∙ first.same_loops;
  same_mapping = second.same_mapping ∙ first.same_mapping;
}

abbrev domain_of : MappedDomain → Unified → MappedDomain
domain_of d (unified d' cs) = d'
domain_of d emitted_error = d
domain_of d failed_assert = d

unified-same :
    (d d' e : MappedDomain) (cs cs' : List MappingExpr) → unified d cs ≡ unified d' cs' → d ≡ d'
unified-same d d' e cs cs' h = ap (domain_of e) h

extend-Extends :
    (d d' : MappedDomain) (id : ℕ) (access : ValueAccess) (cs cs' new : List MappingExpr)
    → has_none_exprs access.mapping ≡ false
    → unified (record d { domain = d.domain ++ access ∷ [] }) new ≡ unified d' cs'
    → Extends d d'
extend-Extends d d' id access cs cs' new s h =
    subst (Extends d) (unified-same (record d { domain = d.domain ++ access ∷ [] }) d' d new cs' h)
      (record {
        added = access ∷ [];
        extended = refl;
        surjective = (s, tt);
        same_loops = refl;
        same_mapping = refl;
      })

same-Extends :
    (d d' : MappedDomain) (cs cs' : List MappingExpr) → unified d cs ≡ unified d' cs' → Extends d d'
same-Extends d d' cs cs' h = subst (Extends d) (unified-same d d' d cs cs' h) (Extends-refl d)

unless-Extends :
    (mismatch : Bool) (d d' : MappedDomain) (cs cs' : List MappingExpr)
    → (if mismatch then emitted_error else unified d cs) ≡ unified d' cs'
    → Extends d d'
unless-Extends true d d' cs cs' h = cc
unless-Extends false d d' cs cs' h = same-Extends d d' cs cs' h

resolve_constraint-Extends :
    (d d' : MappedDomain) (id : ℕ) (access : ValueAccess) (cs cs' : List MappingExpr)
    (constraint : MappingExpr)
    → has_none_exprs access.mapping ≡ false
    → resolve_constraint d id access cs constraint ≡ unified d' cs'
    → Extends d d'
unfolding resolve_constraint
resolve_constraint-Extends d d' id access cs cs' (dim k) s h = unless-Extends _ d d' cs cs' h
resolve_constraint-Extends d d' id access cs cs' none_expr s h =
    extend-Extends d d' id access cs cs' _ s (rw s at h)
resolve_constraint-Extends d d' id access cs cs' unknown_expr s h =
    extend-Extends d d' id access cs cs' _ s (rw s at h)
resolve_constraint-Extends d d' id access cs cs' (stripe e fs) s h = cc
resolve_constraint-Extends d d' id access cs cs' (unstripe es fs) s h = cc

-- The mapping is over the domain.
abbrev pub IsOver : MappedDomain → Type 0
IsOver d = d.mapping.use_domain_size ≡ length d.domain

module _ (is_placeholder_op : ℕ → Bool) where
  resolve_unification-Extends :
      (d d' : MappedDomain) (id : ℕ) (access : ValueAccess) (cs cs' : List MappingExpr)
      → has_none_exprs access.mapping ≡ false
      → resolve_unification is_placeholder_op d id access cs ≡ unified d' cs'
      → Extends d d'
  unfolding resolve_unification
  resolve_unification-Extends d d' id access cs cs' s h =
      elim (Bool-cases (is_placeholder_op access.value)) [
        | inl skip ↦ same-Extends d d' cs cs' (rw (skip, resolve_unification) at h)
        | inr other ↦
            resolve_constraint-Extends d d' id access cs cs' (get_or cs id none_expr) s
              (rw (other, resolve_unification) at h)
      ]

  resolve_dimensions-Extends :
      (ids : List ℕ) (new_domain : List ValueAccess) (d d' : MappedDomain)
      (cs cs' : List MappingExpr)
      → resolve_dimensions is_placeholder_op ids new_domain d cs ≡ unified d' cs'
      → Extends d d'
  unfolding resolve_dimensions
  resolve_dimensions-Extends [] new_domain d d' cs cs' h = same-Extends d d' cs cs' h
  resolve_dimensions-Extends (id ∷ ids) new_domain d d' cs cs' h =
      let dimension = get_or new_domain id no_access in
      let access : ValueAccess = record dimension {
        mapping =
            compose (record { use_domain_size = length d.domain; dimensions = take id cs })
              dimension.mapping;
      } in
      elim (Bool-cases (has_none_exprs access.mapping)) [
        | inl bad ↦ cc (rw (bad, resolve_dimensions) at h)
        | inr good ↦
            step access good (resolve_unification is_placeholder_op d id access cs) refl
              (rw (good, resolve_dimensions) at h)
              (λ d₁ cs₁. resolve_dimensions-Extends ids new_domain d₁ d' cs₁ cs')
      ]
    where
      step :
          (access : ValueAccess)
          → has_none_exprs access.mapping ≡ false
          → (r : Unified) → resolve_unification is_placeholder_op d id access cs ≡ r
          → (elim r [
            | unified d₁ cs₁ ↦ resolve_dimensions is_placeholder_op ids new_domain d₁ cs₁
            | emitted_error ↦ emitted_error
            | failed_assert ↦ failed_assert
          ])
            ≡ unified d' cs'
          → ((d₁ : MappedDomain) (cs₁ : List MappingExpr)
              → resolve_dimensions is_placeholder_op ids new_domain d₁ cs₁ ≡ unified d' cs'
              → Extends d₁ d')
          → Extends d d'
      step access good (unified d₁ cs₁) e rest ih =
          Extends-trans d d₁ d' (resolve_unification-Extends d d₁ id access cs cs₁ good e)
            (ih d₁ cs₁ rest)
      step access good emitted_error e rest ih = cc
      step access good failed_assert e rest ih = cc

  apply_unification-Extends :
      (new_mapping : MappingAttr) (d d' : MappedDomain) (cs cs' : List MappingExpr)
      → apply_unification is_placeholder_op new_mapping d cs ≡ unified d' cs'
      → Extends d d' × IsOver d'
  unfolding apply_unification unify compose
  apply_unification-Extends new_mapping d d' cs cs' h =
      let whole : MappingAttr =
        compose (record { use_domain_size = length d.domain; dimensions = cs }) new_mapping in
      let old = resize_use_domain d.mapping (length d.domain) in
      elim (Option-cases (unify whole old)) [
        | inl e ↦ cc (rw (e, apply_unification) at h)
        | inr (mapping, e) ↦
            (let h' : unified (record d { mapping = mapping }) cs ≡ unified d' cs' =
                rw (e, apply_unification) at h in
              let same = unified-same (record d { mapping = mapping }) d' d cs cs' h' in
              let (es, found, made) =
                map_option-eq-some _ (unify_exprs unify_expr whole.dimensions old.dimensions) e in
              subst (λ x. Extends d x × IsOver x) same
                (
                  record {
                    added = [];
                    extended = sym (append-nil d.domain);
                    surjective = tt;
                    same_loops = refl;
                    same_mapping = refl;
                  },
                  ap (λ (m : MappingAttr). m.use_domain_size) (sym made),
                ))
      ]

  unify_new_mapping-Extends :
      (d d' : MappedDomain) (new_mapping : MappingAttr) (new_domain : List ValueAccess)
      (cs cs' : List MappingExpr)
      → unify_new_mapping is_placeholder_op d new_mapping new_domain cs ≡ unified d' cs'
      → Extends d d' × IsOver d'
  unfolding unify_new_mapping
  unify_new_mapping-Extends d d' new_mapping new_domain cs cs' h =
      constrain (unification_constraints new_mapping d.mapping cs) h
    where
      apply :
          (cs₁ : List MappingExpr) (r : Unified)
          → resolve_dimensions is_placeholder_op
              (set_bits 0 (dependency_mask new_mapping))
              new_domain
              d
              cs₁
            ≡ r
          → (elim r [
            | emitted_error ↦ emitted_error
            | failed_assert ↦ failed_assert
            | unified extended resolved ↦
                apply_unification is_placeholder_op new_mapping extended resolved
          ])
            ≡ unified d' cs'
          → Extends d d' × IsOver d'
      apply cs₁ emitted_error e rest = cc
      apply cs₁ failed_assert e rest = cc
      apply cs₁ (unified d₁ cs₂) e rest =
          let (last, over) = apply_unification-Extends new_mapping d₁ d' cs₂ cs' rest in
          (
            Extends-trans d d₁ d' (resolve_dimensions-Extends _ new_domain d d₁ cs₁ cs₂ e) last,
            over,
          )

      constrain :
          (c : Constrained)
          → (elim c [
            | out_of_range ↦ failed_assert
            | not_unified ↦ emitted_error
            | constrained cs₁ ↦
                elim (resolve_dimensions is_placeholder_op
                  (set_bits 0 (dependency_mask new_mapping))
                  new_domain
                  d
                  cs₁) [
                    | emitted_error ↦ emitted_error
                    | failed_assert ↦ failed_assert
                    | unified extended resolved ↦
                        apply_unification is_placeholder_op new_mapping extended resolved
                  ]
          ])
            ≡ unified d' cs'
          → Extends d d' × IsOver d'
      constrain out_of_range rest = cc
      constrain not_unified rest = cc
      constrain (constrained cs₁) rest = apply cs₁ _ refl rest

  -- A successful UnifyMapping only adds dimensions at the end of the domain, each with a mapping that
  -- has no none. The loop nest stays, and the new mapping is over the extended domain.
  pub unify_mapping-Extends :
      (d d' : MappedDomain) (loop_nest_mapping new_mapping : MappingAttr)
      (new_domain : List ValueAccess) (cs : List MappingExpr)
      → unify_mapping is_placeholder_op d loop_nest_mapping new_mapping new_domain ≡ unified d' cs
      → Extends d d' × IsOver d'
  unfolding unify_mapping
  unify_mapping-Extends d d' loop_nest_mapping new_mapping new_domain cs h =
      loops
        (unification_constraints loop_nest_mapping d.loops_mapping
          (replicate (length new_domain) none_expr))
        h
    where
      loops :
          (c : Constrained)
          → (elim c [
            | constrained cs₁ ↦ unify_new_mapping is_placeholder_op d new_mapping new_domain cs₁
            | not_unified ↦ failed_assert
            | out_of_range ↦ failed_assert
          ])
            ≡ unified d' cs
          → Extends d d' × IsOver d'
      loops (constrained cs₁) rest =
          unify_new_mapping-Extends d d' new_mapping new_domain cs₁ cs rest
      loops not_unified rest = cc
      loops out_of_range rest = cc
