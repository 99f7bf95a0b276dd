-- ===== src/Loops/Nest/WellFormed.antt =====
-- What `VerifyLoopNestWellFormed` accepts.
use structured_additive_ir.Common.{
  ℕ, ◌≤◌, ◌≡◌, ◌↔◌, refl, sym, ap, subst, true, false, Bool-cases, Option-cases, inl, inr, none,
  some, List, [], ◌∷◌, map, ◌==◌, ==_iff, arith, mem, Distinct, All,
}
use structured_additive_ir.Mapping.Expr.{MappingExpr, has_unknown_exprs, min_domain_size}
use structured_additive_ir.Mapping.Expr.Leaves.{
  Leaves, Below, NotNone, NotUnknown, has_unknown_exprs-false_iff, min_domain_size-le_iff,
}
use structured_additive_ir.Mapping.Attr.{
  MappingAttr, get_checked, inverse, has_none_exprs, verify_mapping_exprs,
}
use structured_additive_ir.Mapping.Attr.Surjective.{has_none_exprs-false}
use structured_additive_ir.Mapping.Attr.Invert.{get_checked-inverse}
use structured_additive_ir.Loops.Nest.{
  LoopAttr, accepted, verify_loops, verify_covered, verify_iterators, verify_loop_nest_well_formed,
  name_of, iter_of,
}

-- The iterator is in the domain and has no unknown expression.
abbrev pub IsIterator : ℕ → LoopAttr → Type 0
IsIterator domain_size l = Below domain_size l.iter × Leaves NotUnknown l.iter

-- No name of the loop nest is among the given ones, and they are distinct.
abbrev FreshNames : List ℕ → List LoopAttr → Type 0
FreshNames names [] = Unit
FreshNames names (l ∷ ls) = (mem l.name names ≡ false) × FreshNames (l.name ∷ names) ls

verify_loops-none_iff :
    (n : ℕ) (names : List ℕ) (nest : List LoopAttr)
    → (verify_loops n names nest ≡ none) ↔ (FreshNames names nest × All (IsIterator n) nest)
unfolding verify_loops
verify_loops-none_iff n names [] = (λ h. (tt, tt), λ h. refl)
verify_loops-none_iff n names (l ∷ ls) =
    let ih = verify_loops-none_iff n (l.name ∷ names) ls in
    let below = min_domain_size-le_iff l.iter n in
    let known = has_unknown_exprs-false_iff l.iter in
    (
      λ h.
          let fresh : mem l.name names ≡ false = ground (arith, h) in
          let le : min_domain_size l.iter ≤ n = ground (arith, h) in
          let no_unknown : has_unknown_exprs l.iter ≡ false = ground (arith, h) in
          let rest = ih.0 (ground (arith, h)) in
          ((fresh, rest.0), ((below.0 le, known.0 no_unknown), rest.1)),
      λ h.
          let rest = ih.1 (h.0.1, h.1.1) in
          let fresh = h.0.0 in
          let le = below.1 h.1.0.0 in
          let no_unknown = known.1 h.1.0.1 in ground (arith, rest, fresh, le, no_unknown),
    )

FreshNames-iff :
    (names : List ℕ) (nest : List LoopAttr)
    → FreshNames names nest ↔ (
        Distinct (map name_of nest)
        × ((a : ℕ) → mem a names ≡ true → mem a (map name_of nest) ≡ false))
FreshNames-iff names [] = (λ h. (tt, λ a m. refl), λ h. tt)
FreshNames-iff names (l ∷ ls) =
    let ih = FreshNames-iff (l.name ∷ names) ls in
    (
      λ (fresh, rest).
          let (distinct, apart) = ih.0 rest in
          (
            (apart l.name (ground arith), distinct),
            λ a m.
                let other : (a == l.name) ≡ false = elim (Bool-cases (a == l.name)) [
                  | inl e ↦ cc (subst (λ x. mem x names ≡ true) ((==_iff a l.name).0 e) m, fresh)
                  | inr ne ↦ ne
                ] in
                let later = apart a (ground (arith, m)) in ground (arith, other, later),
          ),
      λ ((first, distinct), apart).
          let fresh : mem l.name names ≡ false = elim (Bool-cases (mem l.name names)) [
            | inl m ↦ (let no = apart l.name m in ground (arith, no))
            | inr ne ↦ ne
          ] in
          (
            fresh,
            ih.1 (
              distinct,
              λ a m. elim (Bool-cases (a == l.name)) [
                | inl e ↦
                    subst (λ x. mem x (map name_of ls) ≡ false) (sym ((==_iff a l.name).0 e)) first
                | inr ne ↦ (let no = apart a (ground (arith, m, ne)) in ground (arith, no, ne))
              ],
            ),
          ),
    )

Distinct-FreshNames : (nest : List LoopAttr) → FreshNames [] nest ↔ Distinct (map name_of nest)
Distinct-FreshNames nest =
    let both = FreshNames-iff [] nest in (λ h. (both.0 h).0, λ d. both.1 (d, λ a m. cc))

-- An inverse in which each dimension has an expression with no `none`.
abbrev pub IsCovering : MappingAttr → Type 0
IsCovering m =
    (inverted : MappingAttr) × (inverse m ≡ some inverted)
    × All (Leaves NotNone) inverted.dimensions

verify_covered-accepted_iff :
    (m m' : MappingAttr) → (verify_covered m ≡ accepted m') ↔ ((m' ≡ m) × IsCovering m)
unfolding verify_covered
verify_covered-accepted_iff m m' = elim (Option-cases (inverse m)) [
  | inl e ↦ (λ h. cc (rw (e, verify_covered) at h), λ (same, covering). cc (e, covering.1))
  | inr (inverted, e) ↦ (
    λ h. elim (Bool-cases (has_none_exprs inverted)) [
      | inl bad ↦ cc (rw (e, bad, verify_covered) at h)
      | inr good ↦
          (let h' : accepted m ≡ accepted m' = rw (e, good, verify_covered) at h in
            (cc, (inverted, e, (has_none_exprs-false inverted).0 good)))
    ],
    λ (same, covering).
        let (other, found, covered) = covering in
        let one : other ≡ inverted = cc in
        let good : has_none_exprs inverted ≡ false =
          (has_none_exprs-false inverted).1
            (subst (λ (x : MappingAttr). All (Leaves NotNone) x.dimensions) one covered) in
        rw (e, good, verify_covered) (ap accepted (sym same)),
  )
]

abbrev pub iterators : ℕ → List LoopAttr → MappingAttr
iterators domain_size nest = record { use_domain_size = domain_size; dimensions = map iter_of nest }

verify_iterators-accepted_iff :
    (n : ℕ) (es : List MappingExpr) (m : MappingAttr)
    → (verify_iterators n es ≡ accepted m)
      ↔ ((m ≡ record { use_domain_size = n; dimensions = es }) × IsCovering m)
unfolding verify_iterators get_checked
verify_iterators-accepted_iff n es m =
    let whole : MappingAttr = record { use_domain_size = n; dimensions = es } in
    let covered = verify_covered-accepted_iff whole m in
    elim (Bool-cases (verify_mapping_exprs n es)) [
      | inl ok ↦ (
        λ h.
            let (same, rest) = covered.0 (rw (ok, verify_iterators, get_checked) at h) in
            (same, subst IsCovering (sym same) rest),
        λ (same, rest).
            rw (ok, verify_iterators, get_checked) (covered.1 (same, subst IsCovering same rest)),
      )
      | inr bad ↦ (
        λ h. cc (rw (bad, verify_iterators, get_checked) at h),
        λ (same, covering).
            let (inverted, found, rest) = covering in
            let missing : inverse whole ≡ none =
              (get_checked-inverse n es).0 (rw (bad, get_checked) refl) in
            let present : inverse whole ≡ some inverted =
              subst (λ (x : MappingAttr). inverse x ≡ some inverted) same found in
            cc,
      )
    ]

-- VerifyLoopNestWellFormed reaches the verification of the shape, with the mapping from the domain to
-- the loops, exactly when the loops have distinct names, the iterators have no unknown expression
-- and no dimension outside of the domain, and their mapping has an inverse with no none.
pub verify_loop_nest_well_formed-accepted_iff :
    (domain_size : ℕ) (nest : List LoopAttr) (mapping : MappingAttr)
    → (verify_loop_nest_well_formed domain_size nest ≡ accepted mapping) ↔ (
        Distinct (map name_of nest)
        × All (IsIterator domain_size) nest
        × (mapping ≡ iterators domain_size nest)
        × IsCovering mapping)
unfolding verify_loop_nest_well_formed
verify_loop_nest_well_formed-accepted_iff n nest m =
    let loops = verify_loops-none_iff n [] nest in
    let names = Distinct-FreshNames nest in
    let iters = verify_iterators-accepted_iff n (map iter_of nest) m in
    elim (Option-cases (verify_loops n [] nest)) [
      | inl ok ↦ (
        λ h.
            let (fresh, good) = loops.0 ok in
            let (same, covering) = iters.0 (rw (ok, verify_loop_nest_well_formed) at h) in
            (names.0 fresh, good, same, covering),
        λ (distinct, good, same, covering).
            rw (ok, verify_loop_nest_well_formed) (iters.1 (same, covering)),
      )
      | inr (error, bad) ↦ (
        λ h. cc (rw (bad, verify_loop_nest_well_formed) at h),
        λ (distinct, good, same, covering). cc (loops.1 (names.1 distinct, good), bad),
      )
    ]
