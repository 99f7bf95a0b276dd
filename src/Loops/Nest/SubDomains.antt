-- ===== src/Loops/Nest/SubDomains.antt =====
-- The dimensions that the iterators passed by `VerifySubDomains` depend on.
use structured_additive_ir.Common.{
  ℕ, zero, suc, ◌+◌, ◌≤◌, ◌<◌, ◌≡◌, ◌≢◌, refl, ap, ◌∙◌, subst, Bool, true, false, ◌||◌, Bool-cases,
  Option-cases, inl, inr, ◌⊎◌, none, some, List, [], ◌∷◌, ◌++◌, ltb, leb, arith, get_or,
  >>=-eq-some, length, length-replicate, replicate, foldl,
}
use structured_additive_ir.Mapping.Expr.{
  MappingExpr, dependency_mask, set_dependencies_in_mask, set_bit,
  has_none_exprs as expr_has_none_exprs, walk,
}
use structured_additive_ir.Mapping.Named.Unused.{length-set_bit}
use structured_additive_ir.Loops.Nest.{
  any_bit, find_first, find_last, find_sub_domain, verify_sub_domain, verify_sub_domains,
}

abbrev pub sum : List ℕ → ℕ
sum [] = 0
sum (n ∷ ns) = n + sum ns

find_sub_domain-returns :
    (first min max : ℕ) (sizes : List ℕ)
    → first < max + sum sizes
    → find_sub_domain first min max sizes ≢ none
unfolding find_sub_domain
find_sub_domain-returns first min max [] lt h = ground (arith, lt, h)
find_sub_domain-returns first min max (size ∷ sizes) lt h = elim (Bool-cases (leb max first)) [
  | inl on ↦
      find_sub_domain-returns first max (max + size) sizes (omega arith) (ground (arith, on, h))
  | inr stop ↦ cc (rw stop at h)
]

find_first-lt : (mask : List Bool) → any_bit mask ≡ true → find_first mask < length mask
find_first-lt [] h = cc
find_first-lt (true ∷ bs) h = omega arith
find_first-lt (false ∷ bs) h = omega (arith, find_first-lt bs h)

bit-any_bit : (mask : List Bool) (d : ℕ) → get_or mask d false ≡ true → any_bit mask ≡ true
bit-any_bit [] d h = cc
bit-any_bit (b ∷ bs) zero h = ground (arith, h)
bit-any_bit (b ∷ bs) (suc d) h = ground (arith, bit-any_bit bs d h)

bit-find_last : (mask : List Bool) (d : ℕ) → get_or mask d false ≡ true → d ≤ find_last mask
bit-find_last [] d h = cc
bit-find_last (b ∷ bs) zero h = omega arith
bit-find_last (b ∷ bs) (suc d) h = rw (bit-any_bit bs d h) (omega (arith, bit-find_last bs d h))

verify_sub_domain-parallel :
    (n parallel : ℕ) (sizes : List ℕ) (e : MappingExpr) (d : ℕ)
    → verify_sub_domain n (parallel ∷ sizes) e ≡ some true
    → (expr_has_none_exprs e || ltb (find_first (dependency_mask e n)) parallel) ≡ true
    → parallel ≤ d
    → get_or (dependency_mask e n) d false ≡ false
unfolding verify_sub_domain find_sub_domain
verify_sub_domain-parallel n parallel sizes e d h inside le =
    elim (Bool-cases (get_or (dependency_mask e n) d false)) [
      | inl set ↦
          (let some_bit = bit-any_bit (dependency_mask e n) d set in
            let last = bit-find_last (dependency_mask e n) d set in
            absurd (elim (Bool-cases (expr_has_none_exprs e)) [
              | inl partial ↦
                  ground (arith, rw (some_bit, partial, verify_sub_domain) at h, last, le)
              | inr full ↦
                  (let first : leb parallel (find_first (dependency_mask e n)) ≡ false =
                      ground (arith, inside, full) in
                    ground (
                      arith,
                      rw (some_bit, full, first, verify_sub_domain, find_sub_domain) at h,
                      last,
                      le,
                    ))
            ]))
      | inr good ↦ good
    ]

verify_sub_domains-each :
    (n : ℕ) (sizes : List ℕ) (before : List MappingExpr) (e : MappingExpr)
    (after : List MappingExpr)
    → verify_sub_domains n sizes (before ++ e ∷ after) ≡ some true
    → verify_sub_domain n sizes e ≡ some true
unfolding verify_sub_domains
verify_sub_domains-each n sizes [] e after h =
    let (passes, ok, rest) = >>=-eq-some (verify_sub_domain n sizes e) _ h in
    elim (Bool-cases passes) [ inl t ↦ ok ∙ ap some t | inr f ↦ cc (rw f at rest) ]
verify_sub_domains-each n sizes (x ∷ xs) e after h =
    let (passes, ok, rest) = >>=-eq-some (verify_sub_domain n sizes x) _ h in
    elim (Bool-cases passes) [
      | inl t ↦ verify_sub_domains-each n sizes xs e after (rw t at rest)
      | inr f ↦ cc (rw f at rest)
    ]

-- Where VerifySubDomains accepts the iterators of an operation, one that has none expressions, or
-- whose first dimension is parallel, depends on no dimension outside of the parallel sub-domain.
pub verify_sub_domains-parallel :
    (n parallel : ℕ) (sizes : List ℕ) (before : List MappingExpr) (e : MappingExpr)
    (after : List MappingExpr) (d : ℕ)
    → verify_sub_domains n (parallel ∷ sizes) (before ++ e ∷ after) ≡ some true
    → (expr_has_none_exprs e || ltb (find_first (dependency_mask e n)) parallel) ≡ true
    → parallel ≤ d
    → get_or (dependency_mask e n) d false ≡ false
verify_sub_domains-parallel n parallel sizes before e after d h =
    verify_sub_domain-parallel n parallel sizes e d
      (verify_sub_domains-each n (parallel ∷ sizes) before e after h)

length-foldl-set_bit :
    (mask : List Bool) (es : List MappingExpr) → length (foldl set_bit mask es) ≡ length mask
length-foldl-set_bit mask [] = refl
length-foldl-set_bit mask (x ∷ xs) =
    length-foldl-set_bit (set_bit mask x) xs ∙ length-set_bit mask x

length-dependency_mask : (e : MappingExpr) (n : ℕ) → length (dependency_mask e n) ≡ n
unfolding dependency_mask set_dependencies_in_mask
length-dependency_mask e n =
    length-foldl-set_bit (replicate n false) (walk e) ∙ length-replicate n false

any_bit-first :
    (e : MappingExpr) (n : ℕ)
    → (find_first (dependency_mask e n) < n) ⊎ (any_bit (dependency_mask e n) ≡ false)
any_bit-first e n = elim (Bool-cases (any_bit (dependency_mask e n))) [
  | inl set ↦ inl (
      subst (λ k. find_first (dependency_mask e n) < k) (length-dependency_mask e n)
        (find_first-lt (dependency_mask e n) set))
  | inr clear ↦ inr clear
]

verify_sub_domain-returns :
    (n : ℕ) (sizes : List ℕ) (e : MappingExpr) → n ≤ sum sizes → verify_sub_domain n sizes e ≢ none
unfolding verify_sub_domain
verify_sub_domain-returns n [] e le h = elim (any_bit-first e n) [
  | inl lt ↦ absurd (omega arith)
  | inr clear ↦ cc (rw (clear, verify_sub_domain) at h)
]
verify_sub_domain-returns n (parallel ∷ sizes) e le h = elim (any_bit-first e n) [
  | inl lt ↦
      (let first = find_first (dependency_mask e n) in
        elim (Option-cases (find_sub_domain first 0 parallel (parallel ∷ sizes))) [
          | inl missing ↦
              find_sub_domain-returns first 0 parallel (parallel ∷ sizes) (omega arith) missing
          | inr (bounds, found) ↦
              (let h' = simp (found, verify_sub_domain) at h in ground (arith, h'))
        ])
  | inr clear ↦ cc (rw (clear, verify_sub_domain) at h)
]

-- VerifySubDomains does not read past the end of the sub-domains of an operation when they cover its
-- domain.
pub verify_sub_domains-returns :
    (n : ℕ) (sizes : List ℕ) (es : List MappingExpr)
    → n ≤ sum sizes
    → verify_sub_domains n sizes es ≢ none
unfolding verify_sub_domains
verify_sub_domains-returns n sizes [] le h = cc
verify_sub_domains-returns n sizes (e ∷ es) le h =
    elim (Option-cases (verify_sub_domain n sizes e)) [
      | inl missing ↦ verify_sub_domain-returns n sizes e le missing
      | inr (passes, ok) ↦ elim (Bool-cases passes) [
        | inl t ↦ verify_sub_domains-returns n sizes es le (rw (ok, t, verify_sub_domains) at h)
        | inr f ↦ cc (rw (ok, f, verify_sub_domains) at h)
      ]
    ]
