-- ===== src/Sequence/Analysis/Positions.antt =====
-- The lookup cache of `SequenceAnalysis` and the positions of operations in a list.
use structured_additive_ir.Common.{
  ℕ, zero, suc, ◌+◌, ◌≤◌, ◌≡◌, refl, sym, ap, ◌∙◌, subst, true, false, inl, inr, Bool-cases, Option,
  none, some, List, [], ◌∷◌, ◌++◌, ◌==◌, ==_iff, if◌then◌else◌, arith, mem, mem-append, Distinct,
  length, take, drop,
}
use structured_additive_ir.Sequence.Analysis.{SequenceAnalysis, assign_numbers}

-- The position of an operation in a list whose first element has the number given.
abbrev pub index_from : ℕ → ℕ → List ℕ → Option ℕ
index_from n op [] = none
index_from n op (x ∷ xs) = let rest = index_from (n + 1) op xs in if op == x then some n else rest

abbrev pub or_else : Option ℕ → Option ℕ → Option ℕ
or_else none d = d
or_else (some n) d = some n

-- The vector holds each operation once, and the lookup cache has exactly their positions.
pub record IsConsistent (a : SequenceAnalysis) : Type 0 where
  pub once : Distinct a.compute_ops
  pub positions : (op : ℕ) → a.numbers op ≡ index_from 0 op a.compute_ops

pub index_from-absent : (n op : ℕ) (xs : List ℕ) → mem op xs ≡ false → index_from n op xs ≡ none
index_from-absent n op [] h = refl
index_from-absent n op (x ∷ xs) h = ground (arith, index_from-absent (n + 1) op xs)

pub index_from-append :
    (n op : ℕ) (xs ys : List ℕ)
    → index_from n op (xs ++ ys) ≡ or_else (index_from n op xs) (index_from (n + length xs) op ys)
index_from-append n op [] ys = ap (λ k. index_from k op ys) {x = n} {y = n + 0} (omega arith)
index_from-append n op (x ∷ xs) ys = elim (Bool-cases (op == x)) [
  | inl e ↦ rw e refl
  | inr ne ↦ rw ne (
      index_from-append (n + 1) op xs ys
      ∙ ap (λ k. or_else (index_from (n + 1) op xs) (index_from k op ys)) {x = n + 1 + length xs}
          {y = n + suc (length xs)} (omega arith))
]

-- Numbering operations again gives those their positions and leaves the others.
pub assign_numbers-eq :
    (ops : List ℕ) (n : ℕ) (numbers : ℕ → Option ℕ) (op : ℕ)
    → Distinct ops
    → assign_numbers ops n numbers op ≡ or_else (index_from n op ops) (numbers op)
unfolding assign_numbers
assign_numbers-eq [] n numbers op d = refl
assign_numbers-eq (x ∷ xs) n numbers op d =
    assign_numbers-eq xs (n + 1) (λ o. if o == x then some n else numbers o) op d.1
    ∙ elim (Bool-cases (op == x)) [
      | inl e ↦
          (let absent : mem op xs ≡ false =
              subst (λ y. mem y xs ≡ false) (sym ((==_iff op x).0 e)) d.0 in
            rw (e, index_from-absent (n + 1) op xs absent) refl)
      | inr ne ↦ rw ne refl
    ]

pub index_from-mem :
    (n op : ℕ) (xs : List ℕ) → mem op xs ≡ true → (k : ℕ) × (index_from n op xs ≡ some k)
index_from-mem n op [] h = cc
index_from-mem n op (x ∷ xs) h = elim (Bool-cases (op == x)) [
  | inl e ↦ rw e (n, refl)
  | inr ne ↦ rw ne (index_from-mem (n + 1) op xs (ground (arith, h, ne)))
]

-- Where a position is in a list.
pub index_from-split :
    (n op k : ℕ) (ops : List ℕ)
    → index_from n op ops ≡ some k
    → (xs ys : List ℕ) × (ops ≡ xs ++ op ∷ ys) × (k ≡ n + length xs)
index_from-split n op k [] h = cc
index_from-split n op k (x ∷ ops) h = elim (Bool-cases (op == x)) [
  | inl e ↦
      (let same : op ≡ x = (==_iff op x).0 e in
        let value : some n ≡ some k = rw e at h in
        let equal : n ≡ k = cc in ([], ops, ap (λ y. y ∷ ops) (sym same), omega arith))
  | inr ne ↦
      (let (xs, ys, split, at_k) = index_from-split (n + 1) op k ops (rw ne at h) in
        (x ∷ xs, ys, ap (λ l. x ∷ l) split, omega arith))
]

pub split_at :
    (n : ℕ) (ops : List ℕ) → n ≤ length ops → (xs ys : List ℕ) × (ops ≡ xs ++ ys) × (n ≡ length xs)
split_at zero ops h = ([], ops, refl, refl)
split_at (suc n) [] h = elim (bad h) [ ]
  where
    bad : suc n ≤ 0 → ⊥
    bad h = omega arith
split_at (suc n) (x ∷ ops) h =
    let (xs, ys, split, at_n) = split_at n ops (omega arith) in
    (x ∷ xs, ys, ap (λ l. x ∷ l) split, ap suc at_n)

pub take-append : (xs ys : List ℕ) → take (length xs) (xs ++ ys) ≡ xs
take-append [] ys = refl
take-append (x ∷ xs) ys = ap (λ l. x ∷ l) (take-append xs ys)

pub drop-append : (xs ys : List ℕ) → drop (length xs) (xs ++ ys) ≡ ys
drop-append [] ys = refl
drop-append (x ∷ xs) ys = drop-append xs ys

pub drop_suc-append : (op : ℕ) (xs ys : List ℕ) → drop (length xs + 1) (xs ++ op ∷ ys) ≡ ys
drop_suc-append op xs ys =
    ap (λ n. drop n (xs ++ op ∷ ys)) {x = length xs + 1} {y = suc (length xs)} (omega arith)
    ∙ shifted xs
  where
    shifted : (xs : List ℕ) → drop (suc (length xs)) (xs ++ op ∷ ys) ≡ ys
    shifted [] = refl
    shifted (x ∷ xs) = shifted xs

pub Distinct-suffix : (xs ys : List ℕ) → Distinct (xs ++ ys) → Distinct ys
Distinct-suffix [] ys d = d
Distinct-suffix (x ∷ xs) ys d = Distinct-suffix xs ys d.1

pub Distinct-apart :
    (q : ℕ) (xs ys : List ℕ) → Distinct (xs ++ ys) → mem q ys ≡ true → mem q xs ≡ false
Distinct-apart q [] ys d m = refl
Distinct-apart q (x ∷ xs) ys d m = elim (Bool-cases (q == x)) [
  | inl e ↦
      (let there : mem q (xs ++ ys) ≡ false =
          subst (λ y. mem y (xs ++ ys) ≡ false) (sym ((==_iff q x).0 e)) d.0 in
        ground (arith, mem-append q xs ys, there))
  | inr ne ↦ ground (arith, ne, Distinct-apart q xs ys d.1 m)
]

pub Distinct-insert :
    (op : ℕ) (xs ys : List ℕ)
    → Distinct (xs ++ ys)
    → mem op (xs ++ ys) ≡ false
    → Distinct (xs ++ op ∷ ys)
Distinct-insert op [] ys d h = (h, d)
Distinct-insert op (x ∷ xs) ys d h = (
  ground (arith, mem-append x xs (op ∷ ys), mem-append x xs ys, d.0, h),
  Distinct-insert op xs ys d.1 (ground (arith, h)),
)

pub Distinct-erase :
    (op : ℕ) (xs ys : List ℕ)
    → Distinct (xs ++ op ∷ ys)
    → Distinct (xs ++ ys) × (mem op (xs ++ ys) ≡ false)
Distinct-erase op [] ys d = (d.1, d.0)
Distinct-erase op (x ∷ xs) ys d =
    let (rest, absent) = Distinct-erase op xs ys d.1 in
    (
      (ground (arith, mem-append x xs (op ∷ ys), mem-append x xs ys, d.0), rest),
      ground (arith, mem-append x xs (op ∷ ys), d.0, absent),
    )
