-- ===== src/Sequence/Analysis/Points.antt =====
-- `SequenceAnalysis::IsBefore` and `IsAfter` of program points, and `GetSpan`.
use structured_additive_ir.Common.{
  ℕ, zero, suc, refl, ◌⊎◌, ◌++◌, length, ◌+◌, ◌≤◌, ◌≡◌, sym, ap, ◌∙◌, subst, max, min, Bool, true,
  false, not, Option, none, some, List, [], ◌∷◌, ◌==◌, ==_iff, inl, inr, Bool-cases, if◌then◌else◌,
  ◌>>=◌, >>=-eq-some, map_option, map_option-eq-some, get_elem?, arith, mem, Distinct,
}
use structured_additive_ir.Sequence.Program.{Program}
use structured_additive_ir.Sequence.Analysis.{
  Direction, before, after, ProgramPoint, SequenceAnalysis, explicit_sequence_number, is_before,
}
use structured_additive_ir.Sequence.Analysis.Positions.{IsConsistent, index_from, index_from-split}

abbrev pub is_before_direction : Direction → Bool
is_before_direction before = true
is_before_direction after = false

unfoldable pub is_point_before :
    ℕ → Program → List ℕ → SequenceAnalysis → ProgramPoint → ℕ → Option Bool
unfolding is_before
is_point_before depth p cuts a point op = elim point.operation [
  | none ↦ some (is_before_direction point.direction)
  | some operation ↦
      if operation == op
      then some (is_before_direction point.direction)
      else is_before depth p cuts a operation op
]

unfoldable pub is_point_after :
    ℕ → Program → List ℕ → SequenceAnalysis → ProgramPoint → ℕ → Option Bool
unfolding is_before
is_point_after depth p cuts a point op = elim point.operation [
  | none ↦ some (not (is_before_direction point.direction))
  | some operation ↦
      if operation == op
      then some (not (is_before_direction point.direction))
      else is_before depth p cuts a op operation
]

-- The loop of `GetSpan`.
unfoldable pub span_numbers : SequenceAnalysis → List ℕ → ℕ → ℕ → Option (ℕ × ℕ)
unfolding explicit_sequence_number
span_numbers a [] lowest highest = some (lowest, highest)
span_numbers a (op ∷ ops) lowest highest = explicit_sequence_number a op >>= λ number.
    span_numbers a ops (min number lowest) (max number highest)

-- `none` where an assert fails.
unfoldable pub get_span : SequenceAnalysis → List ℕ → Option (ℕ × ℕ)
unfolding explicit_sequence_number span_numbers
get_span a [] = none
get_span a (op ∷ ops) = explicit_sequence_number a op >>= λ number.
    span_numbers a ops number number >>= λ (lowest, highest).
    get_elem? a.compute_ops lowest >>= λ first.
    map_option (λ last. (first, last)) (get_elem? a.compute_ops highest)

-- The numbers that the loop returns bound all numbers that it reads.
span_numbers-bounds :
    (a : SequenceAnalysis) (ops : List ℕ) (lowest highest l h : ℕ)
    → span_numbers a ops lowest highest ≡ some (l, h)
    → (l ≤ lowest)
      × (highest ≤ h)
      × ((op n : ℕ) → mem op ops ≡ true → a.numbers op ≡ some n → (l ≤ n) × (n ≤ h))
unfolding span_numbers explicit_sequence_number
span_numbers-bounds a [] lowest highest l h r =
    let low : lowest ≡ l = cc in
    let high : highest ≡ h = cc in (omega arith, omega arith, λ op n m e. cc)
span_numbers-bounds a (op ∷ ops) lowest highest l h r =
    let (number, at_op, r') = >>=-eq-some (a.numbers op) _ r in
    let (low, high, others) =
      span_numbers-bounds a ops (min number lowest) (max number highest) l h r' in
    (
      omega arith,
      omega arith,
      λ q n m e. elim (Bool-cases (q == op)) [
        | inl here ↦
            (let same : q ≡ op = (==_iff q op).0 here in
              let equal : n ≡ number = cc in (omega arith, omega arith))
        | inr ne ↦ others q n (ground (arith, m, ne)) e
      ],
    )

min-cases : (x y : ℕ) → (min x y ≡ x) ⊎ (min x y ≡ y)
min-cases x y = omega arith

max-cases : (x y : ℕ) → (max x y ≡ x) ⊎ (max x y ≡ y)
max-cases x y = omega arith

-- The numbers that the loop returns are those it starts from, or those of operations it reads.
span_numbers-attained :
    (a : SequenceAnalysis) (ops : List ℕ) (lowest highest l h : ℕ)
    → span_numbers a ops lowest highest ≡ some (l, h)
    → ((l ≡ lowest) ⊎ ((op : ℕ) × (mem op ops ≡ true) × (a.numbers op ≡ some l)))
      × ((h ≡ highest) ⊎ ((op : ℕ) × (mem op ops ≡ true) × (a.numbers op ≡ some h)))
unfolding span_numbers explicit_sequence_number
span_numbers-attained a [] lowest highest l h r = (inl cc, inl cc)
span_numbers-attained a (op ∷ ops) lowest highest l h r =
    let (number, at_op, r') = >>=-eq-some (a.numbers op) _ r in
    let (low, high) = span_numbers-attained a ops (min number lowest) (max number highest) l h r' in
    let here : mem op (op ∷ ops) ≡ true = ground arith in
    let later : (q : ℕ) → mem q ops ≡ true → mem q (op ∷ ops) ≡ true = λ q m. ground arith in
    (
      elim low [
        | inr (q, m, e) ↦ inr (q, later q m, e)
        | inl e ↦ elim (min-cases number lowest) [
          | inl n ↦ inr (op, here, at_op ∙ ap some (sym n ∙ sym e))
          | inr n ↦ inl (e ∙ n)
        ]
      ],
      elim high [
        | inr (q, m, e) ↦ inr (q, later q m, e)
        | inl e ↦ elim (max-cases number highest) [
          | inl n ↦ inr (op, here, at_op ∙ ap some (sym n ∙ sym e))
          | inr n ↦ inl (e ∙ n)
        ]
      ],
    )

get_elem?-append :
    (xs : List ℕ) (op : ℕ) (ys : List ℕ) → get_elem? (xs ++ op ∷ ys) (length xs) ≡ some op
get_elem?-append [] op ys = refl
get_elem?-append (x ∷ xs) op ys = get_elem?-append xs op ys

-- The operation at the position of an operation is that operation.
get_elem?-position :
    (a : SequenceAnalysis) (op k x : ℕ)
    → IsConsistent a
    → a.numbers op ≡ some k
    → get_elem? a.compute_ops k ≡ some x
    → op ≡ x
get_elem?-position a op k x c e at =
    let (xs, ys, split, at_k) = index_from-split 0 op k a.compute_ops (sym (c.positions op) ∙ e) in
    let there : get_elem? (xs ++ op ∷ ys) (length xs) ≡ some x =
      subst (λ n. get_elem? (xs ++ op ∷ ys) n ≡ some x) {x = k} {y = length xs} (omega arith)
        (subst (λ ops. get_elem? ops k ≡ some x) split at) in
    let same : some op ≡ some x = sym (get_elem?-append xs op ys) ∙ there in cc

get_elem?-mem : (xs : List ℕ) (k x : ℕ) → get_elem? xs k ≡ some x → mem x xs ≡ true
get_elem?-mem [] k x h = cc
get_elem?-mem (y ∷ xs) zero x h = let same : y ≡ x = cc in ground arith
get_elem?-mem (y ∷ xs) (suc k) x h = ground (arith, get_elem?-mem xs k x h)

-- The position of an element of a list with no repetition.
get_elem?-index_from :
    (n : ℕ) (xs : List ℕ) (k x : ℕ)
    → Distinct xs
    → get_elem? xs k ≡ some x
    → index_from n x xs ≡ some (n + k)
get_elem?-index_from n [] k x d h = cc
get_elem?-index_from n (y ∷ xs) zero x d h =
    let here : (x == y) ≡ true = (==_iff x y).1 cc in
    rw here (ap some {x = n} {y = n + 0} (omega arith))
get_elem?-index_from n (y ∷ xs) (suc k) x d h = elim (Bool-cases (x == y)) [
  | inl e ↦ cc (get_elem?-mem xs k x h, subst (λ z. mem z xs ≡ false) (sym ((==_iff x y).0 e)) d.0)
  | inr ne ↦ rw ne (
      get_elem?-index_from (n + 1) xs k x d.1 h
      ∙ ap some {x = n + 1 + k} {y = n + suc k} (omega arith))
]

-- In a consistent analysis `GetSpan` returns two of the operations given, and all of the ones given
-- stand between these two.
pub get_span-bounds :
    (a : SequenceAnalysis) (ops : List ℕ) (first last op n : ℕ)
    → IsConsistent a
    → get_span a ops ≡ some (first, last)
    → mem op ops ≡ true
    → a.numbers op ≡ some n
    → (mem first ops ≡ true)
      × (mem last ops ≡ true)
      × ((l h : ℕ) × (a.numbers first ≡ some l) × (a.numbers last ≡ some h) × (l ≤ n) × (n ≤ h))
unfolding get_span explicit_sequence_number
get_span-bounds a [] first last op n c r m e = cc
get_span-bounds a (o ∷ ops) first last op n c r m e =
    let (number, at_o, r1) = >>=-eq-some (a.numbers o) _ r in
    let ((l, h), at_span, r2) = >>=-eq-some (span_numbers a ops number number) _ r1 in
    let (f, at_l, r3) = >>=-eq-some (get_elem? a.compute_ops l) _ r2 in
    let (g, at_h, r4) = map_option-eq-some (λ last. (f, last)) (get_elem? a.compute_ops h) r3 in
    let f_first : f ≡ first = ap (λ (x, _). x) r4 in
    let g_last : g ≡ last = ap (λ (_, y). y) r4 in
    let (low, high, others) = span_numbers-bounds a ops number number l h at_span in
    let position : (x k : ℕ) → get_elem? a.compute_ops k ≡ some x → a.numbers x ≡ some k = λ x k at.
      c.positions x
      ∙ get_elem?-index_from 0 a.compute_ops k x c.once at
      ∙ ap some {x = 0 + k} {y = k} (omega arith) in
    let inside : (l ≤ n) × (n ≤ h) = elim (Bool-cases (op == o)) [
      | inl here ↦
          (let same : op ≡ o = (==_iff op o).0 here in
            let equal : n ≡ number = cc in (omega arith, omega arith))
      | inr ne ↦ others op n (ground (arith, m, ne)) e
    ] in
    let (low_op, high_op) = span_numbers-attained a ops number number l h at_span in
    let given : (k x : ℕ)
        → (k ≡ number) ⊎ ((q : ℕ) × (mem q ops ≡ true) × (a.numbers q ≡ some k))
        → get_elem? a.compute_ops k ≡ some x
        → mem x (o ∷ ops) ≡ true =
      λ k x from at. elim from [
        | inl start ↦
            (let same : o ≡ x = get_elem?-position a o k x c (at_o ∙ ap some (sym start)) at in
              ground (arith, same))
        | inr (q, m, e) ↦
            (let same : q ≡ x = get_elem?-position a q k x c e at in
              let inside : mem x ops ≡ true = subst (λ z. mem z ops ≡ true) same m in
              ground (arith, inside))
      ] in
    (
      given l first low_op (at_l ∙ ap some f_first),
      given h last high_op (at_h ∙ ap some g_last),
      (
        l,
        h,
        position first l (at_l ∙ ap some f_first),
        position last h (at_h ∙ ap some g_last),
        inside.0,
        inside.1,
      ),
    )
