-- ===== src/Sequence/Analysis/Orders.antt =====
-- `SequenceAnalysis::Insert` at a reference, and `IsBefore` of compute operations.
use structured_additive_ir.Common.{
  ℕ, ◌+◌, ◌≤◌, ◌<◌, ◌≡◌, sym, ap, ap₂, ◌∙◌, subst, true, false, inl, inr, Bool-cases, some, List,
  [], ◌∷◌, ◌++◌, ◌==◌, ==_iff, arith, mem, mem-append, Distinct, length, append_assoc,
  length-append, ltb,
}
use structured_additive_ir.Sequence.Program.{Program}
use structured_additive_ir.Sequence.Analysis.{
  SequenceAnalysis, before, after, insert, is_before, insert_at, explicit_sequence_number,
}
use structured_additive_ir.Sequence.Analysis.Edits.{
  in_order, IsConsistent-in_order, insert_at-in_order, index_from-here, index-append,
}
use structured_additive_ir.Sequence.Analysis.Positions.{
  index_from, IsConsistent, index_from-absent, index_from-mem, Distinct-erase,
}

-- Inserting behind an operation is inserting before the ones that follow it.
insert_at-after :
    (op reference : ℕ) (xs ys : List ℕ)
    → Distinct (xs ++ reference ∷ ys)
    → mem op (xs ++ reference ∷ ys) ≡ false
    → insert_at (in_order (xs ++ reference ∷ ys)) op (length xs + 1)
      ≡ in_order (xs ++ reference ∷ op ∷ ys)
insert_at-after op reference xs ys d fresh =
    let shift = append_assoc xs (reference ∷ []) ys in
    let count : length (xs ++ reference ∷ []) ≡ length xs + 1 = length-append xs (reference ∷ []) in
    sym (ap₂ (λ l n. insert_at (in_order l) op n) shift count)
    ∙ insert_at-in_order op (xs ++ reference ∷ []) ys (subst Distinct (sym shift) d)
        (subst (λ l. mem op l ≡ false) (sym shift) fresh)
    ∙ ap in_order (append_assoc xs (reference ∷ []) (op ∷ ys))

index_from-bounds :
    (n op k : ℕ) (xs : List ℕ) → index_from n op xs ≡ some k → (n ≤ k) × (k < n + length xs)
index_from-bounds n op k [] h = cc
index_from-bounds n op k (x ∷ xs) h = elim (Bool-cases (op == x)) [
  | inl e ↦ (let value : some n ≡ some k = rw e at h in let equal : n ≡ k = cc in omega arith)
  | inr ne ↦
      (let bounds = index_from-bounds (n + 1) op k xs (rw ne at h) in
        (omega (arith, bounds.0), omega (arith, bounds.1)))
]

-- An operation is in the first part of a list if its position is.
position-ltb :
    (q k : ℕ) (xs zs : List ℕ) → index_from 0 q (xs ++ zs) ≡ some k → ltb k (length xs) ≡ mem q xs
position-ltb q k xs zs h =
    let there = sym (index-append q xs zs) ∙ h in
    elim (Bool-cases (mem q xs)) [
      | inl m ↦
          (let (j, at_j) = index_from-mem 0 q xs m in
            let value : some j ≡ some k = rw at_j at there in
            let equal : j ≡ k = cc in
            let bounds = index_from-bounds 0 q j xs at_j in ground (arith, m, equal, bounds.1))
      | inr out ↦
          (let bounds =
              index_from-bounds (length xs) q k zs (rw (index_from-absent 0 q xs out) at there) in
            ground (arith, out, bounds.0))
    ]

-- `Insert` puts an operation directly before or directly behind the compute operation that it is
-- given as the reference.
pub insert-placed :
    (depth : ℕ) (p : Program) (cuts : List ℕ) (a : SequenceAnalysis) (op reference : ℕ)
    (xs ys : List ℕ)
    → IsConsistent a
    → a.compute_ops ≡ xs ++ reference ∷ ys
    → p.is_compute reference ≡ true
    → mem op a.compute_ops ≡ false
    → (insert depth p cuts a op (some reference) before
        ≡ some (in_order (xs ++ op ∷ reference ∷ ys)))
      × (insert depth p cuts a op (some reference) after
          ≡ some (in_order (xs ++ reference ∷ op ∷ ys)))
unfolding insert explicit_sequence_number
insert-placed depth p cuts a op reference xs ys c split compute fresh =
    let d = subst Distinct split c.once in
    let fresh' = subst (λ l. mem op l ≡ false) split fresh in
    let whole = IsConsistent-in_order a (xs ++ reference ∷ ys) c split in
    let absent : mem reference xs ≡ false =
      ground (arith, mem-append reference xs ys, (Distinct-erase reference xs ys d).1) in
    let number : a.numbers reference ≡ some (length xs) =
      c.positions reference
      ∙ ap (index_from 0 reference) split
      ∙ index_from-here reference xs ys absent in
    (
      simp (compute, number, insert)
          (ap (λ b. some (insert_at b op (length xs))) whole
            ∙ ap some (insert_at-in_order op xs (reference ∷ ys) d fresh')),
      simp (compute, number, insert)
          (ap (λ b. some (insert_at b op (length xs + 1))) whole
            ∙ ap some (insert_at-after op reference xs ys d fresh')),
    )

-- For two compute operations `IsBefore` says whether the first one stands before the second one.
pub is_before-position :
    (depth : ℕ) (p : Program) (cuts : List ℕ) (a : SequenceAnalysis) (first second : ℕ)
    (xs ys : List ℕ)
    → IsConsistent a
    → a.compute_ops ≡ xs ++ second ∷ ys
    → p.is_compute second ≡ true
    → mem first a.compute_ops ≡ true
    → is_before depth p cuts a first second ≡ some (mem first xs)
unfolding is_before explicit_sequence_number
is_before-position depth p cuts a first second xs ys c split compute listed =
    let d = subst Distinct split c.once in
    let absent : mem second xs ≡ false =
      ground (arith, mem-append second xs ys, (Distinct-erase second xs ys d).1) in
    let number : a.numbers second ≡ some (length xs) =
      c.positions second ∙ ap (index_from 0 second) split ∙ index_from-here second xs ys absent in
    let (k, at_k) = index_from-mem 0 first a.compute_ops listed in
    let first_number : a.numbers first ≡ some k = c.positions first ∙ at_k in
    elim (Bool-cases (first == second)) [
      | inl e ↦
          simp (e, is_before)
            (ap some (sym (ap (λ x. mem x xs) ((==_iff first second).0 e) ∙ absent)))
      | inr ne ↦
          simp (ne, first_number, compute, number, is_before)
            (ap some
              (position-ltb first k xs (second ∷ ys) (ap (index_from 0 first) (sym split) ∙ at_k)))
    ]
