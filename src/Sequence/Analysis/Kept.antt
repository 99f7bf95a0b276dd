-- ===== src/Sequence/Analysis/Kept.antt =====
-- `SequenceAnalysis::Create`, `Insert` and `Erase` on consistent analyses.
use structured_additive_ir.Common.{
  ℕ, ◌≤◌, ◌≡◌, refl, sym, ap, ap₂, ◌∙◌, subst, false, none, some, ◌∷◌, ◌++◌, mem, Distinct, length,
}
use structured_additive_ir.Sequence.Program.{Program}
use structured_additive_ir.Sequence.Default.{
  Fuel, Sequenced, sequenced, failure, unfinished_sequence, compute_default_sequence,
}
use structured_additive_ir.Sequence.Default.Ordered.{compute_default_sequence_complete}
use structured_additive_ir.Sequence.Analysis.{
  SequenceAnalysis, assign_numbers, create, insert_at, erase,
}
use structured_additive_ir.Sequence.Analysis.Edits.{
  IsConsistent-in_order, insert_at-in_order, erase-in_order, in_order-IsConsistent, or_else-none,
}
use structured_additive_ir.Sequence.Analysis.Positions.{
  index_from, IsConsistent, assign_numbers-eq, split_at, Distinct-insert,
}

-- In the analysis that `Create` gives, each operation is held once and its number is its position.
pub create-IsConsistent :
    (fuel : Fuel) (p : Program) (a : SequenceAnalysis) → create fuel p ≡ some a → IsConsistent a
unfolding create
create-IsConsistent fuel p a h = created (compute_default_sequence fuel p) refl h
  where
    created :
        (s : Sequenced)
        → compute_default_sequence fuel p ≡ s
        → elim s [
          | sequenced ops ↦
              some (record { compute_ops = ops; numbers = assign_numbers ops 0 (λ _. none) })
          | failure _ ↦ none
          | unfinished_sequence ↦ none
        ]
          ≡ some a
        → IsConsistent a
    created (sequenced ops) e h =
        let once = (compute_default_sequence_complete fuel p ops e).1 in
        let same : record { compute_ops = ops; numbers = assign_numbers ops 0 (λ _. none) } ≡ a =
          cc in
        subst IsConsistent same (record {
          once = once;
          positions =
              λ q. assign_numbers-eq ops 0 (λ _. none) q once ∙ or_else-none (index_from 0 q ops);
        })
    created (failure cycle) e h = cc
    created unfinished_sequence e h = cc

-- `Insert` at a position of a consistent analysis keeps it consistent.
pub insert_at-IsConsistent :
    (a : SequenceAnalysis) (op n : ℕ)
    → IsConsistent a
    → mem op a.compute_ops ≡ false
    → n ≤ length a.compute_ops
    → IsConsistent (insert_at a op n)
insert_at-IsConsistent a op n c fresh le =
    let (xs, ys, split, at_n) = split_at n a.compute_ops le in
    let d = subst Distinct split c.once in
    let fresh' = subst (λ l. mem op l ≡ false) split fresh in
    let result =
      ap₂ (λ b k. insert_at b op k) (IsConsistent-in_order a (xs ++ ys) c split) at_n
      ∙ insert_at-in_order op xs ys d fresh' in
    subst IsConsistent (sym result)
      (in_order-IsConsistent (xs ++ op ∷ ys) (Distinct-insert op xs ys d fresh'))

-- `Erase` of an operation that was inserted gives the analysis back.
pub erase-insert_at :
    (a : SequenceAnalysis) (op n : ℕ)
    → IsConsistent a
    → mem op a.compute_ops ≡ false
    → n ≤ length a.compute_ops
    → erase (insert_at a op n) op ≡ some a
erase-insert_at a op n c fresh le =
    let (xs, ys, split, at_n) = split_at n a.compute_ops le in
    let d = subst Distinct split c.once in
    let fresh' = subst (λ l. mem op l ≡ false) split fresh in
    let whole = IsConsistent-in_order a (xs ++ ys) c split in
    let result = ap₂ (λ b k. insert_at b op k) whole at_n ∙ insert_at-in_order op xs ys d fresh' in
    ap (λ b. erase b op) result
    ∙ erase-in_order op xs ys (Distinct-insert op xs ys d fresh')
    ∙ ap some (sym whole)
