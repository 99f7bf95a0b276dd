-- ===== src/Sequence/Analysis.antt =====
-- `SequenceAnalysis` and `ProgramPoint` of sequence.cc, without `AssignInferred`, which writes
-- attributes.
pub mod Positions
pub mod Edits
pub mod Kept
pub mod Orders
pub mod Points
use structured_additive_ir.Common.{
  ℕ, zero, suc, ◌+◌, ◌-◌, max, min, Bool, true, false, Option, none, some, List, [], ◌∷◌, ◌++◌,
  ◌==◌, ltb, leb, if◌then◌else◌, ◌>>=◌, map_option, length, take, drop, get_elem?,
}
use structured_additive_ir.Sequence.Program.{Program, compute_op_frontier}
use structured_additive_ir.Sequence.Default.{
  Fuel, sequenced, failure, unfinished_sequence, compute_default_sequence,
}

pub data Direction : Type 0 where
  before : Direction
  after : Direction

-- An operation or, where there is none, the whole program; loops are named by numbers.
pub record ProgramPoint : Type 0 where
  pub operation : Option ℕ
  pub direction : Direction
  pub loop_nest : List ℕ

abbrev pub common_prefix : List ℕ → List ℕ → ℕ
common_prefix [] ys = 0
common_prefix (x ∷ xs) [] = 0
common_prefix (x ∷ xs) (y ∷ ys) = let rest = common_prefix xs ys in if x == y then suc rest else 0

unfoldable pub num_common_loops : ProgramPoint → ProgramPoint → ℕ
num_common_loops point other = common_prefix point.loop_nest other.loop_nest

unfoldable pub trim_loop_nest : ProgramPoint → ℕ → ProgramPoint
trim_loop_nest point num_loops = record point { loop_nest = take num_loops point.loop_nest }

-- `numbers` is `op_to_sequence_number_`.
pub record SequenceAnalysis : Type 0 where
  pub compute_ops : List ℕ
  pub numbers : ℕ → Option ℕ

-- The loops that give consecutive numbers to operations: `op_to_sequence_number_[op] = number`.
unfoldable pub assign_numbers : List ℕ → ℕ → (ℕ → Option ℕ) → ℕ → Option ℕ
assign_numbers [] number numbers = numbers
assign_numbers (op ∷ ops) number numbers =
    assign_numbers ops (number + 1) (λ o. if o == op then some number else numbers o)

-- `Create`: `none` where the analysis cannot be performed.
unfoldable pub create : Fuel → Program → Option SequenceAnalysis
unfolding assign_numbers compute_default_sequence
create fuel p = elim (compute_default_sequence fuel p) [
  | sequenced ops ↦ some (record { compute_ops = ops; numbers = assign_numbers ops 0 (λ _. none) })
  | failure _ ↦ none
  | unfinished_sequence ↦ none
]

-- `none` where the assert fails.
unfoldable pub explicit_sequence_number : SequenceAnalysis → ℕ → Option ℕ
explicit_sequence_number a op = a.numbers op

-- The greatest number of the operations. The inner `none` is -1.
unfoldable pub last_number : SequenceAnalysis → List ℕ → Option ℕ → Option (Option ℕ)
unfolding explicit_sequence_number
last_number a [] number = some number
last_number a (op ∷ ops) number = explicit_sequence_number a op >>= λ sequence.
    last_number a ops (some (elim number [ none ↦ sequence | some n ↦ max n sequence ]))

unfoldable pub implicit_sequence_number :
    ℕ → Program → List ℕ → SequenceAnalysis → ℕ → Option (Option ℕ)
unfolding last_number compute_op_frontier
implicit_sequence_number depth p cuts a op =
    compute_op_frontier depth p cuts op >>= λ frontier. last_number a frontier none

unfoldable pub is_before : ℕ → Program → List ℕ → SequenceAnalysis → ℕ → ℕ → Option Bool
unfolding explicit_sequence_number implicit_sequence_number
is_before depth p cuts a first second =
    if first == second
    then some false
    else (explicit_sequence_number a first >>= λ first_number.
        if p.is_compute second
        then map_option (λ second_number. ltb first_number second_number)
            (explicit_sequence_number a second)
        else map_option
            (λ number. elim number [
              | none ↦ false
              | some second_number ↦ leb first_number second_number
            ])
            (implicit_sequence_number depth p cuts a second))

-- The number of a reference operation; the inner `none` is -1.
unfoldable pub reference_number :
    ℕ → Program → List ℕ → SequenceAnalysis → Option ℕ → Option (Option ℕ)
unfolding explicit_sequence_number implicit_sequence_number
reference_number depth p cuts a none = some none
reference_number depth p cuts a (some reference) =
    if p.is_compute reference
    then map_option (λ number. some number) (explicit_sequence_number a reference)
    else implicit_sequence_number depth p cuts a reference

-- Where `Insert` puts an operation.
abbrev pub insertion_number : Option ℕ → Direction → SequenceAnalysis → ℕ
insertion_number none before a = 0
insertion_number none after a = length a.compute_ops
insertion_number (some number) before a = number
insertion_number (some number) after a = number + 1

-- `try_emplace` does not change the number of an operation that has one.
unfoldable pub insert_at : SequenceAnalysis → ℕ → ℕ → SequenceAnalysis
unfolding assign_numbers
insert_at a op sequence_number =
    let later = drop sequence_number a.compute_ops in
    let renumbered = assign_numbers later (sequence_number + 1) a.numbers in
    record {
      compute_ops = take sequence_number a.compute_ops ++ op ∷ later;
      numbers = λ o. elim (renumbered o) [
        | some number ↦ some number
        | none ↦ if o == op then some sequence_number else none
      ];
    }

unfoldable pub insert :
    ℕ → Program → List ℕ → SequenceAnalysis → ℕ → Option ℕ → Direction → Option SequenceAnalysis
unfolding reference_number insert_at
insert depth p cuts a op reference direction =
    map_option (λ number. insert_at a op (insertion_number number direction a))
      (reference_number depth p cuts a reference)

unfoldable pub erase : SequenceAnalysis → ℕ → Option SequenceAnalysis
unfolding explicit_sequence_number assign_numbers
erase a op =
    map_option
      (λ sequence_number.
        let later = drop (sequence_number + 1) a.compute_ops in
        let renumbered = assign_numbers later sequence_number a.numbers in
        record {
          compute_ops = take sequence_number a.compute_ops ++ later;
          numbers = λ o. if o == op then none else renumbered o;
        })
      (explicit_sequence_number a op)

-- `PrevOp` and `NextOp`; the inner `none` is the null operation.
unfoldable pub prev_op : SequenceAnalysis → ℕ → Option (Option ℕ)
unfolding explicit_sequence_number
prev_op a op =
    map_option (λ number. if number == 0 then none else get_elem? a.compute_ops (number - 1))
      (explicit_sequence_number a op)

unfoldable pub next_op : SequenceAnalysis → ℕ → Option (Option ℕ)
unfolding explicit_sequence_number
next_op a op =
    map_option
      (λ number.
        if number == length a.compute_ops - 1 then none else get_elem? a.compute_ops (number + 1))
      (explicit_sequence_number a op)
