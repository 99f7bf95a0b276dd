-- ===== src/Loops/State.antt =====
-- `LoopNestState` and the loop of `VerifyLoopNests` over the operations in their sequence.
pub mod Keeps
pub mod Tree
pub mod Opened
use structured_additive_ir.Common.{
  ℕ, Bool, true, false, ◌&&◌, ◌||◌, Option, none, some, List, [], ◌∷◌, ◌++◌, if◌then◌else◌, mem,
  ◌>>=◌, take, drop,
}
use structured_additive_ir.Sequence.Analysis.{common_prefix}

-- Loops are named by numbers. The set of closed loops is a list.
pub record LoopNestState : Type 0 where
  pub open_loops : List ℕ
  pub closed_loops : List ℕ

abbrev pub initial_state : LoopNestState
initial_state = record { open_loops = []; closed_loops = [] }

-- The loop of `CloseLoops` moves the innermost loops, all but the first ones.
unfoldable pub close_loops : ℕ → LoopNestState → LoopNestState
close_loops num_remaining_loops s = record {
  open_loops = take num_remaining_loops s.open_loops;
  closed_loops = drop num_remaining_loops s.open_loops ++ s.closed_loops;
}

-- The loop of `Update` that opens the remaining loops; `none` where a closed one occurs again.
unfoldable pub open_remaining : List ℕ → LoopNestState → Option LoopNestState
open_remaining [] s = some s
open_remaining (name ∷ names) s =
    let rest = open_remaining names (record s { open_loops = s.open_loops ++ name ∷ [] }) in
    if mem name s.closed_loops then none else rest

unfoldable pub update : List ℕ → LoopNestState → Option LoopNestState
unfolding close_loops open_remaining
update loop_nest s =
    let common_prefix_size = common_prefix loop_nest s.open_loops in
    open_remaining (drop common_prefix_size loop_nest) (close_loops common_prefix_size s)

-- `LoopNestState::VerifyLoopsOpen`.
unfoldable pub verify_loops_open : List ℕ → LoopNestState → Bool
verify_loops_open [] s = true
verify_loops_open (name ∷ names) s =
    (mem name s.open_loops || mem name s.closed_loops) && verify_loops_open names s

-- What the verification reads of an operation: its loop nest, if the decision is taken, whether
-- the ranges of its loops are defined, and the loops that its operands and domain need open.
pub record SequencedOp : Type 0 where
  pub loop_nest : Option (List ℕ)
  pub ranges_defined : Bool
  pub needs_open : List ℕ

unfoldable pub enter_loops : SequencedOp → LoopNestState → Option LoopNestState
unfolding update close_loops
enter_loops op s = elim op.loop_nest [
  | none ↦ some (close_loops 0 s)
  | some loop_nest ↦ update loop_nest s >>= λ next. if op.ranges_defined then some next else none
]

unfoldable pub verify_op : SequencedOp → LoopNestState → Option LoopNestState
unfolding enter_loops verify_loops_open
verify_op op s =
    enter_loops op s >>= λ next. if verify_loops_open op.needs_open next then some next else none

unfoldable pub verify_sequence : List SequencedOp → LoopNestState → Option LoopNestState
unfolding verify_op
verify_sequence [] s = some s
verify_sequence (op ∷ ops) s = verify_op op s >>= verify_sequence ops

-- The loops that an operation is nested in.
abbrev pub loops_of : SequencedOp → List ℕ
loops_of op = elim op.loop_nest [ none ↦ [] | some loop_nest ↦ loop_nest ]
