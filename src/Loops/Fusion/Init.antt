-- ===== src/Loops/Fusion/Init.antt =====
-- The order in which `LoopFusionAnalysis::Init` registers loops, and `Init` up to the trimming of
-- dependencies.
use structured_additive_ir.Common.{
  ℕ, zero, suc, ◌+◌, Bool, true, false, not, ◌&&◌, Option, none, some, List, [], ◌∷◌, ◌++◌, length,
  leb, if◌then◌else◌, ◌>>=◌, map_option,
}
use structured_additive_ir.Mapping.Attr.{has_none_exprs}
use structured_additive_ir.Loops.Fusion.{
  ComputeOp, LoopFusionClass, Registered, registered, rejected, undefined_behaviour, register_all,
}

-- The last of the list is put in front.
abbrev pub put_front : ComputeOp → List ComputeOp → List ComputeOp
put_front x [] = x ∷ []
put_front x (z ∷ zs) = z ∷ x ∷ zs

-- `work_list[i] = work_list.back(); work_list.pop_back();`, for the list behind position `i`.
abbrev pub move_back : List ComputeOp → List ComputeOp
move_back [] = []
move_back (x ∷ []) = x ∷ []
move_back (x ∷ y ∷ ys) = put_front x (move_back (y ∷ ys))

-- The loop over the work list at one level: the registrations and what is left of the list.
unfoldable pub level_pass : ℕ → ℕ → List ComputeOp → Option (List (ComputeOp × ℕ) × List ComputeOp)
level_pass fuel level [] = some ([], [])
level_pass zero level (op ∷ rest) = none
level_pass (suc fuel) level (op ∷ rest) = elim (leb (length op.loops) level) [
  | true ↦ level_pass fuel level (move_back rest)
  | false ↦
      map_option (λ (regs, kept). ((op, level) ∷ regs, op ∷ kept)) (level_pass fuel level rest)
]

-- The loop over the levels.
unfoldable pub registrations : ℕ → ℕ → List ComputeOp → Option (List (ComputeOp × ℕ))
unfolding level_pass
registrations fuel level [] = some []
registrations zero level (op ∷ ops) = none
registrations (suc fuel) level (op ∷ ops) =
    level_pass (length (op ∷ ops)) level (op ∷ ops) >>= λ (regs, kept).
    map_option (λ later. regs ++ later) (registrations fuel (level + 1) kept)

abbrev pub all_specified : List LoopFusionClass → Bool
all_specified [] = true
all_specified (c ∷ cs) = not (has_none_exprs c.mapped.mapping) && all_specified cs

module _ (is_placeholder_op : ℕ → Bool) (is_before : ℕ → ℕ → Bool) where
  -- `Init` up to the trimming of dependencies. `none` when out of fuel.
  unfoldable pub init : ℕ → List ComputeOp → Option Registered
  unfolding registrations register_all
  init fuel ops =
      map_option
        (λ regs. elim (register_all is_placeholder_op is_before regs []) [
          | registered classes ↦ if all_specified classes then registered classes else rejected
          | rejected ↦ rejected
          | undefined_behaviour ↦ undefined_behaviour
        ])
        (registrations fuel 0 ops)
