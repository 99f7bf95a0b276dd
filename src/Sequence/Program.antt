-- ===== src/Sequence/Program.antt =====
-- What the analysis reads of a Sair program, and `ComputeOpFrontier`.
pub mod Frontier
use structured_additive_ir.Common.{
  ℕ, ℤ, zero, suc, Bool, true, false, Option, none, some, List, [], ◌∷◌, ◌++◌, if◌then◌else◌, mem,
  ◌>>=◌, map_option, map,
}
use structured_additive_ir.Sequence.Graph.{set_vector_insert}

-- Operation instances are numbers; a value stands for the operation that defines it.
-- `operands` holds the operands of an instance, `none` for one whose value is not given.
-- `sequence` is the `int64_t` of the sequence attribute, which may be negative.
-- `fby` gives the `Init` and the `Value` operand of an instance that is a `sair.fby` and no copy.
pub record Program : Type 0 where
  pub ops : List ℕ
  pub compute_ops : List ℕ
  pub is_compute : ℕ → Bool
  pub domain : ℕ → List ℕ
  pub operands : ℕ → List (Option ℕ)
  pub fby : ℕ → Option (Option ℕ × Option ℕ)
  pub sequence : ℕ → Option ℤ

-- The operations that the frontier of `op` starts from: for an ignored `fby` the initial value
-- only, else all operands; then the dimensions of the domain.
unfoldable pub frontier_sources : Program → List ℕ → ℕ → List (Option ℕ)
frontier_sources p ignore op =
    (if mem op ignore
      then (elim (p.fby op) [ some (init, _) ↦ init ∷ [] | none ↦ [] ])
      else p.operands op)
    ++ map (λ d. some d) (p.domain op)

-- `frontier.insert(begin, end)`.
abbrev pub insert_all : List ℕ → List ℕ → List ℕ
insert_all [] frontier = frontier
insert_all (op ∷ ops) frontier = insert_all ops (set_vector_insert op frontier).0

-- `add_and_recurse` over a list of values; `recurse` is the recursive call.
unfoldable pub add_and_recurse :
    Program → (ℕ → Option (List ℕ)) → List (Option ℕ) → List ℕ → Option (List ℕ)
unfolding set_vector_insert
add_and_recurse p recurse [] frontier = some frontier
add_and_recurse p recurse (none ∷ values) frontier = add_and_recurse p recurse values frontier
add_and_recurse p recurse (some defining_op ∷ values) frontier =
    (if p.is_compute defining_op
      then some (set_vector_insert defining_op frontier).0
      else map_option (λ def_frontier. insert_all def_frontier frontier) (recurse defining_op))
    >>= add_and_recurse p recurse values

-- `none` where the fuel runs out.
unfoldable pub compute_op_frontier : ℕ → Program → List ℕ → ℕ → Option (List ℕ)
unfolding add_and_recurse frontier_sources
compute_op_frontier zero p ignore op = none
compute_op_frontier (suc fuel) p ignore op =
    add_and_recurse p (compute_op_frontier fuel p ignore) (frontier_sources p ignore op) []
