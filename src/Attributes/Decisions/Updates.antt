-- ===== src/Attributes/Decisions/Updates.antt =====
-- The functions that make decisions from others: `MapLoopNest`, `MapStorage`, `UpdateSequence`,
-- `UpdateOperands` and `EraseOperand`, with what they make of arrays.
pub mod Erase
use structured_additive_ir.Common.{
  ℕ, ℤ, ◌+◌, Bool, Option, none, some, List, [], ◌∷◌, ◌++◌, if◌then◌else◌, ltb, length, take, drop,
  replicate, ◌>>=◌, map_option,
}
use structured_additive_ir.Attributes.Interface.{MlirAttributes}
use structured_additive_ir.Attributes.Decisions.{
  Decisions, get, decisions_of, sequence, loop_nest, storage, expansion, copy_of, operands,
}

-- `none` is a failed assert or a null dereference, `some none` the null attribute.
module _ (M : MlirAttributes) where
  unfoldable pub map_loop_nest :
      (Option (List M.Attribute) → Option (List M.Attribute))
      → Option M.Attribute
      → Option (Option M.Attribute)
  unfolding get decisions_of
  map_loop_nest loop_nest_fn none = some none
  map_loop_nest loop_nest_fn (some decisions) =
      decisions_of M decisions >>= λ d. get M (record d { loop_nest = loop_nest_fn d.loop_nest })

  unfoldable pub map_storage :
      (Option (List M.Attribute) → Option (List M.Attribute))
      → Option M.Attribute
      → Option (Option M.Attribute)
  unfolding get decisions_of
  map_storage storage_fn none = some none
  map_storage storage_fn (some decisions) =
      decisions_of M decisions >>= λ d. get M (record d { storage = storage_fn d.storage })

  unfoldable pub update_sequence : M.Attribute → ℤ → Option (Option M.Attribute)
  unfolding get decisions_of
  update_sequence decisions new_sequence = decisions_of M decisions >>= λ d.
      get M (record d { sequence = some (M.i64_attr new_sequence) })

  unfoldable pub update_operands : M.Attribute → List M.Attribute → Option (Option M.Attribute)
  unfolding get decisions_of
  update_operands decisions operands =
      decisions_of M decisions >>= λ d. get M (record d { operands = some operands })

  unfoldable pub get_instance_zero_operands : ℕ → List M.Attribute
  get_instance_zero_operands num_operands = replicate num_operands (M.instance 0)

  -- The array of the one instance.
  unfoldable pub get_instance_zero_operands_single_instance : ℕ → Option (List (Option M.Attribute))
  unfolding get get_instance_zero_operands
  get_instance_zero_operands_single_instance num_operands =
      map_option (λ decisions. decisions ∷ [])
        (get M (record {
          sequence = none;
          loop_nest = none;
          storage = none;
          expansion = none;
          copy_of = none;
          operands = some (get_instance_zero_operands num_operands);
        }))

  unfoldable pub erase_operand_from_array :
      Option (List M.Attribute) → ℕ → Option (Option (List M.Attribute))
  erase_operand_from_array none operand = some none
  erase_operand_from_array (some old_operands) operand =
      if ltb operand (length old_operands)
      then some (some (take operand old_operands ++ drop (operand + 1) old_operands))
      else none

  unfoldable pub erase_operand : M.Attribute → ℕ → Option (Option M.Attribute)
  unfolding get decisions_of erase_operand_from_array
  erase_operand decisions operand = decisions_of M decisions >>= λ d.
      erase_operand_from_array d.operands operand >>= λ operands.
      get M (record d { operands = operands })

  unfoldable pub erase_operand_from_all : List M.Attribute → ℕ → Option (List (Option M.Attribute))
  unfolding erase_operand
  erase_operand_from_all [] operand = some []
  erase_operand_from_all (decisions ∷ rest) operand =
      let later = erase_operand_from_all rest operand in
      erase_operand decisions operand >>= λ erased. map_option (λ all. erased ∷ all) later

  unfoldable pub erase_operand_from_decisions :
      Option (List M.Attribute) → ℕ → Option (Option (List (Option M.Attribute)))
  unfolding erase_operand_from_all
  erase_operand_from_decisions none operand = some none
  erase_operand_from_decisions (some decisions) operand =
      map_option some (erase_operand_from_all decisions operand)
