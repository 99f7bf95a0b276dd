-- ===== src/Attributes/Decisions.antt =====
-- `DecisionsAttr`.
pub mod RoundTrip
pub mod Updates
use structured_additive_ir.Common.{
  ℕ, ◌+◌, Bool, true, false, not, ◌&&◌, Option, none, some, List, [], ◌∷◌, ◌==◌, if◌then◌else◌,
  ◌>>=◌, map_option, is_some,
}
use structured_additive_ir.Attributes.Loop
use structured_additive_ir.Attributes.Interface.{
  MlirAttributes, fields_of, absent, absent_or_isa, cast_optional, all,
}

abbrev pub sequence_id : ℕ
sequence_id = 0

abbrev pub loop_nest_id : ℕ
loop_nest_id = 1

abbrev pub storage_id : ℕ
storage_id = 2

abbrev pub expansion_id : ℕ
expansion_id = 3

abbrev pub copy_of_id : ℕ
copy_of_id = 4

abbrev pub operands_id : ℕ
operands_id = 5

-- The arguments of `DecisionsAttr::get`; `none` is null.
pub record Decisions (M : MlirAttributes) : Type 0 where
  pub sequence : Option M.Integer
  pub loop_nest : Option (List M.Attribute)
  pub storage : Option (List M.Attribute)
  pub expansion : Option ℕ
  pub copy_of : Option M.Attribute
  pub operands : Option (List M.Attribute)

module _ (M : MlirAttributes) where
  abbrev pub is_sequence : M.Attribute → Bool
  is_sequence attr = elim (M.as_integer attr) [ none ↦ false | some i ↦ M.is_signless_64 i ]

  abbrev pub is_loop_nest : M.Attribute → Bool
  is_loop_nest attr = elim (M.as_array attr) [
    | none ↦ false
    | some loops ↦ all (λ l. Loop.classof M (some l)) loops
  ]

  abbrev pub is_array : M.Attribute → Bool
  is_array attr = is_some (M.as_array attr)

  abbrev pub is_string : M.Attribute → Bool
  is_string attr = is_some (M.as_string attr)

  -- The test on the operands; `none` where the code iterates over the null array.
  abbrev pub operands_test : Option M.Attribute → Option Bool
  operands_test none = some true
  operands_test (some attr) = elim (M.as_array attr) [
    | none ↦ none
    | some operands ↦ some (all M.is_instance_ref operands)
  ]

  abbrev pub num_absent_attrs : M.Dictionary → ℕ
  num_absent_attrs derived =
      absent (M.get derived sequence_id)
      + (absent (M.get derived loop_nest_id)
          + (absent (M.get derived storage_id)
              + (absent (M.get derived expansion_id)
                  + (absent (M.get derived copy_of_id) + absent (M.get derived operands_id)))))

  abbrev pub classof_dictionary : M.Dictionary → Option Bool
  classof_dictionary derived =
      if not (absent_or_isa is_sequence (M.get derived sequence_id))
      then some false
      else if not (absent_or_isa is_loop_nest (M.get derived loop_nest_id))
      then some false
      else if not (absent_or_isa is_array (M.get derived storage_id))
      then some false
      else if not (absent_or_isa is_string (M.get derived expansion_id))
      then some false
      else if not (absent_or_isa M.is_instance_ref (M.get derived copy_of_id))
      then some false
      else map_option (λ passes. passes && (M.num_fields derived + num_absent_attrs derived == 6))
          (operands_test (M.get derived operands_id))

  -- `none` where the code dereferences null.
  unfoldable pub classof : Option M.Attribute → Option Bool
  unfolding Loop.classof
  classof none = some false
  classof (some attr) = elim (M.as_dictionary attr) [
    | none ↦ some false
    | some derived ↦ classof_dictionary derived
  ]

  abbrev pub slots : Decisions M → List (ℕ × Option M.Attribute)
  slots d =
      (sequence_id, map_option M.of_integer d.sequence)
      ∷ (loop_nest_id, map_option M.of_array d.loop_nest)
      ∷ (storage_id, map_option M.of_array d.storage)
      ∷ (expansion_id, map_option M.of_string d.expansion)
      ∷ (copy_of_id, d.copy_of)
      ∷ (operands_id, map_option M.of_array d.operands)
      ∷ []

  abbrev pub dictionary : Decisions M → M.Attribute
  dictionary d = M.of_dictionary (M.make (fields_of (slots d)))

  -- `none` where the code dereferences null, `some none` where the cast to `DecisionsAttr` fails.
  unfoldable pub get : Decisions M → Option (Option M.Attribute)
  unfolding classof fields_of
  get d =
      map_option (λ is_decisions. if is_decisions then some (dictionary d) else none)
        (classof (some (dictionary d)))

  -- The accessors; `none` where an assert fails.
  unfoldable pub sequence : M.Attribute → Option (Option M.Integer)
  sequence attr =
      M.as_dictionary attr >>= λ derived. cast_optional M.as_integer (M.get derived sequence_id)

  unfoldable pub loop_nest : M.Attribute → Option (Option (List M.Attribute))
  loop_nest attr =
      M.as_dictionary attr >>= λ derived. cast_optional M.as_array (M.get derived loop_nest_id)

  unfoldable pub storage : M.Attribute → Option (Option (List M.Attribute))
  storage attr =
      M.as_dictionary attr >>= λ derived. cast_optional M.as_array (M.get derived storage_id)

  unfoldable pub expansion : M.Attribute → Option (Option ℕ)
  expansion attr =
      M.as_dictionary attr >>= λ derived. cast_optional M.as_string (M.get derived expansion_id)

  unfoldable pub copy_of : M.Attribute → Option (Option M.Attribute)
  copy_of attr = M.as_dictionary attr >>= λ derived. some (M.get derived copy_of_id)

  unfoldable pub operands : M.Attribute → Option (Option (List M.Attribute))
  operands attr =
      M.as_dictionary attr >>= λ derived. cast_optional M.as_array (M.get derived operands_id)

  -- All the accessors.
  unfoldable pub decisions_of : M.Attribute → Option (Decisions M)
  unfolding sequence loop_nest storage expansion copy_of operands
  decisions_of attr = sequence attr >>= λ sequence. loop_nest attr >>= λ loop_nest.
      storage attr >>= λ storage. expansion attr >>= λ expansion. copy_of attr >>= λ copy_of.
      operands attr >>= λ operands. some (record {
        sequence = sequence;
        loop_nest = loop_nest;
        storage = storage;
        expansion = expansion;
        copy_of = copy_of;
        operands = operands;
      })
