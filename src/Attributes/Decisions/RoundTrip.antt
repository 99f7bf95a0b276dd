-- ===== src/Attributes/Decisions/RoundTrip.antt =====
-- What `DecisionsAttr::get` makes.
use structured_additive_ir.Common.{
  ℕ, ◌+◌, ◌≡◌, refl, Bool, true, false, not, ◌&&◌, Option, none, some, List, ◌==◌, ==_iff,
  if◌then◌else◌, arith, map_option, Distinct,
}
use structured_additive_ir.Attributes.Loop
use structured_additive_ir.Attributes.Interface.{
  MlirAttributes, keys, slot, fields_of, absent_or_isa, cast_optional, all, get-slots,
  num_fields-slots,
}
use structured_additive_ir.Attributes.Decisions
use structured_additive_ir.Attributes.Decisions.{
  Decisions as DecisionsRecord, sequence_id, loop_nest_id, storage_id, expansion_id, copy_of_id,
  operands_id, is_sequence, is_loop_nest, is_array, is_string, operands_test, num_absent_attrs,
  classof_dictionary, slots, dictionary, decisions_of,
}

module _ (M : MlirAttributes) where
  -- The decisions that the casts accept: a 64-bit sequence number, a loop nest of loops, and copies
  -- and operands that refer to instances.
  abbrev pub is_decisions : DecisionsRecord M → Bool
  is_decisions d =
      absent_or_isa M.is_signless_64 d.sequence
      && (absent_or_isa (all (λ l. Loop.classof M (some l))) d.loop_nest
          && (absent_or_isa M.is_instance_ref d.copy_of
              && absent_or_isa (all M.is_instance_ref) d.operands))

  cast_optional-integer :
      (u : Option M.Integer) → cast_optional M.as_integer (map_option M.of_integer u) ≡ some u
  cast_optional-integer none = refl
  cast_optional-integer (some i) = rw (M.integer_cast i) refl

  cast_optional-string :
      (n : Option ℕ) → cast_optional M.as_string (map_option M.of_string n) ≡ some n
  cast_optional-string none = refl
  cast_optional-string (some s) = rw (M.string_cast s) refl

  cast_optional-array :
      (xs : Option (List M.Attribute))
      → cast_optional M.as_array (map_option M.of_array xs) ≡ some xs
  cast_optional-array none = refl
  cast_optional-array (some xs) = rw (M.array_cast xs) refl

  isa-sequence :
      (i : Option M.Integer)
      → absent_or_isa (is_sequence M) (map_option M.of_integer i) ≡ absent_or_isa M.is_signless_64 i
  isa-sequence none = refl
  isa-sequence (some i) = rw (M.integer_cast i, is_sequence) refl

  isa-loop_nest :
      (xs : Option (List M.Attribute))
      → absent_or_isa (is_loop_nest M) (map_option M.of_array xs)
        ≡ absent_or_isa (all (λ l. Loop.classof M (some l))) xs
  isa-loop_nest none = refl
  isa-loop_nest (some xs) = rw (M.array_cast xs, is_loop_nest) refl

  isa-array :
      (xs : Option (List M.Attribute))
      → absent_or_isa (is_array M) (map_option M.of_array xs) ≡ true
  isa-array none = refl
  isa-array (some xs) = rw (M.array_cast xs) refl

  isa-string : (n : Option ℕ) → absent_or_isa (is_string M) (map_option M.of_string n) ≡ true
  isa-string none = refl
  isa-string (some s) = rw (M.string_cast s) refl

  operands_test-array :
      (xs : Option (List M.Attribute))
      → operands_test M (map_option M.of_array xs) ≡ some (absent_or_isa (all M.is_instance_ref) xs)
  operands_test-array none = refl
  operands_test-array (some xs) = rw (M.array_cast xs) refl

  module _ (d : DecisionsRecord M) where
    slots-Distinct : Distinct (keys (slots M d))
    slots-Distinct = (refl, (refl, (refl, (refl, (refl, (refl, tt))))))

    at_key : (key : ℕ) → M.get (M.make (fields_of (slots M d))) key ≡ slot key (slots M d)
    at_key = get-slots M (slots M d) slots-Distinct

    cast : M.as_dictionary (dictionary M d) ≡ some (M.make (fields_of (slots M d)))
    cast = M.dictionary_cast (M.make (fields_of (slots M d)))

    count :
        (M.num_fields (M.make (fields_of (slots M d)))
            + num_absent_attrs M (M.make (fields_of (slots M d)))
          == 6)
        ≡ true
    count =
        let c = num_fields-slots M (slots M d) slots-Distinct in
        rw
          (
            at_key sequence_id,
            at_key loop_nest_id,
            at_key storage_id,
            at_key expansion_id,
            at_key copy_of_id,
            at_key operands_id,
          )
          ((==_iff _ 6).1 (omega (arith, c)))

    -- The chain of tests.
    chain :
        (in_sequence in_loop_nest in_copy_of in_operands : Bool)
        → (if not in_sequence
            then some false
            else if not in_loop_nest
            then some false
            else if not true
            then some false
            else if not true
            then some false
            else if not in_copy_of
            then some false
            else map_option (λ passes. passes && true) (some in_operands))
          ≡ some (in_sequence && (in_loop_nest && (in_copy_of && in_operands)))
    chain false b c e = refl
    chain true false c e = refl
    chain true true false e = refl
    chain true true true false = refl
    chain true true true true = refl

    classof-dictionary : Decisions.classof M (some (dictionary M d)) ≡ some (is_decisions d)
    unfolding Decisions.classof
    classof-dictionary =
        rw
          (
            cast,
            Decisions.classof,
            count,
            at_key sequence_id,
            at_key loop_nest_id,
            at_key storage_id,
            at_key expansion_id,
            at_key copy_of_id,
            at_key operands_id,
            isa-sequence d.sequence,
            isa-loop_nest d.loop_nest,
            isa-array d.storage,
            isa-string d.expansion,
            operands_test-array d.operands,
          )
          (chain (absent_or_isa M.is_signless_64 d.sequence)
            (absent_or_isa (all (λ l. Loop.classof M (some l))) d.loop_nest)
            (absent_or_isa M.is_instance_ref d.copy_of)
            (absent_or_isa (all M.is_instance_ref) d.operands))

    sequence-dictionary : Decisions.sequence M (dictionary M d) ≡ some d.sequence
    unfolding Decisions.sequence
    sequence-dictionary =
        rw (cast, at_key sequence_id, Decisions.sequence) (cast_optional-integer d.sequence)

    loop_nest-dictionary : Decisions.loop_nest M (dictionary M d) ≡ some d.loop_nest
    unfolding Decisions.loop_nest
    loop_nest-dictionary =
        rw (cast, at_key loop_nest_id, Decisions.loop_nest) (cast_optional-array d.loop_nest)

    storage-dictionary : Decisions.storage M (dictionary M d) ≡ some d.storage
    unfolding Decisions.storage
    storage-dictionary =
        rw (cast, at_key storage_id, Decisions.storage) (cast_optional-array d.storage)

    expansion-dictionary : Decisions.expansion M (dictionary M d) ≡ some d.expansion
    unfolding Decisions.expansion
    expansion-dictionary =
        rw (cast, at_key expansion_id, Decisions.expansion) (cast_optional-string d.expansion)

    copy_of-dictionary : Decisions.copy_of M (dictionary M d) ≡ some d.copy_of
    unfolding Decisions.copy_of
    copy_of-dictionary = rw (cast, at_key copy_of_id, Decisions.copy_of) refl

    operands-dictionary : Decisions.operands M (dictionary M d) ≡ some d.operands
    unfolding Decisions.operands
    operands-dictionary =
        rw (cast, at_key operands_id, Decisions.operands) (cast_optional-array d.operands)

    pub decisions_of-dictionary : decisions_of M (dictionary M d) ≡ some d
    unfolding decisions_of
    decisions_of-dictionary =
        rw
          (
            sequence-dictionary, loop_nest-dictionary, storage-dictionary, expansion-dictionary,
            copy_of-dictionary, operands-dictionary, decisions_of,
          )
          refl

    pub get-dictionary :
        Decisions.get M d ≡ some (if is_decisions d then some (dictionary M d) else none)
    unfolding Decisions.get
    get-dictionary = rw (classof-dictionary, Decisions.get) refl

    -- DecisionsAttr::get never dereferences null. It makes the dictionary exactly when the sequence
    -- number is a 64-bit integer, the loop nest has only loops, and the copy and the operands are
    -- references to instances; else its cast fails. The accessors of the dictionary give the
    -- arguments back.
    pub get-decisions_of :
        (Decisions.get M d ≡ some (if is_decisions d then some (dictionary M d) else none))
        × (decisions_of M (dictionary M d) ≡ some d)
    get-decisions_of = (get-dictionary, decisions_of-dictionary)
