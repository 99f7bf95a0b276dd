-- ===== src/Attributes/Buffer.antt =====
-- `BufferAttr`.
use structured_additive_ir.Common.{
  ℕ, ◌+◌, ◌≡◌, refl, Bool, true, false, not, Option, none, some, List, [], ◌∷◌, ◌==◌, ==_iff,
  if◌then◌else◌, arith, ◌>>=◌, map_option, is_some, Distinct,
}
use structured_additive_ir.Mapping.Named.{NamedMapping}
use structured_additive_ir.Attributes.Interface.{
  MlirAttributes, keys, fields_of, absent, isa_and_nonnull, absent_or_isa, cast_optional, get-slots,
  num_fields-slots,
}

abbrev pub space_id : ℕ
space_id = 0

abbrev pub name_id : ℕ
name_id = 1

abbrev pub layout_id : ℕ
layout_id = 2

module _ (M : MlirAttributes) where
  unfoldable pub classof : Option M.Attribute → Bool
  classof none = false
  classof (some attr) = elim (M.as_dictionary attr) [
    | none ↦ false
    | some derived ↦
        if not (isa_and_nonnull (λ a. is_some (M.as_string a)) (M.get derived space_id))
        then false
        else if not (absent_or_isa (λ a. is_some (M.as_string a)) (M.get derived name_id))
        then false
        else if not (absent_or_isa (λ a. is_some (M.as_named_mapping a)) (M.get derived layout_id))
        then false
        else M.num_fields derived
            + (absent (M.get derived name_id) + absent (M.get derived layout_id))
          == 3
  ]

  abbrev pub slots : ℕ → Option ℕ → Option NamedMapping → List (ℕ × Option M.Attribute)
  slots space name layout =
      (space_id, some (M.of_string space))
      ∷ (name_id, map_option M.of_string name)
      ∷ (layout_id, map_option M.of_named_mapping layout)
      ∷ []

  abbrev pub dictionary : ℕ → Option ℕ → Option NamedMapping → M.Attribute
  dictionary space name layout = M.of_dictionary (M.make (fields_of (slots space name layout)))

  -- `none` where the cast to `BufferAttr` fails.
  unfoldable pub get : ℕ → Option ℕ → Option NamedMapping → Option M.Attribute
  unfolding classof fields_of
  get space name layout =
      let dict = dictionary space name layout in if classof (some dict) then some dict else none

  -- The accessors; `none` where an assert fails.
  unfoldable pub space : M.Attribute → Option ℕ
  space attr = M.as_dictionary attr >>= λ derived. M.get derived space_id >>= M.as_string

  unfoldable pub name : M.Attribute → Option (Option ℕ)
  name attr = M.as_dictionary attr >>= λ derived. cast_optional M.as_string (M.get derived name_id)

  unfoldable pub layout : M.Attribute → Option (Option NamedMapping)
  layout attr =
      M.as_dictionary attr >>= λ derived. cast_optional M.as_named_mapping (M.get derived layout_id)

  cast_optional-string :
      (n : Option ℕ) → cast_optional M.as_string (map_option M.of_string n) ≡ some n
  cast_optional-string none = refl
  cast_optional-string (some s) = rw (M.string_cast s) refl

  cast_optional-layout :
      (m : Option NamedMapping)
      → cast_optional M.as_named_mapping (map_option M.of_named_mapping m) ≡ some m
  cast_optional-layout none = refl
  cast_optional-layout (some m) = rw (M.named_mapping_cast m) refl

  absent_or_isa-string :
      (n : Option ℕ)
      → absent_or_isa (λ a. is_some (M.as_string a)) (map_option M.of_string n) ≡ true
  absent_or_isa-string none = refl
  absent_or_isa-string (some s) = rw (M.string_cast s) refl

  absent_or_isa-layout :
      (m : Option NamedMapping)
      → absent_or_isa (λ a. is_some (M.as_named_mapping a)) (map_option M.of_named_mapping m) ≡ true
  absent_or_isa-layout none = refl
  absent_or_isa-layout (some m) = rw (M.named_mapping_cast m) refl

  module _ (s : ℕ) (n : Option ℕ) (l : Option NamedMapping) where
    slots-Distinct : Distinct (keys (slots s n l))
    slots-Distinct = (refl, (refl, (refl, tt)))

    at_space : M.get (M.make (fields_of (slots s n l))) space_id ≡ some (M.of_string s)
    at_space = get-slots M (slots s n l) slots-Distinct space_id

    at_name : M.get (M.make (fields_of (slots s n l))) name_id ≡ map_option M.of_string n
    at_name = get-slots M (slots s n l) slots-Distinct name_id

    at_layout : M.get (M.make (fields_of (slots s n l))) layout_id ≡ map_option M.of_named_mapping l
    at_layout = get-slots M (slots s n l) slots-Distinct layout_id

    count :
        (M.num_fields (M.make (fields_of (slots s n l)))
            + (absent (map_option M.of_string n) + absent (map_option M.of_named_mapping l))
          == 3)
        ≡ true
    count =
        let c = num_fields-slots M (slots s n l) slots-Distinct in (==_iff _ 3).1 (omega (arith, c))

    classof-dictionary : classof (some (dictionary s n l)) ≡ true
    unfolding classof
    classof-dictionary =
        simp
          (
            M.dictionary_cast (M.make (fields_of (slots s n l))),
            at_space,
            at_name,
            at_layout,
            M.string_cast s,
            absent_or_isa-string n,
            absent_or_isa-layout l,
            count,
            classof,
          )
          refl

    space-dictionary : space (dictionary s n l) ≡ some s
    unfolding space
    space-dictionary =
        rw (M.dictionary_cast (M.make (fields_of (slots s n l))), at_space, M.string_cast s, space)
          refl

    name-dictionary : name (dictionary s n l) ≡ some n
    unfolding name
    name-dictionary =
        rw (M.dictionary_cast (M.make (fields_of (slots s n l))), at_name, name)
          (cast_optional-string n)

    layout-dictionary : layout (dictionary s n l) ≡ some l
    unfolding layout
    layout-dictionary =
        rw (M.dictionary_cast (M.make (fields_of (slots s n l))), at_layout, layout)
          (cast_optional-layout l)

    -- The attribute that `get` makes is not null, and its accessors give the arguments back.
    pub get-accessors :
        (attr : M.Attribute) × (get s n l ≡ some attr)
        × (classof (some attr) ≡ true)
        × (space attr ≡ some s)
        × (name attr ≡ some n)
        × (layout attr ≡ some l)
    unfolding get
    get-accessors = (
      dictionary s n l,
      rw (classof-dictionary, get) refl,
      classof-dictionary,
      space-dictionary,
      name-dictionary,
      layout-dictionary,
    )
