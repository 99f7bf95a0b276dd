-- ===== src/Attributes/Interface.antt =====
-- What the code uses of the framework's attributes, with the laws that it relies on.
use structured_additive_ir.Common.{
  ◌&&◌, ℕ, ℤ, ◌+◌, ◌≡◌, refl, ap, ◌∙◌, Bool, true, false, Bool-cases, inl, inr, Option, none, some,
  List, [], ◌∷◌, ◌==◌, ==_iff, if◌then◌else◌, arith, length, mem, Distinct,
}
use structured_additive_ir.Mapping.Expr.{MappingExpr}
use structured_additive_ir.Mapping.Named.{NamedMapping}

-- A dictionary's fields: the names, which are numbers, and the values.
abbrev pub lookup_field {ℓ} : {A : Type ℓ} → ℕ → List (ℕ × A) → Option A
lookup_field key [] = none
lookup_field key ((k, a) ∷ fields) =
    let rest = lookup_field key fields in if key == k then some a else rest

abbrev pub keys {ℓ} : {A : Type ℓ} → List (ℕ × A) → List ℕ
keys [] = []
keys ((k, a) ∷ fields) = k ∷ keys fields

-- The casts give the value where the attribute has the kind. The laws say that a cast gives back
-- what the attribute was made of, and that a dictionary has the fields that it was made of, where
-- their names differ.
pub record MlirAttributes : Type 1 where
  pub Attribute : Type 0
  pub Integer : Type 0
  pub Dictionary : Type 0
  pub of_string : ℕ → Attribute
  pub as_string : Attribute → Option ℕ
  pub of_integer : Integer → Attribute
  pub as_integer : Attribute → Option Integer
  pub is_signless_64 : Integer → Bool
  pub is_strictly_positive : Integer → Bool
  pub i64_attr : ℤ → Integer
  pub of_array : List Attribute → Attribute
  pub as_array : Attribute → Option (List Attribute)
  pub of_mapping_expr : MappingExpr → Attribute
  pub as_mapping_expr : Attribute → Option MappingExpr
  pub of_named_mapping : NamedMapping → Attribute
  pub as_named_mapping : Attribute → Option NamedMapping
  -- A `CopyAttr`, `InstanceAttr` or unit attribute.
  pub is_instance_ref : Attribute → Bool
  pub instance : ℕ → Attribute
  pub of_dictionary : Dictionary → Attribute
  pub as_dictionary : Attribute → Option Dictionary
  pub make : List (ℕ × Attribute) → Dictionary
  pub get : Dictionary → ℕ → Option Attribute
  pub num_fields : Dictionary → ℕ
  pub string_cast : (s : ℕ) → as_string (of_string s) ≡ some s
  pub integer_cast : (i : Integer) → as_integer (of_integer i) ≡ some i
  pub array_cast : (xs : List Attribute) → as_array (of_array xs) ≡ some xs
  pub mapping_expr_cast : (e : MappingExpr) → as_mapping_expr (of_mapping_expr e) ≡ some e
  pub named_mapping_cast : (m : NamedMapping) → as_named_mapping (of_named_mapping m) ≡ some m
  pub dictionary_cast : (d : Dictionary) → as_dictionary (of_dictionary d) ≡ some d
  pub get-make :
      (fields : List (ℕ × Attribute)) (key : ℕ)
      → Distinct (keys fields)
      → get (make fields) key ≡ lookup_field key fields
  pub num_fields-make :
      (fields : List (ℕ × Attribute))
      → Distinct (keys fields)
      → num_fields (make fields) ≡ length fields

-- The fields that are there, in order: the chain of `if (x) fields.emplace_back(…)`.
unfoldable pub fields_of {ℓ} : {A : Type ℓ} → List (ℕ × Option A) → List (ℕ × A)
fields_of [] = []
fields_of ((k, none) ∷ slots) = fields_of slots
fields_of ((k, some a) ∷ slots) = (k, a) ∷ fields_of slots

abbrev pub absent {ℓ} : {A : Type ℓ} → Option A → ℕ
absent none = 1
absent (some a) = 0

abbrev pub num_absent {ℓ} : {A : Type ℓ} → List (ℕ × Option A) → ℕ
num_absent [] = 0
num_absent ((k, v) ∷ slots) = absent v + num_absent slots

-- The value of a slot.
abbrev pub slot {ℓ} : {A : Type ℓ} → ℕ → List (ℕ × Option A) → Option A
slot key [] = none
slot key ((k, v) ∷ slots) = let rest = slot key slots in if key == k then v else rest

module _ {ℓ} {A : Type ℓ} where
  mem-fields_of :
      (slots : List (ℕ × Option A)) (k : ℕ)
      → mem k (keys slots) ≡ false
      → (mem k (keys (fields_of slots)) ≡ false) × (lookup_field k (fields_of slots) ≡ none)
  unfolding fields_of
  mem-fields_of [] k h = (refl, refl)
  mem-fields_of ((k', none) ∷ slots) k h = mem-fields_of slots k (ground (arith, h))
  mem-fields_of ((k', some a) ∷ slots) k h =
      let (absent, missing) = mem-fields_of slots k (ground (arith, h)) in
      let other : (k == k') ≡ false = ground (arith, h) in
      (ground (arith, absent, other), rw other missing)

  pub fields_of-Distinct :
      (slots : List (ℕ × Option A)) → Distinct (keys slots) → Distinct (keys (fields_of slots))
  unfolding fields_of
  fields_of-Distinct [] d = tt
  fields_of-Distinct ((k, none) ∷ slots) d = fields_of-Distinct slots d.1
  fields_of-Distinct ((k, some a) ∷ slots) d =
      ((mem-fields_of slots k d.0).0, fields_of-Distinct slots d.1)

  pub lookup_field-fields_of :
      (slots : List (ℕ × Option A)) (key : ℕ)
      → Distinct (keys slots)
      → lookup_field key (fields_of slots) ≡ slot key slots
  unfolding fields_of
  lookup_field-fields_of [] key d = refl
  lookup_field-fields_of ((k, none) ∷ slots) key d = elim (Bool-cases (key == k)) [
    | inl e ↦ rw e (
        ap (λ x. lookup_field x (fields_of slots)) ((==_iff key k).0 e)
        ∙ (mem-fields_of slots k d.0).1)
    | inr ne ↦ rw ne (lookup_field-fields_of slots key d.1)
  ]
  lookup_field-fields_of ((k, some a) ∷ slots) key d = elim (Bool-cases (key == k)) [
    | inl e ↦ rw e refl
    | inr ne ↦ rw ne (lookup_field-fields_of slots key d.1)
  ]

  pub length-fields_of :
      (slots : List (ℕ × Option A)) → length (fields_of slots) + num_absent slots ≡ length slots
  unfolding fields_of
  length-fields_of [] = refl
  length-fields_of ((k, none) ∷ slots) = omega (arith, length-fields_of slots)
  length-fields_of ((k, some a) ∷ slots) = omega (arith, length-fields_of slots)

-- A dictionary made of slots with distinct names has them.
module _ (M : MlirAttributes) (slots : List (ℕ × Option M.Attribute))
    (d : Distinct (keys slots)) where
  pub get-slots : (key : ℕ) → M.get (M.make (fields_of slots)) key ≡ slot key slots
  get-slots key =
      M.get-make (fields_of slots) key (fields_of-Distinct slots d)
      ∙ lookup_field-fields_of slots key d

  pub num_fields-slots : M.num_fields (M.make (fields_of slots)) + num_absent slots ≡ length slots
  num_fields-slots =
      let n = M.num_fields-make (fields_of slots) (fields_of-Distinct slots d) in
      omega (arith, n, length-fields_of slots)

-- `isa_and_nonnull`, for the kind that a test recognises; `none` is the null attribute.
abbrev pub isa_and_nonnull {ℓ} : {A : Type ℓ} → (A → Bool) → Option A → Bool
isa_and_nonnull test none = false
isa_and_nonnull test (some a) = test a

-- `isa` of an attribute that may be absent.
abbrev pub absent_or_isa {ℓ} : {A : Type ℓ} → (A → Bool) → Option A → Bool
absent_or_isa test none = true
absent_or_isa test (some a) = test a

-- What an accessor returns for a field that may be absent; `none` where its assert fails.
abbrev pub cast_optional {ℓ κ} :
    {A : Type ℓ} {B : Type κ} → (A → Option B) → Option A → Option (Option B)
cast_optional cast none = some none
cast_optional cast (some a) = elim (cast a) [ none ↦ none | some b ↦ some (some b) ]

abbrev pub all {ℓ} : {A : Type ℓ} → (A → Bool) → List A → Bool
all test [] = true
all test (a ∷ rest) = test a && all test rest
