-- ===== src/Examples/AttributeRuns.antt =====
-- A concrete representation of the framework's attributes, and decisions made with it.
use structured_additive_ir.Common.{
  ℕ, ◌≡◌, refl, ap, Bool, true, false, ltb_ℤ, pos, negsuc, ℤ, if◌then◌else◌, Option, none, some,
  List, [], ◌∷◌, length, ◌>>=◌,
}
use structured_additive_ir.Mapping.Expr.{MappingExpr, dim}
use structured_additive_ir.Mapping.Named.{NamedMapping}
use structured_additive_ir.Attributes.Interface.{MlirAttributes, lookup_field}
use structured_additive_ir.Attributes.Loop
use structured_additive_ir.Attributes.Decisions
use structured_additive_ir.Attributes.Decisions.{
  Decisions as DecisionsRecord, dictionary, decisions_of,
}
use structured_additive_ir.Attributes.Decisions.RoundTrip.{is_decisions, get-decisions_of}
use structured_additive_ir.Attributes.Decisions.Updates.{erase_operand}

mutual
  data Attr : Type 0 where
    text : ℕ → Attr
    integer : ℤ → Attr
    expr : MappingExpr → Attr
    layout : NamedMapping → Attr
    reference : ℕ → Attr
    array : Attrs → Attr
    fields : Fields → Attr

  data Attrs : Type 0 where
    nothing : Attrs
    attr : Attr → Attrs → Attrs

  data Fields : Type 0 where
    no_field : Fields
    field : ℕ → Attr → Fields → Fields

abbrev attrs_of : List Attr → Attrs
attrs_of [] = nothing
attrs_of (x ∷ xs) = attr x (attrs_of xs)

abbrev list_of : Attrs → List Attr
list_of nothing = []
list_of (attr x xs) = x ∷ list_of xs

list_of-attrs_of : (xs : List Attr) → list_of (attrs_of xs) ≡ xs
list_of-attrs_of [] = refl
list_of-attrs_of (x ∷ xs) = ap (λ l. x ∷ l) (list_of-attrs_of xs)

abbrev fields_from : List (ℕ × Attr) → Fields
fields_from [] = no_field
fields_from ((k, x) ∷ xs) = field k x (fields_from xs)

abbrev dictionary_of : Fields → List (ℕ × Attr)
dictionary_of no_field = []
dictionary_of (field k x xs) = (k, x) ∷ dictionary_of xs

dictionary_of-fields_from : (xs : List (ℕ × Attr)) → dictionary_of (fields_from xs) ≡ xs
dictionary_of-fields_from [] = refl
dictionary_of-fields_from ((k, x) ∷ xs) = ap (λ l. (k, x) ∷ l) (dictionary_of-fields_from xs)

abbrev text_of : Attr → Option ℕ
text_of (text s) = some s
text_of _ = none

abbrev integer_of : Attr → Option ℤ
integer_of (integer i) = some i
integer_of _ = none

abbrev array_of : Attr → Option (List Attr)
array_of (array xs) = some (list_of xs)
array_of _ = none

abbrev expr_of : Attr → Option MappingExpr
expr_of (expr e) = some e
expr_of _ = none

abbrev layout_of : Attr → Option NamedMapping
layout_of (layout m) = some m
layout_of _ = none

abbrev is_reference : Attr → Bool
is_reference (reference i) = true
is_reference _ = false

abbrev fields_dictionary : Attr → Option (List (ℕ × Attr))
fields_dictionary (fields xs) = some (dictionary_of xs)
fields_dictionary _ = none

abbrev concrete : MlirAttributes
concrete = record {
  Attribute = Attr;
  Integer = ℤ;
  Dictionary = List (ℕ × Attr);
  of_string = λ s. text s;
  as_string = text_of;
  of_integer = λ i. integer i;
  as_integer = integer_of;
  is_signless_64 = λ i. true;
  is_strictly_positive = λ i. ltb_ℤ (pos 0) i;
  i64_attr = λ i. i;
  of_array = λ xs. array (attrs_of xs);
  as_array = array_of;
  of_mapping_expr = λ e. expr e;
  as_mapping_expr = expr_of;
  of_named_mapping = λ m. layout m;
  as_named_mapping = layout_of;
  is_instance_ref = is_reference;
  instance = λ i. reference i;
  of_dictionary = λ d. fields (fields_from d);
  as_dictionary = fields_dictionary;
  make = λ d. d;
  get = λ d k. lookup_field k d;
  num_fields = λ d. length d;
  string_cast = λ s. refl;
  integer_cast = λ i. refl;
  array_cast = λ xs. ap some (list_of-attrs_of xs);
  mapping_expr_cast = λ e. refl;
  named_mapping_cast = λ m. refl;
  dictionary_cast = λ d. ap some (dictionary_of-fields_from d);
  get-make = λ d k distinct. refl;
  num_fields-make = λ d distinct. refl;
}

-- The first instance in loop 7 along `d0`, with two operands.
abbrev looped : DecisionsRecord concrete
looped = record {
  sequence = some (negsuc 41);
  loop_nest = some (Loop.dictionary concrete 7 (dim 0) (some (pos 4)) ∷ []);
  storage = none;
  expansion = some 9;
  copy_of = none;
  operands = some (reference 0 ∷ reference 1 ∷ []);
}

looped-is_decisions : is_decisions concrete looped ≡ true
unfolding Loop.classof structured_additive_ir.Attributes.Interface.fields_of
looped-is_decisions = refl

get-decisions_of_example :
    (Decisions.get concrete looped
      ≡ some (if is_decisions concrete looped then some (dictionary concrete looped) else none))
    × (decisions_of concrete (dictionary concrete looped) ≡ some looped)
get-decisions_of_example = get-decisions_of concrete looped

-- Erasing the first operand leaves the second.
erase_operand-looped :
    (erase_operand concrete (dictionary concrete looped) 0 >>= λ result. elim result [
      | none ↦ none
      | some attribute ↦ Decisions.operands concrete attribute
    ])
    ≡ some (some (reference 1 ∷ []))
unfolding erase_operand Loop.classof structured_additive_ir.Attributes.Interface.fields_of
    Decisions.classof Decisions.get decisions_of Decisions.operands
erase_operand-looped = refl
