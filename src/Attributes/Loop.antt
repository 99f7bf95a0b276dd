-- ===== src/Attributes/Loop.antt =====
-- `LoopAttr`.
use structured_additive_ir.Common.{
  ℕ, ◌≡◌, refl, Bool, true, false, not, ◌||◌, Option, none, some, List, [], ◌∷◌, ◌==◌,
  if◌then◌else◌, arith, ◌>>=◌, map_option, is_some, Distinct,
}
use structured_additive_ir.Mapping.Expr.{MappingExpr}
use structured_additive_ir.Attributes.Interface.{
  MlirAttributes, keys, fields_of, isa_and_nonnull, cast_optional, get-slots, num_fields-slots,
}

abbrev pub name_id : ℕ
name_id = 0

abbrev pub iter_id : ℕ
iter_id = 1

abbrev pub unroll_id : ℕ
unroll_id = 2

module _ (M : MlirAttributes) where
  unfoldable pub classof : Option M.Attribute → Bool
  classof none = false
  classof (some attr) = elim (M.as_dictionary attr) [
    | none ↦ false
    | some derived ↦
        if not (isa_and_nonnull (λ a. is_some (M.as_string a)) (M.get derived name_id))
        then false
        else if not (isa_and_nonnull (λ a. is_some (M.as_mapping_expr a)) (M.get derived iter_id))
        then false
        else elim (M.get derived unroll_id) [
          | none ↦ M.num_fields derived == 2
          | some unroll ↦ elim (M.as_integer unroll) [
            | none ↦ false
            | some int_unroll ↦
                if not (M.is_signless_64 int_unroll) || not (M.is_strictly_positive int_unroll)
                then false
                else M.num_fields derived == 3
          ]
        ]
  ]

  abbrev pub slots : ℕ → MappingExpr → Option M.Integer → List (ℕ × Option M.Attribute)
  slots name iter unroll =
      (name_id, some (M.of_string name))
      ∷ (iter_id, some (M.of_mapping_expr iter))
      ∷ (unroll_id, map_option M.of_integer unroll)
      ∷ []

  abbrev pub dictionary : ℕ → MappingExpr → Option M.Integer → M.Attribute
  dictionary name iter unroll = M.of_dictionary (M.make (fields_of (slots name iter unroll)))

  -- `none` where the cast to `LoopAttr` fails.
  unfoldable pub get : ℕ → MappingExpr → Option M.Integer → Option M.Attribute
  unfolding classof fields_of
  get name iter unroll =
      let dict = dictionary name iter unroll in if classof (some dict) then some dict else none

  -- The accessors; `none` where an assert fails.
  unfoldable pub name : M.Attribute → Option ℕ
  name attr = M.as_dictionary attr >>= λ derived. M.get derived name_id >>= M.as_string

  unfoldable pub iter : M.Attribute → Option MappingExpr
  iter attr = M.as_dictionary attr >>= λ derived. M.get derived iter_id >>= M.as_mapping_expr

  unfoldable pub unroll : M.Attribute → Option (Option M.Integer)
  unroll attr =
      M.as_dictionary attr >>= λ derived. cast_optional M.as_integer (M.get derived unroll_id)

  -- The unroll factors that `LoopAttr` accepts.
  abbrev pub IsUnroll : Option M.Integer → Type 0
  IsUnroll none = Unit
  IsUnroll (some i) = (M.is_signless_64 i ≡ true) × (M.is_strictly_positive i ≡ true)

  module _ (n : ℕ) (e : MappingExpr) (u : Option M.Integer) where
    slots-Distinct : Distinct (keys (slots n e u))
    slots-Distinct = (refl, (refl, (refl, tt)))

    name-dictionary : name (dictionary n e u) ≡ some n
    unfolding name
    name-dictionary =
        rw
          (
            M.dictionary_cast (M.make (fields_of (slots n e u))),
            get-slots M (slots n e u) slots-Distinct name_id,
            M.string_cast n,
            name,
          )
          refl

    iter-dictionary : iter (dictionary n e u) ≡ some e
    unfolding iter
    iter-dictionary =
        rw
          (
            M.dictionary_cast (M.make (fields_of (slots n e u))),
            get-slots M (slots n e u) slots-Distinct iter_id,
            M.mapping_expr_cast e,
            iter,
          )
          refl

  cast_optional-integer :
      (u : Option M.Integer) → cast_optional M.as_integer (map_option M.of_integer u) ≡ some u
  cast_optional-integer none = refl
  cast_optional-integer (some i) = rw (M.integer_cast i) refl

  unroll-dictionary :
      (n : ℕ) (e : MappingExpr) (u : Option M.Integer) → unroll (dictionary n e u) ≡ some u
  unfolding unroll
  unroll-dictionary n e u =
      rw
        (
          M.dictionary_cast (M.make (fields_of (slots n e u))),
          get-slots M (slots n e u) (slots-Distinct n e u) unroll_id,
          unroll,
        )
        (cast_optional-integer u)

  classof-dictionary :
      (n : ℕ) (e : MappingExpr) (u : Option M.Integer)
      → IsUnroll u
      → classof (some (dictionary n e u)) ≡ true
  unfolding classof
  classof-dictionary n e none v =
      let count : M.num_fields (M.make (fields_of (slots n e none))) ≡ 2 =
        (let c = num_fields-slots M (slots n e none) (slots-Distinct n e none) in
          omega (arith, c)) in
      simp
        (
          M.dictionary_cast (M.make (fields_of (slots n e none))),
          get-slots M (slots n e none) (slots-Distinct n e none) name_id,
          get-slots M (slots n e none) (slots-Distinct n e none) iter_id,
          get-slots M (slots n e none) (slots-Distinct n e none) unroll_id,
          M.string_cast n,
          M.mapping_expr_cast e,
          count,
          classof,
        )
        refl
  classof-dictionary n e (some i) v =
      let count : M.num_fields (M.make (fields_of (slots n e (some i)))) ≡ 3 =
        (let c = num_fields-slots M (slots n e (some i)) (slots-Distinct n e (some i)) in
          omega (arith, c)) in
      simp
        (
          M.dictionary_cast (M.make (fields_of (slots n e (some i)))),
          get-slots M (slots n e (some i)) (slots-Distinct n e (some i)) name_id,
          get-slots M (slots n e (some i)) (slots-Distinct n e (some i)) iter_id,
          get-slots M (slots n e (some i)) (slots-Distinct n e (some i)) unroll_id,
          M.string_cast n,
          M.mapping_expr_cast e,
          M.integer_cast i,
          v.0,
          v.1,
          count,
          classof,
        )
        refl

  -- The attribute that `get` makes with an accepted unroll factor is not null, and its accessors
  -- give the arguments back.
  pub get-accessors :
      (n : ℕ) (e : MappingExpr) (u : Option M.Integer)
      → IsUnroll u
      → (attr : M.Attribute) × (get n e u ≡ some attr)
        × (classof (some attr) ≡ true)
        × (name attr ≡ some n)
        × (iter attr ≡ some e)
        × (unroll attr ≡ some u)
  unfolding get
  get-accessors n e u v = (
    dictionary n e u,
    rw (classof-dictionary n e u v, get) refl,
    classof-dictionary n e u v,
    name-dictionary n e u,
    iter-dictionary n e u,
    unroll-dictionary n e u,
  )
