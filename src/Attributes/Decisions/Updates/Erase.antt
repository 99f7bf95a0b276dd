-- ===== src/Attributes/Decisions/Updates/Erase.antt =====
-- `EraseOperand` of decisions that `DecisionsAttr::get` made.
use structured_additive_ir.Common.{
  ℕ, zero, suc, ◌+◌, ◌<◌, ◌≡◌, refl, ap, ◌∙◌, subst, Bool, true, none, some, List, [], ◌∷◌, ◌++◌,
  if◌then◌else◌, ltb, length, take, drop, arith,
}
use structured_additive_ir.Attributes.Interface.{MlirAttributes, all, absent_or_isa}
use structured_additive_ir.Attributes.Decisions.{
  Decisions as DecisionsRecord, decisions_of, dictionary,
}
use structured_additive_ir.Attributes.Decisions.RoundTrip.{
  is_decisions, get-dictionary, decisions_of-dictionary,
}
use structured_additive_ir.Attributes.Decisions.Updates.{erase_operand_from_array, erase_operand}

-- A list without its element at a position.
abbrev pub without {ℓ} : {A : Type ℓ} → ℕ → List A → List A
without i xs = take i xs ++ drop (i + 1) xs

drop-nil {ℓ} : {A : Type ℓ} (n : ℕ) → drop {A = A} n [] ≡ []
drop-nil zero = refl
drop-nil (suc n) = refl

all-without {ℓ} :
    {A : Type ℓ} (test : A → Bool) (i : ℕ) (xs : List A)
    → all test xs ≡ true
    → all test (without i xs) ≡ true
all-without test zero [] h = refl
all-without test (suc i) [] h = ap (all test) (drop-nil (suc i + 1))
all-without test zero (x ∷ xs) h = ground (arith, h)
all-without test (suc i) (x ∷ xs) h =
    let rest = all-without test i xs (ground (arith, h)) in ground (arith, h, rest)

module _ (M : MlirAttributes) (d : DecisionsRecord M) where
  abbrev pub erased : List M.Attribute → ℕ → DecisionsRecord M
  erased ops i = record d { operands = some (without i ops) }

  erased-is_decisions :
      (ops : List M.Attribute) (i : ℕ)
      → is_decisions M d ≡ true
      → d.operands ≡ some ops
      → is_decisions M (erased ops i) ≡ true
  erased-is_decisions ops i h at_ops =
      let before : absent_or_isa (all M.is_instance_ref) (some ops) ≡ true =
        subst (λ x. absent_or_isa (all M.is_instance_ref) x ≡ true) at_ops (ground (arith, h)) in
      let after = all-without M.is_instance_ref i ops before in ground (arith, h, after)

  pub erase_operand-decisions_of :
      (ops : List M.Attribute) (i : ℕ)
      → is_decisions M d ≡ true
      → d.operands ≡ some ops
      → i < length ops
      → (result : M.Attribute) × (erase_operand M (dictionary M d) i ≡ some (some result))
        × (decisions_of M result ≡ some (erased ops i))
  unfolding erase_operand erase_operand_from_array
  erase_operand-decisions_of ops i h at_ops lt =
      let inside : ltb i (length ops) ≡ true = ground arith in
      (
        dictionary M (erased ops i),
        rw (decisions_of-dictionary M d, at_ops, inside, erase_operand, erase_operand_from_array)
            (get-dictionary M (erased ops i)
              ∙ ap (λ b. some (if b then some (dictionary M (erased ops i)) else none))
                  (erased-is_decisions ops i h at_ops)),
        decisions_of-dictionary M (erased ops i),
      )
