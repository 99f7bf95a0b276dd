-- ===== src/Sequence/Analysis/Edits.antt =====
-- `Insert` and `Erase` on the analysis that holds a list of operations.
use structured_additive_ir.Common.{
  ℕ, ◌+◌, ◌≡◌, refl, sym, ap, ap₂, ◌∙◌, subst, fun_ext, true, false, inl, inr, Bool-cases, Option,
  none, some, List, ◌∷◌, ◌++◌, ◌==◌, ==_iff, if◌then◌else◌, arith, mem, mem-append, Distinct,
  length, drop,
}
use structured_additive_ir.Sequence.Analysis.{
  SequenceAnalysis, assign_numbers, insert_at, erase, explicit_sequence_number,
}
use structured_additive_ir.Sequence.Analysis.Positions.{
  index_from, or_else, IsConsistent, index_from-absent, index_from-append, index_from-mem,
  assign_numbers-eq, take-append, drop-append, drop_suc-append, Distinct-suffix, Distinct-apart,
  Distinct-erase,
}

-- The positions in two lists one behind the other.
pub index-append :
    (op : ℕ) (xs ys : List ℕ)
    → index_from 0 op (xs ++ ys) ≡ or_else (index_from 0 op xs) (index_from (length xs) op ys)
index-append op xs ys =
    index_from-append 0 op xs ys
    ∙ ap (λ k. or_else (index_from 0 op xs) (index_from k op ys)) {x = 0 + length xs}
        {y = length xs} (omega arith)

-- The numbers of a consistent analysis whose operations from `ys` on are numbered again.
renumbered :
    (q n m : ℕ) (xs ys : List ℕ) (old : Option ℕ)
    → Distinct (xs ++ ys)
    → old ≡ or_else (index_from 0 q xs) (index_from m q ys)
    → or_else (index_from n q ys) old ≡ or_else (index_from 0 q xs) (index_from n q ys)
renumbered q n m xs ys old d e = elim (Bool-cases (mem q ys)) [
  | inl there ↦
      (let (k, at_k) = index_from-mem n q ys there in
        rw (at_k, index_from-absent 0 q xs (Distinct-apart q xs ys d there)) refl)
  | inr absent ↦
      (let here = rw (index_from-absent m q ys absent) at e in
        rw (index_from-absent n q ys absent) here)
]

-- The analysis that holds these operations.
abbrev pub in_order : List ℕ → SequenceAnalysis
in_order ops = record { compute_ops = ops; numbers = λ op. index_from 0 op ops }

analysis_ext :
    (ops : List ℕ) (a : SequenceAnalysis)
    → a.compute_ops ≡ ops
    → ((q : ℕ) → a.numbers q ≡ index_from 0 q ops)
    → a ≡ in_order ops
analysis_ext ops a e h = ap₂ (λ os ns. record { compute_ops = os; numbers = ns }) e (fun_ext h)

-- An analysis is consistent only if it is the one that holds its operations.
pub IsConsistent-in_order :
    (a : SequenceAnalysis) (ops : List ℕ) → IsConsistent a → a.compute_ops ≡ ops → a ≡ in_order ops
IsConsistent-in_order a ops c e = analysis_ext ops a e (λ q. c.positions q ∙ ap (index_from 0 q) e)

or_else-eq : (t v d : Option ℕ) → t ≡ v → elim t [ some n ↦ some n | none ↦ d ] ≡ or_else v d
or_else-eq none v d e = ap (λ x. or_else x d) e
or_else-eq (some n) v d e = ap (λ x. or_else x d) e

pub or_else-none : (t : Option ℕ) → or_else t none ≡ t
or_else-none none = refl
or_else-none (some n) = refl

insert_at-numbers :
    (op q : ℕ) (xs ys : List ℕ)
    → Distinct (xs ++ ys)
    → mem op (xs ++ ys) ≡ false
    → or_else
        (or_else (index_from (length xs + 1) q ys) (index_from 0 q (xs ++ ys)))
        (if q == op then some (length xs) else none)
      ≡ index_from 0 q (xs ++ op ∷ ys)
insert_at-numbers op q xs ys d fresh =
    elim (Bool-cases (q == op)) [
      | inl e ↦ rw e (here ((==_iff q op).0 e))
      | inr ne ↦ rw ne (
          or_else-none (or_else (index_from (length xs + 1) q ys) (index_from 0 q (xs ++ ys)))
          ∙ renumbered q (length xs + 1) (length xs) xs ys (index_from 0 q (xs ++ ys)) d
              (index-append q xs ys))
    ]
    ∙ sym (index-append q xs (op ∷ ys))
  where
    here :
        q ≡ op
        → or_else
            (or_else (index_from (length xs + 1) q ys) (index_from 0 q (xs ++ ys)))
            (some (length xs))
          ≡ or_else (index_from 0 q xs) (some (length xs))
    here e =
        let absent : mem q (xs ++ ys) ≡ false =
          subst (λ x. mem x (xs ++ ys) ≡ false) (sym e) fresh in
        rw
          (
            index_from-absent 0 q (xs ++ ys) absent,
            index_from-absent (length xs + 1) q ys (ground (arith, mem-append q xs ys, absent)),
            index_from-absent 0 q xs (ground (arith, mem-append q xs ys, absent)),
          )
          refl

pub insert_at-in_order :
    (op : ℕ) (xs ys : List ℕ)
    → Distinct (xs ++ ys)
    → mem op (xs ++ ys) ≡ false
    → insert_at (in_order (xs ++ ys)) op (length xs) ≡ in_order (xs ++ op ∷ ys)
unfolding insert_at
insert_at-in_order op xs ys d fresh =
    analysis_ext (xs ++ op ∷ ys) (insert_at (in_order (xs ++ ys)) op (length xs))
      (ap₂ (λ front back. front ++ op ∷ back) (take-append xs ys) (drop-append xs ys))
      (λ q.
        or_else-eq
          (assign_numbers (drop (length xs) (xs ++ ys)) (length xs + 1)
            (λ o. index_from 0 o (xs ++ ys)) q)
          (or_else (index_from (length xs + 1) q ys) (index_from 0 q (xs ++ ys)))
          (if q == op then some (length xs) else none)
          (ap (λ l. assign_numbers l (length xs + 1) (λ o. index_from 0 o (xs ++ ys)) q)
              (drop-append xs ys)
            ∙ assign_numbers-eq ys (length xs + 1) (λ o. index_from 0 o (xs ++ ys)) q
                (Distinct-suffix xs ys d))
        ∙ insert_at-numbers op q xs ys d fresh)

pub index_from-here :
    (op : ℕ) (xs ys : List ℕ)
    → mem op xs ≡ false
    → index_from 0 op (xs ++ op ∷ ys) ≡ some (length xs)
index_from-here op xs ys h =
    let here : (op == op) ≡ true = (==_iff op op).1 refl in
    index-append op xs (op ∷ ys) ∙ rw (index_from-absent 0 op xs h) (rw here refl)

erase_numbers :
    (op q : ℕ) (xs ys : List ℕ)
    → Distinct (xs ++ op ∷ ys)
    → (if q == op
        then none
        else or_else (index_from (length xs) q ys) (index_from 0 q (xs ++ op ∷ ys)))
      ≡ index_from 0 q (xs ++ ys)
erase_numbers op q xs ys d =
    let (rest, absent) = Distinct-erase op xs ys d in
    elim (Bool-cases (q == op)) [
      | inl e ↦ rw e (
          sym (
            index_from-absent 0 q (xs ++ ys)
              (subst (λ x. mem x (xs ++ ys) ≡ false) (sym ((==_iff q op).0 e)) absent)))
      | inr ne ↦ rw ne (
          renumbered q (length xs) (length xs + 1) xs ys (index_from 0 q (xs ++ op ∷ ys)) rest
            (index-append q xs (op ∷ ys) ∙ rw ne refl)
          ∙ sym (index-append q xs ys))
    ]

pub erase-in_order :
    (op : ℕ) (xs ys : List ℕ)
    → Distinct (xs ++ op ∷ ys)
    → erase (in_order (xs ++ op ∷ ys)) op ≡ some (in_order (xs ++ ys))
unfolding erase explicit_sequence_number
erase-in_order op xs ys d =
    let absent : mem op xs ≡ false =
      ground (arith, mem-append op xs ys, (Distinct-erase op xs ys d).1) in
    simp (index_from-here op xs ys absent, erase)
      (ap some (
        analysis_ext (xs ++ ys) _
          (ap₂ (λ front back. front ++ back) (take-append xs (op ∷ ys)) (drop_suc-append op xs ys))
          (λ q.
            ap (λ r. if q == op then none else r)
              (ap (λ l. assign_numbers l (length xs) (λ o. index_from 0 o (xs ++ op ∷ ys)) q)
                  (drop_suc-append op xs ys)
                ∙ assign_numbers-eq ys (length xs) (λ o. index_from 0 o (xs ++ op ∷ ys)) q
                    (Distinct-suffix xs ys (Distinct-erase op xs ys d).0))
            ∙ erase_numbers op q xs ys d)))

pub in_order-IsConsistent : (ops : List ℕ) → Distinct ops → IsConsistent (in_order ops)
in_order-IsConsistent ops d = record { once = d; positions = λ q. refl }
