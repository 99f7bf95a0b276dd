-- ===== src/Sequence/Default/Entries.antt =====
-- The order of the operations that have a sequence number.
use structured_additive_ir.Common.{
  sym, subst, ℕ, ℤ, ◌≤ℤ◌, ◌<ℤ◌, ltb_ℤ, ◌≡◌, true, false, ◌⊎◌, inl, inr, Bool-cases, none, some,
  List, [], ◌∷◌, ◌==◌, ==_iff, ltb_ℤ→lt, arith, mem, Option-cases,
}
use structured_additive_ir.Sequence.Program.{Program}
use structured_additive_ir.Sequence.Default.{emplace, initial_sequence, entries_before, ops_before}

-- No number of the entries is below the one given.
abbrev AtLeast : ℤ → List (ℤ × ℕ) → Type 0
AtLeast number [] = Unit
AtLeast number ((n, o) ∷ entries) = (number ≤ℤ n) × AtLeast number entries

abbrev pub InOrder : List (ℤ × ℕ) → Type 0
InOrder [] = Unit
InOrder ((n, o) ∷ entries) = AtLeast n entries × InOrder entries

abbrev pub Entry : ℤ → ℕ → List (ℤ × ℕ) → Type 0
Entry number op [] = ⊥
Entry number op ((n, o) ∷ entries) = ((number ≡ n) × (op ≡ o)) ⊎ Entry number op entries

AtLeast-mono : (m n : ℤ) (entries : List (ℤ × ℕ)) → m ≤ℤ n → AtLeast n entries → AtLeast m entries
AtLeast-mono m n [] le h = tt
AtLeast-mono m n ((k, o) ∷ entries) le h = (omega (arith, h.0), AtLeast-mono m n entries le h.1)

emplace-AtLeast :
    (k number : ℤ) (op : ℕ) (entries : List (ℤ × ℕ))
    → k ≤ℤ number
    → AtLeast k entries
    → AtLeast k (emplace number op entries)
unfolding emplace
emplace-AtLeast k number op [] le h = (le, tt)
emplace-AtLeast k number op ((n, o) ∷ entries) le h = elim (Bool-cases (ltb_ℤ number n)) [
  | inl e ↦ rw e (le, h)
  | inr ne ↦ rw ne (h.0, emplace-AtLeast k number op entries le h.1)
]

emplace-InOrder :
    (number : ℤ) (op : ℕ) (entries : List (ℤ × ℕ))
    → InOrder entries
    → InOrder (emplace number op entries)
unfolding emplace
emplace-InOrder number op [] h = (tt, tt)
emplace-InOrder number op ((n, o) ∷ entries) h = elim (Bool-cases (ltb_ℤ number n)) [
  | inl e ↦ rw e (
    (
      omega (arith, ltb_ℤ→lt number n e),
      AtLeast-mono number n entries (omega (arith, ltb_ℤ→lt number n e)) h.0,
    ),
    h,
  )
  | inr ne ↦ rw ne (
    emplace-AtLeast n number op entries (ground (arith, ne)) h.0,
    emplace-InOrder number op entries h.1,
  )
]

emplace-Entry :
    (number : ℤ) (op : ℕ) (n : ℤ) (o : ℕ) (entries : List (ℤ × ℕ))
    → ((n ≡ number) × (o ≡ op)) ⊎ Entry n o entries
    → Entry n o (emplace number op entries)
unfolding emplace
emplace-Entry number op n o [] h = h
emplace-Entry number op n o ((k, a) ∷ entries) h = elim (Bool-cases (ltb_ℤ number k)) [
  | inl e ↦ rw e h
  | inr ne ↦ rw ne (placed (emplace-Entry number op n o entries) h)
]
  where
    placed :
        (((n ≡ number) × (o ≡ op)) ⊎ Entry n o entries → Entry n o (emplace number op entries))
        → ((n ≡ number) × (o ≡ op)) ⊎ (((n ≡ k) × (o ≡ a)) ⊎ Entry n o entries)
        → ((n ≡ k) × (o ≡ a)) ⊎ Entry n o (emplace number op entries)
    placed rest (inl new) = inr (rest (inl new))
    placed rest (inr (inl here)) = inl here
    placed rest (inr (inr there)) = inr (rest (inr there))

pub initial_sequence-InOrder :
    (p : Program) (ops : List ℕ) (entries : List (ℤ × ℕ))
    → InOrder entries
    → InOrder (initial_sequence p ops entries)
unfolding initial_sequence
initial_sequence-InOrder p [] entries h = h
initial_sequence-InOrder p (op ∷ ops) entries h = elim (Option-cases (p.sequence op)) [
  | inl e ↦ rw e (initial_sequence-InOrder p ops entries h)
  | inr (number, e) ↦ rw e (
      initial_sequence-InOrder p ops (emplace number op entries)
        (emplace-InOrder number op entries h))
]

-- The operations given that have a number, and the entries so far, are entries.
pub initial_sequence-Entry :
    (p : Program) (n : ℤ) (o : ℕ) (ops : List ℕ) (entries : List (ℤ × ℕ))
    → p.sequence o ≡ some n
    → (mem o ops ≡ true) ⊎ Entry n o entries
    → Entry n o (initial_sequence p ops entries)
unfolding initial_sequence
initial_sequence-Entry p n o [] entries s (inr h) = h
initial_sequence-Entry p n o [] entries s (inl h) = cc
initial_sequence-Entry p n o (op ∷ ops) entries s h = elim (Option-cases (p.sequence op)) [
  | inl e ↦ rw e (initial_sequence-Entry p n o ops entries s (skipped e h))
  | inr (number, e) ↦
      rw e (initial_sequence-Entry p n o ops (emplace number op entries) s (placed number e h))
]
  where
    skipped :
        p.sequence op ≡ none
        → (mem o (op ∷ ops) ≡ true) ⊎ Entry n o entries
        → (mem o ops ≡ true) ⊎ Entry n o entries
    skipped e (inr x) = inr x
    skipped e (inl m) = elim (Bool-cases (o == op)) [
      | inl q ↦ (let r : o ≡ op = (==_iff o op).0 q in cc)
      | inr ne ↦ inl (ground (arith, m, ne))
    ]

    placed :
        (number : ℤ)
        → p.sequence op ≡ some number
        → (mem o (op ∷ ops) ≡ true) ⊎ Entry n o entries
        → (mem o ops ≡ true) ⊎ Entry n o (emplace number op entries)
    placed number e (inr x) = inr (emplace-Entry number op n o entries (inr x))
    placed number e (inl m) = elim (Bool-cases (o == op)) [
      | inl q ↦
          (let r : o ≡ op = (==_iff o op).0 q in
            let same : n ≡ number = cc in inr (emplace-Entry number op n o entries (inl (same, r))))
      | inr ne ↦ inl (ground (arith, m, ne))
    ]

AtLeast-Entry :
    (k n : ℤ) (o : ℕ) (entries : List (ℤ × ℕ)) → AtLeast k entries → Entry n o entries → k ≤ℤ n
AtLeast-Entry k n o [] h entry = elim entry [ ]
AtLeast-Entry k n o ((m, a) ∷ entries) h (inl (same, e)) = subst (λ x. k ≤ℤ x) (sym same) h.0
AtLeast-Entry k n o ((m, a) ∷ entries) h (inr there) = AtLeast-Entry k n o entries h.1 there

-- The entries before a number are those with a smaller one.
pub mem-entries_before :
    (number n : ℤ) (o : ℕ) (entries : List (ℤ × ℕ))
    → InOrder entries
    → Entry n o entries
    → n <ℤ number
    → mem o (entries_before number entries) ≡ true
unfolding entries_before
mem-entries_before number n o [] h entry less = elim entry [ ]
mem-entries_before number n o ((k, a) ∷ entries) h entry less = elim (Bool-cases (ltb_ℤ k number)) [
  | inl e ↦ rw e (here (mem-entries_before number n o entries h.1) entry)
  | inr ne ↦ elim (late (AtLeast-Entry k n o entries h.0) ne entry) [ ]
]
  where
    here :
        (Entry n o entries → n <ℤ number → mem o (entries_before number entries) ≡ true)
        → Entry n o ((k, a) ∷ entries)
        → mem o (a ∷ entries_before number entries) ≡ true
    here rest (inl (same, e)) = ground (arith, e)
    here rest (inr there) = ground (arith, rest there less)

    late : (Entry n o entries → k ≤ℤ n) → ltb_ℤ k number ≡ false → Entry n o ((k, a) ∷ entries) → ⊥
    late bound ne (inl (same, e)) = ground (arith, ne)
    late bound ne (inr there) = ground (arith, ne, bound there)

-- The operations before `b` hold each one with a smaller sequence number.
pub mem-ops_before :
    (p : Program) (a b : ℕ) (m n : ℤ)
    → mem a p.compute_ops ≡ true
    → p.sequence a ≡ some m
    → p.sequence b ≡ some n
    → m <ℤ n
    → mem a (ops_before p (initial_sequence p p.compute_ops []) b) ≡ true
unfolding ops_before
mem-ops_before p a b m n listed sa sb less =
    simp (sb, ops_before)
      (mem-entries_before n m a (initial_sequence p p.compute_ops [])
        (initial_sequence-InOrder p p.compute_ops [] tt)
        (initial_sequence-Entry p m a p.compute_ops [] sa (inl listed)) less)
