-- ===== src/Loops/Fusion/Order.antt =====
-- Which loops `LoopFusionAnalysis::Init` registers.
use structured_additive_ir.Common.{
  ℕ, zero, suc, ◌+◌, ◌≤◌, ◌<◌, ◌≡◌, refl, sym, ap, ◌∙◌, subst, Bool-cases, inl, inr, ◌⊎◌, some,
  List, [], ◌∷◌, ◌++◌, length, leb, arith, All, All-append,
}
use structured_additive_ir.Loops.Fusion.{ComputeOp}
use structured_additive_ir.Loops.Fusion.Init.{put_front, move_back, level_pass, registrations}
use structured_additive_ir.Loops.Fusion.Shared.{InRange}

abbrev pub In : {A : Type 0} → A → List A → Type 0
In x [] = ⊥
In x (y ∷ ys) = (x ≡ y) ⊎ In x ys

In-append : {A : Type 0} (x : A) (xs ys : List A) → In x xs ⊎ In x ys → In x (xs ++ ys)
In-append x [] ys (inl h) = elim h [ ]
In-append x [] ys (inr h) = h
In-append x (z ∷ zs) ys (inl (inl e)) = inl e
In-append x (z ∷ zs) ys (inl (inr h)) = inr (In-append x zs ys (inl h))
In-append x (z ∷ zs) ys (inr h) = inr (In-append x zs ys (inr h))

length-put_front : (x : ComputeOp) (r : List ComputeOp) → length (put_front x r) ≡ suc (length r)
length-put_front x [] = refl
length-put_front x (z ∷ zs) = refl

In-put_front : (x a : ComputeOp) (r : List ComputeOp) → (a ≡ x) ⊎ In a r → In a (put_front x r)
In-put_front x a [] (inl e) = inl e
In-put_front x a [] (inr h) = elim h [ ]
In-put_front x a (z ∷ zs) (inl e) = inr (inl e)
In-put_front x a (z ∷ zs) (inr (inl e)) = inl e
In-put_front x a (z ∷ zs) (inr (inr h)) = inr (inr h)

All-put_front :
    (P : ComputeOp → Type 0) (x : ComputeOp) (r : List ComputeOp)
    → P x
    → All P r
    → All P (put_front x r)
All-put_front P x [] p h = (p, tt)
All-put_front P x (z ∷ zs) p h = (h.0, (p, h.1))

length-move_back : (ops : List ComputeOp) → length (move_back ops) ≡ length ops
length-move_back [] = refl
length-move_back (x ∷ []) = refl
length-move_back (x ∷ y ∷ ys) =
    length-put_front x (move_back (y ∷ ys)) ∙ ap suc (length-move_back (y ∷ ys))

In-move_back : (a : ComputeOp) (ops : List ComputeOp) → In a ops → In a (move_back ops)
In-move_back a [] h = h
In-move_back a (x ∷ []) h = h
In-move_back a (x ∷ y ∷ ys) (inl e) = In-put_front x a (move_back (y ∷ ys)) (inl e)
In-move_back a (x ∷ y ∷ ys) (inr h) =
    In-put_front x a (move_back (y ∷ ys)) (inr (In-move_back a (y ∷ ys) h))

All-move_back : (P : ComputeOp → Type 0) (ops : List ComputeOp) → All P ops → All P (move_back ops)
All-move_back P [] h = h
All-move_back P (x ∷ []) h = h
All-move_back P (x ∷ y ∷ ys) h =
    All-put_front P x (move_back (y ∷ ys)) h.0 (All-move_back P (y ∷ ys) h.1)

abbrev pub LoopsUpTo : ℕ → ComputeOp → Type 0
LoopsUpTo n op = length op.loops ≤ n

-- One level registers the loops at that level, and leaves the operations with more loops.
record Passed (level : ℕ) (ops : List ComputeOp) (r : List (ComputeOp × ℕ) × List ComputeOp)
    : Type 0 where
  in_range : All InRange r.0
  registers : (op : ComputeOp) → In op ops → level < length op.loops → In (op, level) r.0
  keeps : (op : ComputeOp) → In op ops → level < length op.loops → In op r.1
  deeper : All (λ op. level < length op.loops) r.1
  bounded : (n : ℕ) → All (LoopsUpTo n) ops → All (LoopsUpTo n) r.1

level_pass-Passed :
    (fuel level : ℕ) (ops : List ComputeOp)
    → length ops ≤ fuel
    → (r : List (ComputeOp × ℕ) × List ComputeOp) × (level_pass fuel level ops ≡ some r)
      × Passed level ops r
unfolding level_pass
level_pass-Passed fuel level [] le = (
  ([], []),
  refl,
  record {
    in_range = tt;
    registers = λ op h lt. elim h [ ];
    keeps = λ op h lt. elim h [ ];
    deeper = tt;
    bounded = λ n h. tt;
  },
)
level_pass-Passed zero level (op ∷ rest) le = absurd (omega arith)
level_pass-Passed (suc fuel) level (op ∷ rest) le =
    elim (Bool-cases (leb (length op.loops) level)) [
      | inl done ↦
          (let (r, e, p) =
              level_pass-Passed fuel level (move_back rest)
                (let n = length-move_back rest in omega (arith, n)) in
            let out : length op.loops ≤ level = ground (arith, done) in
            (
              r,
              rw (done, level_pass) e,
              record {
                in_range = p.in_range;
                registers = λ x h lt. elim h [
                  | inl same ↦ absurd (
                      let bad = subst (λ (y : ComputeOp). level < length y.loops) same lt in
                      omega (arith, out, bad))
                  | inr later ↦ p.registers x (In-move_back x rest later) lt
                ];
                keeps = λ x h lt. elim h [
                  | inl same ↦ absurd (
                      let bad = subst (λ (y : ComputeOp). level < length y.loops) same lt in
                      omega (arith, out, bad))
                  | inr later ↦ p.keeps x (In-move_back x rest later) lt
                ];
                deeper = p.deeper;
                bounded = λ n h. p.bounded n (All-move_back (LoopsUpTo n) rest h.1);
              },
            ))
      | inr more ↦
          (let ((regs, kept), e, p) = level_pass-Passed fuel level rest (omega arith) in
            let inside : level < length op.loops = ground (arith, more) in
            (
              (((op, level) ∷ regs), op ∷ kept),
              rw (more, e, level_pass) refl,
              record {
                in_range = (inside, p.in_range);
                registers = λ x h lt. elim h [
                  | inl same ↦ inl (ap (λ y. (y, level)) same)
                  | inr later ↦ inr (p.registers x later lt)
                ];
                keeps =
                    λ x h lt. elim h [ inl same ↦ inl same | inr later ↦ inr (p.keeps x later lt) ];
                deeper = (inside, p.deeper);
                bounded = λ n h. (h.0, p.bounded n h.1);
              },
            ))
    ]

pub In-split :
    {A : Type 0} (x : A) (xs : List A)
    → In x xs
    → (before : List A) × (after : List A) × (xs ≡ before ++ x ∷ after)
In-split x [] h = elim h [ ]
In-split x (y ∷ ys) (inl e) = ([], ys, ap (λ z. z ∷ ys) (sym e))
In-split x (y ∷ ys) (inr h) =
    let (before, after, e) = In-split x ys h in (y ∷ before, after, ap (λ zs. y ∷ zs) e)

-- The registrations of the loops from a level on.
pub record Ordered (level : ℕ) (ops : List ComputeOp) (regs : List (ComputeOp × ℕ)) : Type 0 where
  pub in_range : All InRange regs
  pub registers :
      (op : ComputeOp) (pos : ℕ)
      → In op ops
      → level ≤ pos
      → pos < length op.loops
      → In (op, pos) regs

none_left :
    (level : ℕ) (kept : List ComputeOp)
    → All (λ op. level < length op.loops) kept
    → All (LoopsUpTo (level + 0)) kept
    → kept ≡ []
none_left level [] deeper bounded = refl
none_left level (op ∷ ops) deeper bounded =
    absurd (let a = deeper.0 in let b = bounded.0 in omega (arith, a, b))

module _ (level : ℕ) (op : ComputeOp) (ops : List ComputeOp) (regs later : List (ComputeOp × ℕ))
    (kept : List ComputeOp) (passed : Passed level (op ∷ ops) (regs, kept))
    (rest : Ordered (level + 1) kept later) where
  appended-Ordered : Ordered level (op ∷ ops) (regs ++ later)
  appended-Ordered = record {
    in_range = (All-append InRange regs later).1 (passed.in_range, rest.in_range);
    registers = λ x pos h le lt.
        In-append (x, pos) regs later
          (elim (Bool-cases (leb pos level)) [
            | inl low ↦
                (let same : level ≡ pos = ground (arith, low, le) in
                  inl (
                    subst (λ k. In (x, k) regs) same
                      (passed.registers x h (omega (arith, lt, le)))))
            | inr high ↦
                (let above : level + 1 ≤ pos = ground (arith, high) in
                  inr (rest.registers x pos (passed.keeps x h (omega (arith, lt, le))) above lt))
          ]);
  }

-- With as much fuel as there are levels, and one more, the loop over the levels ends, and each loop of
-- each operation is registered.
pub registrations-Ordered :
    (n level : ℕ) (ops : List ComputeOp)
    → All (LoopsUpTo (level + n)) ops
    → (regs : List (ComputeOp × ℕ)) × (registrations (suc n) level ops ≡ some regs)
      × Ordered level ops regs
unfolding registrations
registrations-Ordered n level [] b =
    ([], refl, record { in_range = tt; registers = λ op pos h le lt. elim h [ ] })
registrations-Ordered zero level (op ∷ ops) b =
    let ((regs, kept), e, p) =
      level_pass-Passed (length (op ∷ ops)) level (op ∷ ops) (omega arith) in
    let nothing = none_left level kept p.deeper (p.bounded (level + 0) b) in
    let last : registrations zero (level + 1) kept ≡ some [] =
      subst (λ k. registrations zero (level + 1) k ≡ some []) (sym nothing) refl in
    (
      regs ++ [],
      rw (e, last) refl,
      appended-Ordered level op ops regs [] kept p (record {
        in_range = tt;
        registers = λ x pos h le lt. elim (subst (In x) nothing h) [ ];
      }),
    )
registrations-Ordered (suc n) level (op ∷ ops) b =
    let ((regs, kept), e, p) =
      level_pass-Passed (length (op ∷ ops)) level (op ∷ ops) (omega arith) in
    let bound : All (LoopsUpTo ((level + 1) + n)) kept =
      subst (λ k. All (LoopsUpTo k) kept) (omega arith) (p.bounded (level + suc n) b) in
    let (later, found, rest) = registrations-Ordered n (level + 1) kept bound in
    (regs ++ later, rw (e, found) refl, appended-Ordered level op ops regs later kept p rest)
