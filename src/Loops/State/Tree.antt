-- ===== src/Loops/State/Tree.antt =====
-- The loop structure that `VerifyLoopNests` accepts.
use structured_additive_ir.Common.{
  ℕ, ◌≡◌, refl, sym, ap, ◌∙◌, subst, true, false, ◌||◌, ◌⊎◌, inl, inr, Bool-cases, some, List, [],
  ◌∷◌, ◌++◌, ◌==◌, if◌then◌else◌, arith, mem, mem-append, Distinct, All, >>=-eq-some, take, drop,
}
use structured_additive_ir.Sequence.Analysis.Positions.{Distinct-apart}
use structured_additive_ir.Loops.State.{
  LoopNestState, initial_state, SequencedOp, verify_op, verify_sequence, loops_of,
}
use structured_additive_ir.Loops.State.Keeps.{take-drop, Entered, verify_op-Entered}

-- The loops that are open are distinct and not closed.
record Ready (s : LoopNestState) : Type 0 where
  once : Distinct s.open_loops
  apart : (l : ℕ) → mem l s.open_loops ≡ true → mem l s.closed_loops ≡ false

-- The loops of the list outside of a loop.
abbrev pub outer_loops : ℕ → List ℕ → List ℕ
outer_loops l [] = []
outer_loops l (x ∷ xs) = let rest = outer_loops l xs in if l == x then [] else x ∷ rest

outer_loops-append :
    (l : ℕ) (xs ys : List ℕ) → mem l xs ≡ true → outer_loops l (xs ++ ys) ≡ outer_loops l xs
outer_loops-append l [] ys m = cc
outer_loops-append l (x ∷ xs) ys m = elim (Bool-cases (l == x)) [
  | inl e ↦ rw e refl
  | inr ne ↦ rw ne (ap (λ r. x ∷ r) (outer_loops-append l xs ys (ground (arith, m, ne))))
]

-- The first elements of a list, or the others.
take-or-drop :
    (n l : ℕ) (xs : List ℕ)
    → mem l xs ≡ true
    → (mem l (take n xs) ≡ true) ⊎ (mem l (drop n xs) ≡ true)
take-or-drop n l xs m =
    let whole : (mem l (take n xs) || mem l (drop n xs)) ≡ true =
      sym (mem-append l (take n xs) (drop n xs)) ∙ ap (mem l) (take-drop n xs) ∙ m in
    elim (Bool-cases (mem l (take n xs))) [
      | inl a ↦ inl a
      | inr na ↦ inr (ground (arith, whole, na))
    ]

mem-take : (n l : ℕ) (xs : List ℕ) → mem l (take n xs) ≡ true → mem l xs ≡ true
mem-take n l xs m =
    ap (mem l) (sym (take-drop n xs)) ∙ mem-append l (take n xs) (drop n xs) ∙ ground (arith, m)

module _ (s next : LoopNestState) (names : List ℕ) (r : Ready s)
    (entered : Entered s names next) where
  open entered use {kept, open_now, common, closed_now, not_closed}

  mem-closed_now :
      (l : ℕ) → mem l next.closed_loops ≡ (mem l (drop kept s.open_loops) || mem l s.closed_loops)
  mem-closed_now l = ap (mem l) closed_now ∙ mem-append l (drop kept s.open_loops) s.closed_loops

  not_closed-common : (l : ℕ) → mem l (take kept names) ≡ true → mem l next.closed_loops ≡ false
  not_closed-common l m =
      let before : mem l (take kept s.open_loops) ≡ true = ap (mem l) (sym common) ∙ m in
      let open_before = r.apart l (mem-take kept l s.open_loops before) in
      let inside : mem l (drop kept s.open_loops) ≡ false =
        elim (Bool-cases (mem l (drop kept s.open_loops))) [
          | inl bad ↦ cc (
            Distinct-apart l (take kept s.open_loops) (drop kept s.open_loops)
                (subst Distinct (sym (take-drop kept s.open_loops)) r.once) bad,
            before,
          )
          | inr good ↦ good
        ] in
      mem-closed_now l ∙ ground (arith, inside, open_before)

  entered-Ready : Distinct names → Ready next
  entered-Ready d = record {
    once = subst Distinct (sym open_now) d;
    apart = λ l m. elim (take-or-drop kept l names (ap (mem l) (sym open_now) ∙ m)) [
      | inl outside ↦ not_closed-common l outside
      | inr inside ↦ not_closed l inside
    ];
  }

  still_closed : (l : ℕ) → mem l s.closed_loops ≡ true → mem l next.closed_loops ≡ true
  still_closed l m = mem-closed_now l ∙ ground (arith, m)

  -- An open loop stays open in the same loops, or is closed.
  open-or-closed :
      (l : ℕ)
      → mem l s.open_loops ≡ true
      → ((mem l names ≡ true) × (outer_loops l s.open_loops ≡ outer_loops l names))
        ⊎ (mem l next.closed_loops ≡ true)
  open-or-closed l m = elim (take-or-drop kept l s.open_loops m) [
    | inl outside ↦
        (let also : mem l (take kept names) ≡ true = ap (mem l) common ∙ outside in
          inl (
            mem-take kept l names also,
            ap (outer_loops l) (sym (take-drop kept s.open_loops))
                ∙ outer_loops-append l (take kept s.open_loops) (drop kept s.open_loops) outside
                ∙ ap (outer_loops l) (sym common)
                ∙ sym (outer_loops-append l (take kept names) (drop kept names) also)
                ∙ ap (outer_loops l) (take-drop kept names),
          ))
    | inr inside ↦ inr (mem-closed_now l ∙ ground (arith, inside))
  ]

abbrev pub DistinctLoops : SequencedOp → Type 0
DistinctLoops op = Distinct (loops_of op)

-- A closed loop does not occur again.
closed-absent :
    (l : ℕ) (ops : List SequencedOp) (s f : LoopNestState)
    → Ready s
    → All DistinctLoops ops
    → mem l s.closed_loops ≡ true
    → verify_sequence ops s ≡ some f
    → All (λ op. mem l (loops_of op) ≡ false) ops
unfolding verify_sequence
closed-absent l [] s f r d m h = tt
closed-absent l (op ∷ ops) s f r d m h =
    let (next, e, rest) = >>=-eq-some (verify_op op s) _ h in
    let entered = (verify_op-Entered op s next e).0 in
    let r' = entered-Ready s next (loops_of op) r entered d.0 in
    let m' = still_closed s next (loops_of op) r entered l m in
    (
      elim (Bool-cases (mem l (loops_of op))) [
        | inl bad ↦ cc (r'.apart l (ap (mem l) entered.open_now ∙ bad), m')
        | inr good ↦ good
      ],
      closed-absent l ops next f r' d.1 m' rest,
    )

All-append-middle :
    (P : SequencedOp → Type 0) (xs : List SequencedOp) (y : SequencedOp) (zs : List SequencedOp)
    → All P (xs ++ y ∷ zs)
    → P y
All-append-middle P [] y zs h = h.0
All-append-middle P (x ∷ xs) y zs h = All-append-middle P xs y zs h.1

-- From an open loop on, to its last occurrence.
open-until :
    (l : ℕ) (middle : List SequencedOp) (last : SequencedOp) (later : List SequencedOp)
    (s f : LoopNestState)
    → Ready s
    → All DistinctLoops (middle ++ last ∷ later)
    → mem l s.open_loops ≡ true
    → verify_sequence (middle ++ last ∷ later) s ≡ some f
    → mem l (loops_of last) ≡ true
    → All (λ op. mem l (loops_of op) ≡ true) middle
      × (outer_loops l s.open_loops ≡ outer_loops l (loops_of last))
unfolding verify_sequence
open-until l [] last later s f r d m h at_last =
    let (next, e, rest) = >>=-eq-some (verify_op last s) _ h in
    let entered = (verify_op-Entered last s next e).0 in
    let r' = entered-Ready s next (loops_of last) r entered d.0 in
    elim (open-or-closed s next (loops_of last) r entered l m) [
      | inl (here, same) ↦ (tt, same)
      | inr closed ↦ cc (r'.apart l (ap (mem l) entered.open_now ∙ at_last), closed)
    ]
open-until l (op ∷ ops) last later s f r d m h at_last =
    let (next, e, rest) = >>=-eq-some (verify_op op s) _ h in
    let entered = (verify_op-Entered op s next e).0 in
    let r' = entered-Ready s next (loops_of op) r entered d.0 in
    elim (open-or-closed s next (loops_of op) r entered l m) [
      | inl (here, same) ↦
          (let (others, outer) =
              open-until l ops last later next f r' d.1 (ap (mem l) entered.open_now ∙ here) rest
                at_last in
            ((here, others), same ∙ ap (outer_loops l) (sym entered.open_now) ∙ outer))
      | inr closed ↦ cc (
        All-append-middle _ ops last later
            (closed-absent l (ops ++ last ∷ later) next f r' d.1 closed rest),
        at_last,
      )
    ]

initial-Ready : Ready initial_state
initial-Ready = record { once = tt; apart = λ l m. refl }

tree_from :
    (l : ℕ) (earlier : List SequencedOp) (first : SequencedOp) (middle : List SequencedOp)
    (last : SequencedOp) (later : List SequencedOp) (s f : LoopNestState)
    → Ready s
    → All DistinctLoops (earlier ++ (first ∷ (middle ++ last ∷ later)))
    → verify_sequence (earlier ++ (first ∷ (middle ++ last ∷ later))) s ≡ some f
    → mem l (loops_of first) ≡ true
    → mem l (loops_of last) ≡ true
    → All (λ op. mem l (loops_of op) ≡ true) middle
      × (outer_loops l (loops_of first) ≡ outer_loops l (loops_of last))
unfolding verify_sequence
tree_from l [] first middle last later s f r d h at_first at_last =
    let (next, e, rest) = >>=-eq-some (verify_op first s) _ h in
    let entered = (verify_op-Entered first s next e).0 in
    let r' = entered-Ready s next (loops_of first) r entered d.0 in
    let (others, outer) =
      open-until l middle last later next f r' d.1 (ap (mem l) entered.open_now ∙ at_first) rest
        at_last in
    (others, ap (outer_loops l) (sym entered.open_now) ∙ outer)
tree_from l (op ∷ ops) first middle last later s f r d h at_first at_last =
    let (next, e, rest) = >>=-eq-some (verify_op op s) _ h in
    tree_from l ops first middle last later next f
      (entered-Ready s next (loops_of op) r (verify_op-Entered op s next e).0 d.0) d.1 rest at_first
      at_last

-- Where VerifyLoopNests accepts a sequence of operations, each with distinct loops, every operation
-- between two operations in a loop is in that loop too, and the loop is in the same outer loops at
-- both.
pub verify_sequence-tree :
    (l : ℕ) (earlier : List SequencedOp) (first : SequencedOp) (middle : List SequencedOp)
    (last : SequencedOp) (later : List SequencedOp) (final : LoopNestState)
    → All DistinctLoops (earlier ++ (first ∷ (middle ++ last ∷ later)))
    → verify_sequence (earlier ++ (first ∷ (middle ++ last ∷ later))) initial_state ≡ some final
    → mem l (loops_of first) ≡ true
    → mem l (loops_of last) ≡ true
    → All (λ op. mem l (loops_of op) ≡ true) middle
      × (outer_loops l (loops_of first) ≡ outer_loops l (loops_of last))
verify_sequence-tree l earlier first middle last later final =
    tree_from l earlier first middle last later initial_state final initial-Ready
