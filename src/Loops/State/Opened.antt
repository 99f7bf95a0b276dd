-- ===== src/Loops/State/Opened.antt =====
-- The loops that the verification has seen so far.
use structured_additive_ir.Common.{
  ℕ, ◌≡◌, sym, ap, ◌∙◌, subst, true, ◌||◌, Bool-cases, inl, inr, some, List, [], ◌∷◌, ◌++◌, arith,
  mem, mem-append, All, >>=-eq-some, take, drop, append_assoc,
}
use structured_additive_ir.Loops.State.{
  LoopNestState, initial_state, SequencedOp, verify_loops_open, verify_op, verify_sequence,
  loops_of,
}
use structured_additive_ir.Loops.State.Keeps.{take-drop, Entered, verify_op-Entered}

-- The loops of the operations, in order.
abbrev pub loops_of_all : List SequencedOp → List ℕ
loops_of_all [] = []
loops_of_all (op ∷ ops) = loops_of op ++ loops_of_all ops

-- The loops that are open or closed are among the given ones.
abbrev Seen : List ℕ → LoopNestState → Type 0
Seen names s = (l : ℕ) → (mem l s.open_loops || mem l s.closed_loops) ≡ true → mem l names ≡ true

mem-drop : (n l : ℕ) (xs : List ℕ) → mem l (drop n xs) ≡ true → mem l xs ≡ true
mem-drop n l xs m =
    ap (mem l) (sym (take-drop n xs)) ∙ mem-append l (take n xs) (drop n xs) ∙ ground (arith, m)

Entered-Seen :
    (names seen : List ℕ) (s next : LoopNestState)
    → Entered s names next
    → Seen seen s
    → Seen (seen ++ names) next
Entered-Seen names seen s next entered before l m =
    let now : (mem l names || mem l next.closed_loops) ≡ true =
      subst (λ o. (mem l o || mem l next.closed_loops) ≡ true) entered.open_now m in
    let closed : mem l next.closed_loops
        ≡ (mem l (drop entered.kept s.open_loops) || mem l s.closed_loops) =
      ap (mem l) entered.closed_now
      ∙ mem-append l (drop entered.kept s.open_loops) s.closed_loops in
    mem-append l seen names ∙ elim (Bool-cases (mem l names)) [
      | inl here ↦ ground (arith, here)
      | inr absent ↦
          (let old : (mem l (drop entered.kept s.open_loops) || mem l s.closed_loops) ≡ true =
              sym closed ∙ ground (arith, now, absent) in
            let was : (mem l s.open_loops || mem l s.closed_loops) ≡ true =
              elim (Bool-cases (mem l (drop entered.kept s.open_loops))) [
                | inl inner ↦ ground (arith, mem-drop entered.kept l s.open_loops inner)
                | inr outer ↦ ground (arith, old, outer)
              ] in
            ground (arith, before l was))
    ]

verify_loops_open-All :
    (needs names : List ℕ) (s : LoopNestState)
    → Seen names s
    → verify_loops_open needs s ≡ true
    → All (λ l. mem l names ≡ true) needs
unfolding verify_loops_open
verify_loops_open-All [] names s seen h = tt
verify_loops_open-All (need ∷ needs) names s seen h =
    (seen need (ground (arith, h)), verify_loops_open-All needs names s seen (ground (arith, h)))

opened_from :
    (seen : List ℕ) (earlier : List SequencedOp) (op : SequencedOp) (later : List SequencedOp)
    (s f : LoopNestState)
    → Seen seen s
    → verify_sequence (earlier ++ op ∷ later) s ≡ some f
    → All (λ l. mem l (seen ++ (loops_of_all earlier ++ loops_of op)) ≡ true) op.needs_open
unfolding verify_sequence
opened_from seen [] op later s f before h =
    let (next, e, rest) = >>=-eq-some (verify_op op s) _ h in
    let (entered, opened) = verify_op-Entered op s next e in
    verify_loops_open-All op.needs_open (seen ++ loops_of op) next
      (Entered-Seen (loops_of op) seen s next entered before) opened
opened_from seen (x ∷ xs) op later s f before h =
    let (next, e, rest) = >>=-eq-some (verify_op x s) _ h in
    let entered = (verify_op-Entered x s next e).0 in
    let tail =
      opened_from (seen ++ loops_of x) xs op later next f
        (Entered-Seen (loops_of x) seen s next entered before) rest in
    subst (λ ls. All (λ l. mem l ls ≡ true) op.needs_open)
      (append_assoc seen (loops_of x) (loops_of_all xs ++ loops_of op)
        ∙ ap (λ ls. seen ++ ls) (sym (append_assoc (loops_of x) (loops_of_all xs) (loops_of op))))
      tail

-- Where VerifyLoopNests accepts a sequence of operations, each loop that the operands or the domain
-- of an operation need open is a loop of that operation or of an earlier one.
pub verify_sequence-opened :
    (earlier : List SequencedOp) (op : SequencedOp) (later : List SequencedOp)
    (final : LoopNestState)
    → verify_sequence (earlier ++ op ∷ later) initial_state ≡ some final
    → All (λ l. mem l (loops_of_all earlier ++ loops_of op) ≡ true) op.needs_open
verify_sequence-opened earlier op later final =
    opened_from [] earlier op later initial_state final (λ l m. cc)
