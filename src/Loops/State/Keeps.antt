-- ===== src/Loops/State/Keeps.antt =====
-- What one operation does to the loops that are open and closed.
use structured_additive_ir.Common.{
  ℕ, zero, suc, ◌≡◌, refl, sym, ap, ap₂, ◌∙◌, subst, true, false, inl, inr, Bool-cases,
  Option-cases, none, some, List, [], ◌∷◌, ◌++◌, ◌==◌, ==_iff, if◌then◌else◌, arith, mem, ◌>>=◌,
  >>=-eq-some, take, drop, append_assoc, append-nil,
}
use structured_additive_ir.Sequence.Analysis.{common_prefix}
use structured_additive_ir.Loops.State.{
  LoopNestState, close_loops, open_remaining, update, verify_loops_open, SequencedOp, enter_loops,
  verify_op, loops_of,
}

pub take-drop : (n : ℕ) (xs : List ℕ) → take n xs ++ drop n xs ≡ xs
take-drop zero xs = refl
take-drop (suc n) [] = refl
take-drop (suc n) (x ∷ xs) = ap (λ l. x ∷ l) (take-drop n xs)

take-common_prefix :
    (xs ys : List ℕ) → take (common_prefix xs ys) xs ≡ take (common_prefix xs ys) ys
take-common_prefix [] ys = refl
take-common_prefix (x ∷ xs) [] = refl
take-common_prefix (x ∷ xs) (y ∷ ys) = elim (Bool-cases (x == y)) [
  | inl e ↦ rw e (ap₂ (λ a l. a ∷ l) ((==_iff x y).0 e) (take-common_prefix xs ys))
  | inr ne ↦ rw ne refl
]

-- Opening loops that were not closed.
open_remaining-some :
    (names : List ℕ) (s next : LoopNestState)
    → open_remaining names s ≡ some next
    → (next.open_loops ≡ s.open_loops ++ names)
      × (next.closed_loops ≡ s.closed_loops)
      × ((l : ℕ) → mem l names ≡ true → mem l s.closed_loops ≡ false)
unfolding open_remaining
open_remaining-some [] s next h =
    let same : s ≡ next = cc in
    (
      ap (λ r. r.open_loops) (sym same) ∙ sym (append-nil s.open_loops),
      ap (λ r. r.closed_loops) (sym same),
      λ l m. cc,
    )
open_remaining-some (name ∷ names) s next h = elim (Bool-cases (mem name s.closed_loops)) [
  | inl closed ↦ cc (rw closed at h)
  | inr fresh ↦
      (let (opened, closed, rest) =
          open_remaining-some names (record s { open_loops = s.open_loops ++ name ∷ [] }) next
            (rw fresh at h) in
        (
          opened ∙ append_assoc s.open_loops (name ∷ []) names,
          closed,
          λ l m. elim (Bool-cases (l == name)) [
            | inl e ↦ subst (λ x. mem x s.closed_loops ≡ false) (sym ((==_iff l name).0 e)) fresh
            | inr ne ↦ rest l (ground (arith, m, ne))
          ],
        ))
]

-- The operation's loops are the ones open; the others that were open are closed.
pub record Entered (s : LoopNestState) (names : List ℕ) (next : LoopNestState) : Type 0 where
  pub kept : ℕ
  pub open_now : next.open_loops ≡ names
  pub common : take kept names ≡ take kept s.open_loops
  pub closed_now : next.closed_loops ≡ drop kept s.open_loops ++ s.closed_loops
  pub not_closed : (l : ℕ) → mem l (drop kept names) ≡ true → mem l next.closed_loops ≡ false

update-Entered :
    (names : List ℕ) (s next : LoopNestState) → update names s ≡ some next → Entered s names next
unfolding update close_loops
update-Entered names s next h =
    let n = common_prefix names s.open_loops in
    let (opened, closed, fresh) = open_remaining-some (drop n names) (close_loops n s) next h in
    let shared = take-common_prefix names s.open_loops in
    record {
      kept = n;
      open_now = opened ∙ ap (λ l. l ++ drop n names) (sym shared) ∙ take-drop n names;
      common = shared;
      closed_now = closed;
      not_closed = λ l m. ap (mem l) closed ∙ fresh l m;
    }

close_loops-Entered : (s : LoopNestState) → Entered s [] (close_loops 0 s)
unfolding close_loops
close_loops-Entered s = record {
  kept = 0;
  open_now = refl;
  common = refl;
  closed_now = refl;
  not_closed = λ l m. cc;
}

enter_loops-Entered :
    (op : SequencedOp) (s next : LoopNestState)
    → enter_loops op s ≡ some next
    → Entered s (loops_of op) next
unfolding enter_loops
enter_loops-Entered op s next h = elim (Option-cases op.loop_nest) [
  | inl e ↦
      (let value : some (close_loops 0 s) ≡ some next = simp (e, enter_loops) at h in
        let same : close_loops 0 s ≡ next = cc in
        simp (e, loops_of) (subst (Entered s []) same (close_loops-Entered s)))
  | inr (names, e) ↦
      (let chain : (update names s >>= λ x. if op.ranges_defined then some x else none)
            ≡ some next =
          simp (e, enter_loops) at h in
        let (entered, u, r) = >>=-eq-some (update names s) _ chain in
        elim (Bool-cases op.ranges_defined) [
          | inl good ↦
              (let value : some entered ≡ some next = simp good at r in
                let same : entered ≡ next = cc in
                simp (e, loops_of)
                  (subst (Entered s names) same (update-Entered names s entered u)))
          | inr bad ↦ cc (simp bad at r)
        ])
]

-- An accepted operation has entered its loops, and the ones that it needs open were opened.
pub verify_op-Entered :
    (op : SequencedOp) (s next : LoopNestState)
    → verify_op op s ≡ some next
    → Entered s (loops_of op) next × (verify_loops_open op.needs_open next ≡ true)
unfolding verify_op
verify_op-Entered op s next h =
    let (entered, e, r) = >>=-eq-some (enter_loops op s) _ h in
    elim (Bool-cases (verify_loops_open op.needs_open entered)) [
      | inl good ↦
          (let value : some entered ≡ some next = rw good at r in
            let same : entered ≡ next = cc in
            subst (λ x. Entered s (loops_of op) x × (verify_loops_open op.needs_open x ≡ true)) same
              (enter_loops-Entered op s entered e, good))
      | inr bad ↦ cc (rw bad at r)
    ]
