-- ===== src/Common/Members.antt =====
-- Sets of numbers as lists: the sets and set vectors of the source.
use Prim.Native.Nat.{ℕ, suc, ◌≤◌}
use mathlib.Core.Path.{◌≡◌, refl}
use mathlib.Core.Logic.{inl, inr}
use mathlib.Core.Bool.{Bool, true, false, ◌||◌}
use mathlib.Core.List.{List, [], ◌∷◌, ◌++◌}
use native.Mathlib.Omega.{arith}
use structured_additive_ir.Common.Tests.{◌==◌, ==_iff, if◌then◌else◌, Bool-cases}
use structured_additive_ir.Common.Lists.{length}

abbrev pub mem : ℕ → List ℕ → Bool
mem a [] = false
mem a (x ∷ xs) = a == x || mem a xs

abbrev pub Distinct : List ℕ → Type 0
Distinct [] = Unit
Distinct (x ∷ xs) = (mem x xs ≡ false) × Distinct xs

-- Every element of the first list is in the second.
abbrev pub Subset : List ℕ → List ℕ → Type 0
Subset xs ys = (a : ℕ) → mem a xs ≡ true → mem a ys ≡ true

pub mem-append : (a : ℕ) (xs ys : List ℕ) → mem a (xs ++ ys) ≡ (mem a xs || mem a ys)
mem-append a [] ys = refl
mem-append a (x ∷ xs) ys = ground (arith, mem-append a xs ys)

pub remove : ℕ → List ℕ → List ℕ
remove a [] = []
remove a (x ∷ xs) = if a == x then xs else x ∷ remove a xs

length-remove : (a : ℕ) (xs : List ℕ) → mem a xs ≡ true → suc (length (remove a xs)) ≡ length xs
unfolding remove
length-remove a [] h = cc
length-remove a (x ∷ xs) h = ground (arith, length-remove a xs)

mem-remove :
    (a b : ℕ) (xs : List ℕ) → mem b xs ≡ true → (b == a) ≡ false → mem b (remove a xs) ≡ true
unfolding remove
mem-remove a b [] h ne = cc
mem-remove a b (x ∷ xs) h ne = ground (arith, mem-remove a b xs)

-- A list with no repetition is no longer than one that holds its elements.
pub length-le_of_subset : (xs ys : List ℕ) → Distinct xs → Subset xs ys → length xs ≤ length ys
length-le_of_subset [] ys d s = omega arith
length-le_of_subset (x ∷ xs) ys d s =
    let here : mem x ys ≡ true = s x (ground arith) in
    let rest =
      length-le_of_subset xs (remove x ys) d.1
        λ a m. mem-remove x a ys (s a (ground arith)) (ground (arith, distinct a m)) in
    omega (arith, length-remove x ys here)
  where
    distinct : (a : ℕ) → mem a xs ≡ true → (a == x) ≡ false
    distinct a m = elim (Bool-cases (a == x)) [
      | inl e ↦ cc (rw ((==_iff a x).0 e) at m, d.0)
      | inr ne ↦ ne
    ]
