-- ===== src/Common/Lists.antt =====
-- Lists under native indices.
use Prim.Native.Nat.{ℕ, zero, suc, ◌+◌, ◌-◌, ◌≤◌, ◌<◌}
use mathlib.Core.Path.{◌≡◌, refl, ap, ap₂}
use mathlib.Core.Option.{Option, none, some}
use mathlib.Core.Logic.{◌↔◌, ◌⊎◌, inl, inr}
use mathlib.Core.List.{List, [], ◌∷◌, ◌++◌, map}
use native.Mathlib.Omega.{arith}
use structured_additive_ir.Common.Tests.{◌==◌, leb, if◌then◌else◌}

module _ {ℓ} {A : Type ℓ} where
  abbrev pub length : List A → ℕ
  length [] = 0
  length (x ∷ xs) = suc (length xs)

  abbrev pub get_elem? : List A → ℕ → Option A
  get_elem? [] i = none
  get_elem? (x ∷ xs) zero = some x
  get_elem? (x ∷ xs) (suc i) = get_elem? xs i

  abbrev pub get_or : List A → ℕ → A → A
  get_or [] i d = d
  get_or (x ∷ xs) zero d = x
  get_or (x ∷ xs) (suc i) d = get_or xs i d

  -- A write out of bounds changes nothing.
  abbrev pub set : List A → ℕ → A → List A
  set [] i v = []
  set (x ∷ xs) zero v = v ∷ xs
  set (x ∷ xs) (suc i) v = x ∷ set xs i v

  abbrev pub take : ℕ → List A → List A
  take zero xs = []
  take (suc n) [] = []
  take (suc n) (x ∷ xs) = x ∷ take n xs

  abbrev pub drop : ℕ → List A → List A
  drop zero xs = xs
  drop (suc n) [] = []
  drop (suc n) (x ∷ xs) = drop n xs

  abbrev pub replicate : ℕ → A → List A
  replicate zero x = []
  replicate (suc n) x = x ∷ replicate n x

  pub length-append : (xs ys : List A) → length (xs ++ ys) ≡ length xs + length ys
  length-append [] ys = omega arith
  length-append (x ∷ xs) ys = omega (arith, length-append xs ys)

  pub length-set : (xs : List A) (i : ℕ) (v : A) → length (set xs i v) ≡ length xs
  length-set [] i v = refl
  length-set (x ∷ xs) zero v = refl
  length-set (x ∷ xs) (suc i) v = ap suc (length-set xs i v)

  pub length-replicate : (n : ℕ) (x : A) → length (replicate n x) ≡ n
  length-replicate zero x = refl
  length-replicate (suc n) x = ap suc (length-replicate n x)

pub length-map {ℓ κ} :
    {A : Type ℓ} {B : Type κ} (f : A → B) (xs : List A) → length (map f xs) ≡ length xs
length-map f [] = refl
length-map f (x ∷ xs) = ap suc (length-map f xs)

-- A property of every element.
abbrev pub All {ℓ κ} : {A : Type ℓ} → (A → Type κ) → List A → Type κ
All P [] = Unit
All P (x ∷ xs) = P x × All P xs

pub All-append {ℓ κ} :
    {A : Type ℓ} (P : A → Type κ) (xs ys : List A) → All P (xs ++ ys) ↔ (All P xs × All P ys)
All-append P [] ys = (λ h. (tt, h), λ h. h.1)
All-append P (x ∷ xs) ys = (
  λ h. let (hx, hy) = (All-append P xs ys).0 h.1 in ((h.0, hx), hy),
  λ h. (h.0.0, (All-append P xs ys).1 (h.0.1, h.1)),
)

module _ {ℓ} {A : Type ℓ} where
  pub get_or-map {κ} :
      {B : Type κ} (f : A → B) (xs : List A) (i : ℕ) (a : A)
      → get_or (map f xs) i (f a) ≡ f (get_or xs i a)
  get_or-map f [] i a = refl
  get_or-map f (x ∷ xs) zero a = refl
  get_or-map f (x ∷ xs) (suc i) a = get_or-map f xs i a

  pub get_or_of_le : (xs : List A) (i : ℕ) (a : A) → length xs ≤ i → get_or xs i a ≡ a
  get_or_of_le [] i a h = refl
  get_or_of_le (x ∷ xs) zero a h = absurd (omega arith)
  get_or_of_le (x ∷ xs) (suc i) a h = get_or_of_le xs i a (omega arith)

  pub get_or-set :
      (xs : List A) (i j : ℕ) (v a : A)
      → i < length xs
      → get_or (set xs i v) j a ≡ (if j == i then v else get_or xs j a)
  get_or-set [] i j v a h = absurd (omega arith)
  get_or-set (x ∷ xs) zero zero v a h = refl
  get_or-set (x ∷ xs) zero (suc j) v a h = ground arith
  get_or-set (x ∷ xs) (suc i) zero v a h = ground arith
  get_or-set (x ∷ xs) (suc i) (suc j) v a h = ground (arith, get_or-set xs i j v a)

  pub get_or-replicate : (n i : ℕ) (a : A) → get_or (replicate n a) i a ≡ a
  get_or-replicate zero i a = refl
  get_or-replicate (suc n) zero a = refl
  get_or-replicate (suc n) (suc i) a = get_or-replicate n i a

module _ {ℓ κ} {A : Type ℓ} {B : Type κ} where
  pub map-congr : (f g : A → B) (xs : List A) → All (λ x. f x ≡ g x) xs → map f xs ≡ map g xs
  map-congr f g [] h = refl
  map-congr f g (x ∷ xs) h = ap₂ ◌∷◌ h.0 (map-congr f g xs h.1)

  pub All-map {μ} :
      (P : B → Type μ) (f : A → B) (xs : List A) → All (λ x. P (f x)) xs → All P (map f xs)
  All-map P f [] h = tt
  All-map P f (x ∷ xs) h = (h.0, All-map P f xs h.1)

module _ {ℓ} {A : Type ℓ} where
  pub All-imp {κ μ} :
      (P : A → Type κ) (Q : A → Type μ) (xs : List A) → ((x : A) → P x → Q x) → All P xs → All Q xs
  All-imp P Q [] f h = tt
  All-imp P Q (x ∷ xs) f h = (f x h.0, All-imp P Q xs f h.1)

  pub All-of {κ} : (P : A → Type κ) (xs : List A) → ((x : A) → P x) → All P xs
  All-of P [] f = tt
  All-of P (x ∷ xs) f = (f x, All-of P xs f)

  pub All-get_or {κ} :
      (P : A → Type κ) (xs : List A) (i : ℕ) (a : A) → i < length xs → All P xs → P (get_or xs i a)
  All-get_or P [] i a h all = absurd (omega arith)
  All-get_or P (x ∷ xs) zero a h all = all.0
  All-get_or P (x ∷ xs) (suc i) a h all = All-get_or P xs i a (omega arith) all.1

  pub All-get_or_default {κ} :
      (P : A → Type κ) (xs : List A) (i : ℕ) (a : A) → P a → All P xs → P (get_or xs i a)
  All-get_or_default P [] i a h all = h
  All-get_or_default P (x ∷ xs) zero a h all = all.0
  All-get_or_default P (x ∷ xs) (suc i) a h all = All-get_or_default P xs i a h all.1

  pub All-take {κ} : (P : A → Type κ) (n : ℕ) (xs : List A) → All P xs → All P (take n xs)
  All-take P zero xs h = tt
  All-take P (suc n) [] h = tt
  All-take P (suc n) (x ∷ xs) h = (h.0, All-take P n xs h.1)

  pub All-replicate {κ} : (P : A → Type κ) (n : ℕ) (a : A) → P a → All P (replicate n a)
  All-replicate P zero a h = tt
  All-replicate P (suc n) a h = (h, All-replicate P n a h)

  pub get_or-append :
      (xs ys : List A) (i : ℕ) (a : A)
      → get_or (xs ++ ys) i a
        ≡ (if leb (length xs) i then get_or ys (i - length xs) a else get_or xs i a)
  get_or-append [] ys i a = ground arith
  get_or-append (x ∷ xs) ys zero a = ground arith
  get_or-append (x ∷ xs) ys (suc i) a = ground (arith, get_or-append xs ys i a)

  pub List-cases : (xs : List A) → (xs ≡ []) ⊎ ((x : A) × (rest : List A) × (xs ≡ x ∷ rest))
  List-cases [] = inl refl
  List-cases (x ∷ xs) = inr (x, xs, refl)
