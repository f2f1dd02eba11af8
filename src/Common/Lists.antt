-- ===== src/Common/Lists.antt =====
-- Lists measured by native numbers, searched and updated by Boolean tests.
use Prim.Native.Nat.{ℕ, zero, suc, ◌≤◌}
use mathlib.Core.Path.{◌≡◌, refl, sym, ap, subst}
use mathlib.Core.Logic.{◌⊎◌, inl, inr}
use mathlib.Core.Bool.{Bool, true, false, ◌||◌}
use mathlib.Core.Option.{Option, none, some}
use mathlib.Core.List.{List, [], ◌∷◌, ◌++◌}
use native.Mathlib.Omega.{arith}
use file_storage_bucket.Common.Tests.{Bool-cases}

module _ {ℓ} {A : Type ℓ} where
  abbrev pub length : List A → ℕ
  length [] = 0
  length (x ∷ xs) = suc (length xs)

  abbrev pub take : ℕ → List A → List A
  take zero xs = []
  take (suc n) [] = []
  take (suc n) (x ∷ xs) = x ∷ take n xs

  abbrev pub replicate : ℕ → A → List A
  replicate zero a = []
  replicate (suc n) a = a ∷ replicate n a

  -- the first element that passes the test
  abbrev pub find? : (A → Bool) → List A → Option A
  find? p [] = none
  find? p (x ∷ xs) = elim (p x) [ true ↦ some x | false ↦ find? p xs ]

  abbrev pub select : (A → Bool) → List A → List A
  select p [] = []
  select p (x ∷ xs) = elim (p x) [ true ↦ x ∷ select p xs | false ↦ select p xs ]

  abbrev pub any : (A → Bool) → List A → Bool
  any p [] = false
  any p (x ∷ xs) = p x || any p xs

  -- rewrites the elements that pass the test
  abbrev pub modify_where : (A → Bool) → (A → A) → List A → List A
  modify_where p f [] = []
  modify_where p f (x ∷ xs) = elim (p x) [ true ↦ f x | false ↦ x ] ∷ modify_where p f xs

module _ {ℓ} {A : Type ℓ} where
  pub length-take : (n : ℕ) (xs : List A) → n ≤ length xs → length (take n xs) ≡ n
  length-take zero xs h = refl
  length-take (suc n) [] h = omega arith
  length-take (suc n) (x ∷ xs) h = ap suc (length-take n xs (omega arith))

  pub length-take_bound : (n : ℕ) (xs : List A) → length (take n xs) ≤ n
  length-take_bound zero xs = omega arith
  length-take_bound (suc n) [] = omega arith
  length-take_bound (suc n) (x ∷ xs) = let h = length-take_bound n xs in omega arith

module _ {ℓ κ} {A : Type ℓ} where
  abbrev pub All : (A → Type κ) → List A → Type κ
  All P [] = Unit
  All P (x ∷ xs) = P x × All P xs

  pub All-modify_where :
      (P : A → Type κ) (p : A → Bool) (f : A → A) (xs : List A)
      → ((x : A) → p x ≡ true → P x → P (f x))
      → All P xs
      → All P (modify_where p f xs)
  All-modify_where P p f [] k h = tt
  All-modify_where P p f (x ∷ xs) k (here, later) = elim (Bool-cases (p x)) [
    | inl hit ↦ rw hit (k x hit here, All-modify_where P p f xs k later)
    | inr miss ↦ rw miss (here, All-modify_where P p f xs k later)
  ]

  pub All-concat : (P : A → Type κ) (xs : List A) (x : A) → All P xs → P x → All P (xs ++ x ∷ [])
  All-concat P [] x h k = (k, tt)
  All-concat P (y ∷ xs) x (here, later) k = (here, All-concat P xs x later k)

module _ {A : Type 0} where
  -- membership, with its place
  abbrev pub In : A → List A → Type 0
  In a [] = ⊥
  In a (x ∷ xs) = (a ≡ x) ⊎ In a xs

  pub find?_sound :
      (p : A → Bool) (xs : List A) (a : A) → find? p xs ≡ some a → (p a ≡ true) × In a xs
  find?_sound p [] a h = cc
  find?_sound p (x ∷ xs) a h = ground (arith, find?_sound p xs a)

  pub In-select : (p : A → Bool) (xs : List A) (a : A) → In a (select p xs) → (p a ≡ true) × In a xs
  In-select p [] a h = absurd h
  In-select p (x ∷ xs) a h = ground (arith, In-select p xs a)

  pub All-In {κ} : (P : A → Type κ) (xs : List A) (a : A) → All P xs → In a xs → P a
  All-In P [] a h k = absurd k
  All-In P (x ∷ xs) a (here, later) (inl e) = subst P (sym e) here
  All-In P (x ∷ xs) a (here, later) (inr k) = All-In P xs a later k

  pub select-none : (p : A → Bool) (xs : List A) → All (λ x. p x ≡ false) xs → select p xs ≡ []
  select-none p [] h = refl
  select-none p (x ∷ xs) (here, later) = ground (arith, select-none p xs later)
