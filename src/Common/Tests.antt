-- ===== src/Common/Tests.antt =====
-- Boolean tests on numbers and texts, the conditional, and splits that keep an equation.
use Prim.Native.Nat.{ℕ, compare, Ordering}
use Prim.Native.String.{String}
use mathlib.Core.Path.{◌≡◌, refl}
use mathlib.Core.Logic.{◌≢◌, ◌⊎◌, inl, inr}
use mathlib.Core.Bool.{Bool, true, false}
use mathlib.Core.Option.{Option, none, some}
use native.Mathlib.Omega.{arith}
use text.Mathlib.Text.{◌==◌ as str_eq}
use text.Mathlib.TextEquality.{eq_iff}

abbrev pub ltb : ℕ → ℕ → Bool
ltb a b = elim (compare a b) [ Ordering.lt ↦ true | _ ↦ false ]

abbrev pub leb : ℕ → ℕ → Bool
leb a b = elim (compare a b) [ Ordering.gt ↦ false | _ ↦ true ]

-- `==` on numbers
abbrev pub nat_eq : ℕ → ℕ → Bool
nat_eq a b = elim (compare a b) [ Ordering.eq ↦ true | _ ↦ false ]

infix 1 if◌then◌else◌
abbrev pub if◌then◌else◌ {ℓ} : {A : Type ℓ} → Bool → A → A → A
if true then x else y = x
if false then x else y = y

pub Bool-cases : (b : Bool) → (b ≡ true) ⊎ (b ≡ false)
Bool-cases true = inl refl
Bool-cases false = inr refl

pub Option-cases {ℓ} : {A : Type ℓ} (o : Option A) → (o ≡ none) ⊎ ((a : A) × (o ≡ some a))
Option-cases none = inl refl
Option-cases (some a) = inr (a, refl)

dec_of_bool : (s t : String) (b : Bool) → str_eq s t ≡ b → Dec (s ≡ t)
dec_of_bool s t true e = yes ((eq_iff s t).0 e)
dec_of_bool s t false e = no (λ p. ground (arith, eq_iff s t))

-- Equality of texts is decided, so that a split on a test brings its meaning with it.
unfoldable pub String_discrete : Discrete String
unfolding dec_of_bool
String_discrete s t = dec_of_bool s t (str_eq s t) refl

-- `==` on texts
infix 50 ◌==◌
abbrev pub ◌==◌ : String → String → Bool
s == t = elim (String_discrete s t) [ yes _ ↦ true | no _ ↦ false ]

-- Two literals that differ; at literals `differ` is `refl`.
pub ne_of_differ : (s t : String) (differ : str_eq s t ≡ false) → s ≢ t
ne_of_differ s t differ e = ground (arith, eq_iff s t)

pub eq_self : (s : String) → (s == s) ≡ true
eq_self s = ground arith

pub eq_true : (s t : String) → s ≡ t → (s == t) ≡ true
eq_true s t h = ground arith

pub eq_false : (s t : String) → s ≢ t → (s == t) ≡ false
eq_false s t h = ground arith
