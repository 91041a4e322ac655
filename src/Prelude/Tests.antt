-- ===== src/Prelude/Tests.antt =====
-- Boolean tests on the native numbers, the conditional, and splits on a computed value.
use Prim.Native.Nat.{ℕ, compare, Ordering}
use mathlib.Core.Path.{◌≡◌, refl}
use mathlib.Core.Logic.{◌↔◌, ◌⊎◌, inl, inr}
use mathlib.Core.Bool.{Bool, true, false, ◌&&◌, ◌||◌}
use mathlib.Core.Option.{Option, none, some}
use native.Mathlib.Omega.{arith}

abbrev pub ltb : ℕ → ℕ → Bool
ltb a b = elim (compare a b) [ Ordering.lt ↦ true | _ ↦ false ]

abbrev pub leb : ℕ → ℕ → Bool
leb a b = elim (compare a b) [ Ordering.gt ↦ false | _ ↦ true ]

infix 50 ◌==◌
abbrev pub ◌==◌ : ℕ → ℕ → Bool
a == b = elim (compare a b) [ Ordering.eq ↦ true | _ ↦ false ]

infix 1 if◌then◌else◌
abbrev pub if◌then◌else◌ {ℓ} : {A : Type ℓ} → Bool → A → A → A
if true then x else y = x
if false then x else y = y

pub ==_iff : (a b : ℕ) → ((a == b) ≡ true) ↔ (a ≡ b)
==_iff a b = ground arith

-- To split on a computed value and keep the equation.
pub Bool-cases : (b : Bool) → (b ≡ true) ⊎ (b ≡ false)
Bool-cases true = inl refl
Bool-cases false = inr refl

pub Option-cases {ℓ} : {A : Type ℓ} (o : Option A) → (o ≡ none) ⊎ ((a : A) × (o ≡ some a))
Option-cases none = inl refl
Option-cases (some a) = inr (a, refl)

-- The two readings of a test by a lemma of the form "exactly when".
pub false_of_iff : (b : Bool) {P : Type 0} → (b ≡ true) ↔ P → ¬ P → b ≡ false
false_of_iff true h n = absurd (n (h.0 refl))
false_of_iff false h n = refl

-- What a conjunction or a disjunction says of its parts, and what they say of it.
pub true_of_and : (a b : Bool) → (a && b) ≡ true → (a ≡ true) × (b ≡ true)
true_of_and a b e = ground arith

pub false_of_or : (a b : Bool) → (a || b) ≡ false → (a ≡ false) × (b ≡ false)
false_of_or a b e = ground arith

pub true_of_rest : (a b : Bool) → (a || b) ≡ true → a ≡ false → b ≡ true
true_of_rest a b e f = ground arith

pub or_of_left : (a b : Bool) → a ≡ true → (a || b) ≡ true
or_of_left a b e = ground arith

pub or_of_right : (a b : Bool) → b ≡ true → (a || b) ≡ true
or_of_right a b e = ground arith

pub not_both : (b : Bool) → b ≡ true → b ≡ false → ⊥
not_both b e f = cc
