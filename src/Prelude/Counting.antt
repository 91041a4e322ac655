-- ===== src/Prelude/Counting.antt =====
-- How many distinct elements a list can hold.
use Prim.Native.Nat.{suc, ◌≤◌}
use mathlib.Core.Path.{◌≡◌, refl, subst}
use mathlib.Core.Logic.{◌≢◌, inl, inr}
use mathlib.Core.List.{List, [], ◌∷◌}
use native.Mathlib.Omega.{arith}
use eirctl.Prelude.Tests.{if◌then◌else◌}
use eirctl.Prelude.Lists.{In, Distinct, length}
use eirctl.Prelude.Texts.{Text, text_eq, text_eq_iff}

-- A list without one of its elements, once.
without : Text → List Text → List Text
without x [] = []
without x (y ∷ ys) = let rest = without x ys in if text_eq y x then ys else y ∷ rest

length-without : (x : Text) (ys : List Text) → In x ys → length ys ≡ suc (length (without x ys))
unfolding without
length-without x [] i = absurd i
length-without x (y ∷ ys) i = ground (arith, text_eq_iff y x, length-without x ys)

In-without : (x z : Text) (ys : List Text) → In z ys → z ≢ x → In z (without x ys)
unfolding without
In-without x z [] i n = absurd i
In-without x z (y ∷ ys) i n = ground (arith, text_eq_iff y x, In-without x z ys)

-- Distinct elements of a list are at most as many as it has.
pub length-le-of_In :
    (xs ys : List Text) → Distinct xs → ((z : Text) → In z xs → In z ys) → length xs ≤ length ys
length-le-of_In [] ys d sub = omega arith
length-le-of_In (x ∷ xs) ys d sub =
    let here = length-without x ys (sub x (inl refl)) in
    let rest =
      length-le-of_In xs (without x ys) d.1
        (λ z i. In-without x z ys (sub z (inr i)) (λ e. d.0 (subst (λ t. In t xs) e i))) in
    omega arith
