-- ===== src/Prelude/Splits.antt =====
-- A list around an element that passes a test.
use mathlib.Core.Path.{◌≡◌, refl, ap, ◌∙◌}
use mathlib.Core.Logic.{◌↔◌, inl, inr}
use mathlib.Core.Bool.{Bool, true, ◌||◌}
use mathlib.Core.List.{List, [], ◌∷◌, ◌++◌}
use eirctl.Prelude.Tests.{or_of_left, or_of_right, true_of_rest, Bool-cases}
use eirctl.Prelude.Lists.{any}

module _ {A : Type 0} (p : A → Bool) where
  abbrev pub Split : List A → Type 0
  Split xs =
      (before : List A) × (x : A) × (behind : List A) × (xs ≡ before ++ x ∷ behind) × (p x ≡ true)

  pub any_iff : (xs : List A) → (any p xs ≡ true) ↔ Split xs
  any_iff [] = (λ e. absurd (cc), λ (before, x, behind, e, _). absurd (empty before x behind e))
    where
      empty : (before : List A) (x : A) (behind : List A) → [] ≡ before ++ x ∷ behind → ⊥
      empty [] x behind e = cc
      empty (y ∷ before) x behind e = cc
  any_iff (y ∷ ys) =
      let (go, back) = any_iff ys in
      (
        λ e. elim (Bool-cases (p y)) [
          | inl here ↦ ([], y, ys, refl, here)
          | inr there ↦
              let (before, x, behind, same, is) = go (true_of_rest (p y) (any p ys) e there) in
              (y ∷ before, x, behind, ap (λ l. y ∷ l) same, is)
        ],
        λ (before, x, behind, e, is). at before x behind e is back,
      )
    where
      at :
          (before : List A) (x : A) (behind : List A)
          → y ∷ ys ≡ before ++ x ∷ behind
          → p x ≡ true
          → (Split ys → any p ys ≡ true)
          → (p y || any p ys) ≡ true
      at [] x behind e is back =
          let same : y ≡ x = cc in or_of_left (p y) (any p ys) (ap p same ∙ is)
      at (z ∷ before) x behind e is back =
          let same : ys ≡ before ++ x ∷ behind = cc in
          or_of_right (p y) (any p ys) (back (before, x, behind, same, is))
