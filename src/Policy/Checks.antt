-- ===== src/Policy/Checks.antt =====
-- What a sequence of checks has passed, each for itself.
use eirctl.Prelude.{
  ◌≡◌, refl, sym, subst, Bool, true, false, List, [], ◌∷◌, none, some, In, inl, inr, ⊎_elim,
  if◌then◌else◌, ◌↔◌,
}
use eirctl.Policy.{PolicyFault, Error, ◌then◌, first_error, fail_if}

pub then-eq-none_iff : (a b : Error) → ((a then b) ≡ none) ↔ ((a ≡ none) × (b ≡ none))
then-eq-none_iff none b = (λ e. (refl, e), λ h. h.1)
then-eq-none_iff (some fault) b = (λ e. absurd (cc), λ h. absurd (cc))

pub fail_if-eq-none_iff :
    (refused : Bool) (fault : PolicyFault) → (fail_if refused fault ≡ none) ↔ (refused ≡ false)
fail_if-eq-none_iff true fault = (λ e. absurd (cc), λ e. absurd (cc))
fail_if-eq-none_iff false fault = (λ e. refl, λ e. refl)

module _ {A : Type 0} (check : A → Error) where
  pub first_error-eq-none_iff :
      (xs : List A) → (first_error check xs ≡ none) ↔ ((x : A) → In x xs → check x ≡ none)
  first_error-eq-none_iff [] = (λ e x i. absurd i, λ h. refl)
  first_error-eq-none_iff (x ∷ xs) =
      let (go, back) = first_error-eq-none_iff xs in
      let (apart, join) = then-eq-none_iff (check x) (first_error check xs) in
      (
        λ e y i.
            let (here, later) = apart e in
            ⊎_elim (λ same. subst (λ z. check z ≡ none) (sym same) here) (go later y) i,
        λ h. join (h x (inl refl), back (λ y i. h y (inr i))),
      )
