-- ===== src/Policy/Topology/Artifacts/Binaries.antt =====
-- The files of a release: the test against the expected ones.
use eirctl.Prelude.{
  not_both, true_of_and, length-le-of_In, ◌≡◌, refl, sym, ◌∙◌, subst, ◌↔◌, inl, inr, ⊎_elim, ℕ, suc,
  ◌≤◌, Bool, true, false, ◌&&◌, List, [], ◌∷◌, Text, In, elem, elem_iff, ◌==◌, length, arith,
  Bool-cases, Distinct, text_eq,
}
use eirctl.Policy.Topology.Artifacts.{
  expected_binaries, distinct_count, all_in, are_expected_binaries,
}

distinct_count-le-length : (xs : List Text) → distinct_count xs ≤ length xs
unfolding distinct_count
distinct_count-le-length [] = omega arith
distinct_count-le-length (x ∷ xs) = ground (arith, distinct_count-le-length xs)

-- As many different elements as elements: none stands twice.
distinct_count_iff : (xs : List Text) → (distinct_count xs ≡ length xs) ↔ Distinct xs
unfolding distinct_count
distinct_count_iff [] = (λ e. tt, λ d. refl)
distinct_count_iff (x ∷ xs) =
    ground (arith, distinct_count_iff xs, distinct_count-le-length xs, elem_iff x xs)

all_in_iff : (xs ys : List Text) → (all_in xs ys ≡ true) ↔ ((z : Text) → In z xs → In z ys)
unfolding all_in
all_in_iff [] ys = (λ e z i. absurd i, λ h. refl)
all_in_iff (x ∷ xs) ys =
    let (go, back) = all_in_iff xs ys in
    let (is, is') = elem_iff x ys in
    (
      λ e z i.
          let (a, b) = true_of_and (elem x ys) (all_in xs ys) e in
          ⊎_elim (λ same. subst (λ t. In t ys) (sym same) (is a)) (go b z) i,
      λ h. join (elem x ys) (all_in xs ys) (is' (h x (inl refl))) (back (λ z i. h z (inr i))),
    )
  where
    join : (a b : Bool) → a ≡ true → b ≡ true → (a && b) ≡ true
    join a b e f = ground arith

distinct_binaries : distinct_count expected_binaries ≡ length expected_binaries
unfolding distinct_count elem text_eq
distinct_binaries = refl

-- The files of a release pass exactly when no file stands twice and they are the expected ones.
pub are_expected_binaries_iff :
    (files : List Text)
    → (are_expected_binaries files ≡ true)
      ↔ (Distinct files × ((file : Text) → In file files ↔ In file expected_binaries))
unfolding are_expected_binaries
are_expected_binaries_iff files =
    let n = length expected_binaries in
    let d = (distinct_count_iff expected_binaries).0 distinct_binaries in
    let (once, once') = distinct_count_iff files in
    let (into, into') = all_in_iff expected_binaries files in
    (
      λ e.
          let (size, count, all) =
            apart (length files) (distinct_count files) (all_in expected_binaries files) n e in
          let sub = into all in
          (
            once (count ∙ sym size),
            λ z. (
              λ i. elim (Bool-cases (elem z expected_binaries)) [
                | inl known ↦ (elem_iff z expected_binaries).0 known
                | inr new ↦
                    let absent : ¬ In z expected_binaries = other z new in
                    let more =
                      length-le-of_In (z ∷ expected_binaries) files (absent, d)
                        (λ t m. ⊎_elim (λ q. subst (λ u. In u files) (sym q) i) (sub t) m) in
                    absurd (too_many size more)
              ],
              sub z,
            ),
          ),
      λ (dist, same).
          let le = length-le-of_In files expected_binaries dist (λ z i. (same z).0 i) in
          let ge = length-le-of_In expected_binaries files d (λ z i. (same z).1 i) in
          let size : length files ≡ n = omega arith in
          join size (once' dist ∙ size) (into' (λ z i. (same z).1 i)),
    )
  where
    apart :
        (a b : ℕ) (c : Bool) (n : ℕ)
        → (a == n && b == n && c) ≡ true
        → (a ≡ n) × (b ≡ n) × (c ≡ true)
    apart a b c n e = ground arith

    join :
        length files ≡ length expected_binaries
        → distinct_count files ≡ length expected_binaries
        → all_in expected_binaries files ≡ true
        → (length files == length expected_binaries
            && distinct_count files == length expected_binaries
            && all_in expected_binaries files)
          ≡ true
    join e f g = ground arith

    other : (z : Text) → elem z expected_binaries ≡ false → ¬ In z expected_binaries
    other z e i = not_both (elem z expected_binaries) ((elem_iff z expected_binaries).1 i) e

    too_many :
        length files ≡ length expected_binaries → suc (length expected_binaries) ≤ length files → ⊥
    too_many e h = omega arith
