-- ===== src/Base62/Digits.antt =====
-- A number is the value of its digits, and canonical digits are those of their value.
use eirctl.Prelude.{
  ◌≡◌, refl, ◌≢◌, ℕ, zero, suc, ◌+◌, ◌*◌, ◌/◌, ◌%◌, ◌≤◌, ◌<◌, List, [], ◌∷◌, All, arith,
}
use eirctl.Base62.{digits, value}

-- No leading zero: the highest digit, which stands last, is not 0.
abbrev pub IsCanonical : List ℕ → Type 0
IsCanonical [] = Unit
IsCanonical (d ∷ []) = d ≢ 0
IsCanonical (d ∷ e ∷ ds) = IsCanonical (e ∷ ds)

IsCanonical-tail : (d : ℕ) (ds : List ℕ) → IsCanonical (d ∷ ds) → IsCanonical ds
IsCanonical-tail d [] h = tt
IsCanonical-tail d (e ∷ ds) h = h

module _ (base : ℕ) (big : 2 ≤ base)
    (split : (d v : ℕ) → d < base → ((d + base * v) % base ≡ d) × ((d + base * v) / base ≡ v))
    (joined : (n : ℕ) → n % base + base * (n / base) ≡ n) (smaller : (n : ℕ) → 0 < n → n / base < n)
    (below : (n : ℕ) → n % base < base) where
  pub value-digits : (fuel n : ℕ) → n ≤ fuel → value base (digits base fuel n) ≡ n
  unfolding value digits
  value-digits zero n h = omega arith
  value-digits (suc fuel) n h = ground (arith, value-digits fuel (n / base), joined n, smaller n)

  value-pos : (d : ℕ) (ds : List ℕ) → IsCanonical (d ∷ ds) → 0 < value base (d ∷ ds)
  unfolding value
  value-pos d [] h = grind arith
  value-pos d (e ∷ ds) h = let p = value-pos e ds h in grind arith

  pub digits-value :
      (fuel : ℕ) (ds : List ℕ)
      → All (λ d. d < base) ds
      → IsCanonical ds
      → value base ds ≤ fuel
      → digits base fuel (value base ds) ≡ ds
  unfolding digits value
  digits-value zero [] small canon h = refl
  digits-value zero (d ∷ ds) small canon h = absurd (omega (arith, value-pos d ds canon))
  digits-value (suc fuel) [] small canon h = refl
  digits-value (suc fuel) (d ∷ ds) small canon h =
      let v = value base ds in
      let twice : 2 * v ≤ base * v = grind arith in
      let again = digits-value fuel ds small.1 (IsCanonical-tail d ds canon) (omega arith) in
      ground (arith, value-pos d ds canon, split d v, again)
