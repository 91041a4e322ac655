-- ===== src/Policy/Steps/Pinned.antt =====
-- What a pinned action is: the test of the pattern against the shape of the text.
use eirctl.Prelude.{
  true_of_and, ◌≡◌, refl, sym, ap, ◌∙◌, ◌↔◌, ℕ, zero, suc, true, ◌&&◌, [], ◌∷◌, ◌++◌, Text, ◌==◌,
  ==_iff, length, length-append, reverse, arith, All, All-reverse, append_assoc,
}
use mathlib.Core.List.{reverse-reverse, reverse-append}
use eirctl.Policy.Steps.{is_hex, hex_then_at, is_pinned}

-- The text ends with an `@` and `n` hexadecimal digits.
abbrev pub IsHexSuffix : ℕ → Text → Type 0
IsHexSuffix n s =
    (before : Text) × (digits : Text) × (s ≡ before ++ b'@' ∷ digits)
    × (length digits ≡ n)
    × All (λ c. is_hex c ≡ true) digits

IsHexPrefix : ℕ → Text → Type 0
IsHexPrefix n s =
    (digits : Text) × (rest : Text) × (s ≡ digits ++ b'@' ∷ rest)
    × (length digits ≡ n)
    × All (λ c. is_hex c ≡ true) digits

hex_then_at_iff : (n : ℕ) (s : Text) → (hex_then_at n s ≡ true) ↔ IsHexPrefix n s
unfolding hex_then_at IsHexPrefix
hex_then_at_iff n [] = (λ e. absurd (cc), λ (digits, rest, e, _, _). absurd (empty digits rest e))
  where
    empty : (digits rest : Text) → [] ≡ digits ++ b'@' ∷ rest → ⊥
    empty [] rest e = cc
    empty (d ∷ digits) rest e = cc
hex_then_at_iff zero (c ∷ s) = (
  λ e. ([], s, ap (λ b. b ∷ s) ((==_iff c b'@').0 e), refl, tt),
  λ (digits, rest, e, l, _). first digits rest e l,
)
  where
    first :
        (digits rest : Text)
        → c ∷ s ≡ digits ++ b'@' ∷ rest
        → length digits ≡ 0
        → (c == b'@') ≡ true
    first [] rest e l = (==_iff c b'@').1 (ground arith)
    first (d ∷ digits) rest e l = absurd (omega arith)
hex_then_at_iff (suc n) (c ∷ s) =
    let (go, back) = hex_then_at_iff n s in
    (
      λ e.
          let (hex, more) = true_of_and (is_hex c) (hex_then_at n s) e in
          let (digits, rest, same, size, all) = go more in
          (c ∷ digits, rest, ap (λ t. c ∷ t) same, ap suc size, (hex, all)),
      λ (digits, rest, e, l, all). step digits rest e l all back,
    )
  where
    step :
        (digits rest : Text)
        → c ∷ s ≡ digits ++ b'@' ∷ rest
        → length digits ≡ suc n
        → All (λ c'. is_hex c' ≡ true) digits
        → (IsHexPrefix n s → hex_then_at n s ≡ true)
        → (is_hex c && hex_then_at n s) ≡ true
    step [] rest e l all back = absurd (omega arith)
    step (d ∷ digits) rest e l all back =
        let head : c ≡ d = cc in
        let tail : s ≡ digits ++ b'@' ∷ rest = cc in
        let one : is_hex c ≡ true = ap is_hex head ∙ all.0 in
        let size : length digits ≡ n = omega arith in
        let others = back (digits, rest, tail, size, all.1) in rw (one, others) refl

-- An action is pinned exactly when it ends with `@` and forty hexadecimal digits.
pub is_pinned_iff : (uses : Text) → (is_pinned uses ≡ true) ↔ IsHexSuffix 40 uses
unfolding is_pinned IsHexPrefix
is_pinned_iff uses =
    let (go, back) = hex_then_at_iff 40 (reverse uses) in
    (
      λ e.
          let (digits, rest, same, size, all) = go e in
          (
            reverse rest,
            reverse digits,
            sym (reverse-reverse uses) ∙ ap reverse same ∙ turned digits rest,
            length_reversed digits ∙ size,
            All-reverse (λ c. is_hex c ≡ true) digits all,
          ),
      λ (before, digits, same, size, all). back (
        reverse digits,
        reverse before,
        ap reverse same ∙ turned before digits,
        length_reversed digits ∙ size,
        All-reverse (λ c. is_hex c ≡ true) digits all,
      ),
    )
  where
    turned : (a b : Text) → reverse (a ++ b'@' ∷ b) ≡ reverse b ++ b'@' ∷ reverse a
    turned a b =
        reverse-append a (b'@' ∷ b)
        ∙ ap (λ t. t ++ reverse a) (reverse-append (b'@' ∷ []) b)
        ∙ append_assoc (reverse b) (b'@' ∷ []) (reverse a)

    length_reversed : (a : Text) → length (reverse a) ≡ length a
    length_reversed [] = refl
    length_reversed (c ∷ a) =
        let whole = ap length (reverse-append (c ∷ []) a) in
        let parts = length-append (reverse a) (c ∷ []) in
        let rest = length_reversed a in omega arith
