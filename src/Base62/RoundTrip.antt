-- ===== src/Base62/RoundTrip.antt =====
-- Decoding gives back what was encoded.
use eirctl.Prelude.{
  ◌≡◌, refl, sym, ◌∙◌, ◌≢◌, ap, ℕ, zero, suc, ◌/◌, ◌<◌, List, [], ◌∷◌, ◌++◌, Text, All, arith, ◌==◌,
  Bool-cases, map, reverse, some, inl, inr, All-reverse, subst,
}
use mathlib.Core.List.{reverse-reverse, reverse-append}
use eirctl.Base62.{
  digits, value, digit_char, char_digit, text_62, base_62_encode_to_string, char_digits, unsigned,
  set_string, base_62_decode_string, encode_base_62, decode_base_62,
}
use eirctl.Base62.Digits.{IsCanonical, value-digits, digits-value}

-- The two bases of the encoding.
value-digits_62 : (n : ℕ) → value 62 (digits 62 n n) ≡ n
value-digits_62 n =
    value-digits 62 (omega arith) (λ d v h. omega arith) (λ n. omega arith) (λ n h. omega arith)
      (λ n. omega arith) n n (omega arith)

digits-value_256 :
    (ds : List ℕ)
    → All (λ d. d < 256) ds
    → IsCanonical ds
    → digits 256 (value 256 ds) (value 256 ds) ≡ ds
digits-value_256 ds small canon =
    digits-value 256 (omega arith) (λ d v h. omega arith) (λ n. omega arith) (λ n h. omega arith)
      (λ n. omega arith) (value 256 ds) ds small canon (omega arith)

-- Every digit has its character, which is no sign.
char_digit-digit_char : (d : ℕ) → d < 62 → char_digit (digit_char d) ≡ some d
unfolding char_digit digit_char
char_digit-digit_char d h = ground arith

digit_char_sign : (d : ℕ) → d < 62 → (digit_char d ≢ b'+') × (digit_char d ≢ b'-')
unfolding digit_char
digit_char_sign d h = ground arith

char_digits-map : (ds : List ℕ) → All (λ d. d < 62) ds → char_digits (map digit_char ds) ≡ some ds
unfolding char_digits
char_digits-map [] h = refl
char_digits-map (d ∷ ds) h = ground (arith, char_digit-digit_char d h.0, char_digits-map ds h.1)

digits-below : (fuel n : ℕ) → All (λ d. d < 62) (digits 62 fuel n)
unfolding digits
digits-below zero n = tt
digits-below (suc fuel) n = elim (Bool-cases (n == 0)) [
  | inl none_left ↦ rw none_left tt
  | inr more ↦ rw more (omega arith, digits-below fuel (n / 62))
]

set_string-map :
    (d : ℕ) (ds : List ℕ)
    → All (λ d. d < 62) (d ∷ ds)
    → set_string (map digit_char (d ∷ ds)) ≡ some (value 62 (reverse (d ∷ ds)))
unfolding set_string unsigned
set_string-map d ds h = ground (arith, digit_char_sign d h.0, char_digits-map (d ∷ ds) h)

set_string-zero : set_string (b'0' ∷ []) ≡ some 0
unfolding set_string unsigned char_digits char_digit value
set_string-zero = refl

reverse-digits :
    (n : ℕ) (r : List ℕ)
    → reverse (digits 62 n n) ≡ r
    → (value 62 (reverse r) ≡ n) × All (λ d. d < 62) r
reverse-digits n r e =
    subst (λ l. (value 62 (reverse l) ≡ n) × All (λ d. d < 62) l) e
      (
        rw reverse-reverse (value-digits_62 n),
        All-reverse (λ d. d < 62) (digits 62 n n) (digits-below n n),
      )

set_string-digits :
    (n : ℕ) (r : List ℕ)
    → n ≢ 0
    → reverse (digits 62 n n) ≡ r
    → set_string (map digit_char r) ≡ some n
set_string-digits n [] more e =
    let none_left : 0 ≡ n = unfold value in (reverse-digits n [] e).0 in
    absurd (more (sym none_left))
set_string-digits n (d ∷ ds) more e =
    let (same, small) = reverse-digits n (d ∷ ds) e in set_string-map d ds small ∙ ap some same

-- What is printed in base 62 is read back.
pub set_string-text_62 : (n : ℕ) → set_string (text_62 n) ≡ some n
unfolding text_62
set_string-text_62 n = elim (Bool-cases (n == 0)) [
  | inl empty ↦
      let e : 0 ≡ n = ground arith in
      rw empty (subst (λ m. set_string (b'0' ∷ []) ≡ some m) e set_string-zero)
  | inr more ↦
      let positive : n ≢ 0 = ground arith in
      rw more (set_string-digits n (reverse (digits 62 n n)) positive refl)
]

base_62_decode_string-text_62 :
    (n : ℕ) → base_62_decode_string (text_62 n) ≡ some (reverse (digits 256 n n))
unfolding base_62_decode_string
base_62_decode_string-text_62 n = rw (set_string-text_62 n, base_62_decode_string) refl

IsCanonical-concat : (xs : List ℕ) (d : ℕ) → d ≢ 0 → IsCanonical (xs ++ d ∷ [])
IsCanonical-concat [] d h = h
IsCanonical-concat (x ∷ []) d h = h
IsCanonical-concat (x ∷ y ∷ xs) d h = IsCanonical-concat (y ∷ xs) d h

-- A text of bytes that does not begin with a zero byte.
abbrev pub IsEncodable : Text → Type 0
IsEncodable [] = Unit
IsEncodable (c ∷ s) = (c ≢ 0) × All (λ b. b < 256) (c ∷ s)

bytes_back :
    (s : Text)
    → IsEncodable s
    → digits 256 (value 256 (reverse s)) (value 256 (reverse s)) ≡ reverse s
bytes_back [] h = unfold value digits in refl
bytes_back (c ∷ s) (not_zero, small) =
    digits-value_256 (reverse (c ∷ s)) (All-reverse (λ b. b < 256) (c ∷ s) small)
      (rw (reverse-append (c ∷ []) s) (IsCanonical-concat (reverse s) c not_zero))

-- Decoding an encoded text gives the text back, if it does not begin with a zero byte.
pub decode_base_62-encode_base_62 :
    (str : Text) → IsEncodable str → decode_base_62 (encode_base_62 str) ≡ str
unfolding decode_base_62 encode_base_62 base_62_encode_to_string
decode_base_62-encode_base_62 str h =
    rw (base_62_decode_string-text_62 (value 256 (reverse str)), decode_base_62)
      (rw (bytes_back str h) (reverse-reverse str))

-- So two such texts with one encoding are one.
pub encode_base_62_inj :
    (s t : Text) → IsEncodable s → IsEncodable t → encode_base_62 s ≡ encode_base_62 t → s ≡ t
encode_base_62_inj s t hs ht e =
    sym (decode_base_62-encode_base_62 s hs)
    ∙ ap decode_base_62 e
    ∙ decode_base_62-encode_base_62 t ht
