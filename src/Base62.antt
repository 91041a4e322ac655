-- ===== src/Base62.antt =====
-- `EncodeBase62` and `DecodeBase62` of internal/utils/utils.go, over the documented behaviour of
-- Go's `big.Int`: `SetBytes` and `Bytes` are big-endian, `Text(62)` and `SetString(_, 62)` use
-- the digits 0-9, a-z, A-Z, and `SetString` takes a sign.
pub mod Digits
pub mod RoundTrip
pub mod Tests
use eirctl.Prelude.{
  ℕ, zero, suc, ◌+◌, ◌-◌, ◌*◌, ◌/◌, ◌%◌, List, [], ◌∷◌, Option, none, some, Text, codes, ltb, leb,
  ◌==◌, ◌&&◌, if◌then◌else◌, map, reverse,
}

-- The digits of a number, the lowest first; each round divides by the base.
unfoldable pub digits : (base fuel n : ℕ) → List ℕ
digits base zero n = []
digits base (suc fuel) n =
    let rest = digits base fuel (n / base) in if n == 0 then [] else (n % base) ∷ rest

unfoldable pub value : (base : ℕ) → List ℕ → ℕ
value base [] = 0
value base (d ∷ ds) = d + base * value base ds

unfoldable pub digit_char : ℕ → ℕ
digit_char d = if ltb d 10 then b'0' + d else if ltb d 36 then b'a' + (d - 10) else b'A' + (d - 36)

unfoldable pub char_digit : ℕ → Option ℕ
char_digit c =
    if leb b'0' c && leb c b'9'
    then some (c - b'0')
    else if leb b'a' c && leb c b'z'
    then some (c - b'a' + 10)
    else if leb b'A' c && leb c b'Z'
    then some (c - b'A' + 36)
    else none

-- `Text(62)`
unfoldable pub text_62 : ℕ → Text
text_62 n = if n == 0 then b'0' ∷ [] else map digit_char (reverse (digits 62 n n))

unfoldable pub base_62_encode_to_string : Text → Text
base_62_encode_to_string v = text_62 (value 256 (reverse v))

-- The digits of a text, all of which have to be valid.
unfoldable pub char_digits : Text → Option (List ℕ)
char_digits [] = some []
char_digits (c ∷ s) = elim (char_digit c) [
  | none ↦ none
  | some d ↦ elim (char_digits s) [ none ↦ none | some ds ↦ some (d ∷ ds) ]
]

-- The magnitude that `SetString` reads: at least one digit, behind an optional sign.
unfoldable pub unsigned : Text → Option ℕ
unsigned [] = none
unsigned (c ∷ s) = elim (char_digits (c ∷ s)) [
  | none ↦ none
  | some ds ↦ some (value 62 (reverse ds))
]

unfoldable pub set_string : Text → Option ℕ
set_string [] = none
set_string (c ∷ s) =
    if c == b'+' then unsigned s else if c == b'-' then unsigned s else unsigned (c ∷ s)

-- `Bytes` drops the sign.
unfoldable pub base_62_decode_string : Text → Option Text
base_62_decode_string s = elim (set_string s) [
  | none ↦ none
  | some n ↦ some (reverse (digits 256 n n))
]

unfoldable pub encode_base_62 : Text → Text
encode_base_62 str = base_62_encode_to_string str

unfoldable pub decode_base_62 : Text → Text
decode_base_62 str = elim (base_62_decode_string str) [ none ↦ [] | some decoded ↦ decoded ]
