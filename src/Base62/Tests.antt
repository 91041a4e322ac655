-- ===== src/Base62/Tests.antt =====
-- The encoding on small texts.
use eirctl.Prelude.{◌≡◌, refl, [], ◌∷◌, codes, arith}
use eirctl.Base62.{
  digits, value, digit_char, char_digit, text_62, base_62_encode_to_string, char_digits, unsigned,
  set_string, base_62_decode_string, encode_base_62, decode_base_62,
}
use eirctl.Base62.RoundTrip.{decode_base_62-encode_base_62}

-- A leading zero byte is lost.
decode_zero : decode_base_62 (encode_base_62 (0 ∷ b'a' ∷ [])) ≡ b'a' ∷ []
unfolding decode_base_62 encode_base_62 base_62_encode_to_string base_62_decode_string set_string
    unsigned char_digits text_62 char_digit digit_char value digits
decode_zero = refl

decode_base_62-encode_base_62_example :
    decode_base_62 (encode_base_62 (codes "a/b:c")) ≡ codes "a/b:c"
decode_base_62-encode_base_62_example =
    decode_base_62-encode_base_62 (codes "a/b:c") (omega arith, omega arith)
