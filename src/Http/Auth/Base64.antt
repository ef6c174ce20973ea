-- ===== src/Http/Auth/Base64.antt =====
-- http/auth/auth.go: `base64.StdEncoding.DecodeString`.
use sadbox.Prelude.{
  ℕ, ◌+◌, ◌-◌, ◌*◌, ◌/◌, ◌%◌, Bool, true, false, ◌&&◌, ◌||◌, Option, none, some, [], ◌∷◌, Text,
  ◌==◌, leb, if◌then◌else◌,
}

-- The value of a digit of the alphabet.
unfoldable pub base64_value : ℕ → Option ℕ
base64_value c =
    if leb b'A' c && leb c b'Z'
    then some (c - b'A')
    else if leb b'a' c && leb c b'z'
    then some (c - b'a' + 26)
    else if leb b'0' c && leb c b'9'
    then some (c - b'0' + 52)
    else if c == b'+'
    then some 62
    else if c == b'/'
    then some 63
    else none

-- Line ends are passed over.
unfoldable pub without_newlines : Text → Text
without_newlines [] = []
without_newlines (c ∷ s) =
    let rest = without_newlines s in if c == b'\n' || c == b'\r' then rest else c ∷ rest

-- The bytes of two, three and four digits.
abbrev pub first_byte : ℕ → ℕ → ℕ
first_byte a b = a * 4 + b / 16

abbrev pub second_byte : ℕ → ℕ → ℕ
second_byte b c = b % 16 * 16 + c / 4

abbrev pub third_byte : ℕ → ℕ → ℕ
third_byte c d = c % 4 * 64 + d

abbrev pub two_digits : Option ℕ → Option ℕ → Option Text
two_digits (some a) (some b) = some (first_byte a b ∷ [])
two_digits _ _ = none

abbrev pub three_digits : Option ℕ → Option ℕ → Option ℕ → Option Text
three_digits (some a) (some b) (some c) = some (first_byte a b ∷ second_byte b c ∷ [])
three_digits _ _ _ = none

abbrev pub four_digits : Option ℕ → Option ℕ → Option ℕ → Option ℕ → Option Text → Option Text
four_digits (some a) (some b) (some c) (some d) (some t) =
    some (first_byte a b ∷ second_byte b c ∷ third_byte c d ∷ t)
four_digits _ _ _ _ _ = none

abbrev pub is_last : Text → Bool
is_last [] = true
is_last (c ∷ s) = false

unfoldable pub decode_quanta : Text → Option Text
decode_quanta [] = some []
decode_quanta (a ∷ b ∷ c ∷ d ∷ s) =
    let rest = decode_quanta s in
    if d == b'=' && is_last s
    then (if c == b'='
        then two_digits (base64_value a) (base64_value b)
        else three_digits (base64_value a) (base64_value b) (base64_value c))
    else four_digits (base64_value a) (base64_value b) (base64_value c) (base64_value d) rest
decode_quanta s = none

unfoldable pub decode_base64 : Text → Option Text
decode_base64 s = decode_quanta (without_newlines s)
