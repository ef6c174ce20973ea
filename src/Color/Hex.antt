-- ===== src/Color/Hex.antt =====
-- color/hex.go: colors as hexadecimal texts. A text is the list of its bytes.
pub mod Laws
pub mod Malformed
mod Tests
use sadbox.Prelude.{
  ℕ, ◌+◌, ◌-◌, ◌*◌, ◌/◌, ◌%◌, ◌^◌, Bool, true, false, ◌&&◌, Option, none, some, List, [], ◌∷◌, ◌++◌,
  Text, codes, ◌==◌, leb, ltb, if◌then◌else◌, length, take, drop,
}

-- An RGB triple of bytes.
pub record Rgb : Type 0 where
  pub r : ℕ
  pub g : ℕ
  pub b : ℕ

-- What the method `RGBA` of a color returns.
pub record Rgba : Type 0 where
  pub r : ℕ
  pub g : ℕ
  pub b : ℕ
  pub a : ℕ

-- A color is a `Hex`, or a color of another type, of which only its `RGBA` is used.
pub data Color : Type 0 where
  hex : Text → Color
  other : Rgba → Color

-- `%X` of a number below 16.
unfoldable pub hex_digit : ℕ → ℕ
hex_digit d = if ltb d 10 then b'0' + d else b'A' + (d - 10)

-- `%02X` of a byte.
unfoldable pub hex_byte : ℕ → Text
hex_byte n = hex_digit (n / 16) ∷ hex_digit (n % 16) ∷ []

unfoldable pub rgb_to_hex : ℕ → ℕ → ℕ → Text
rgb_to_hex r g b = b'#' ∷ (hex_byte r ++ (hex_byte g ++ hex_byte b))

within : ℕ → ℕ → ℕ → Bool
within lo hi c = leb lo c && leb c hi

-- The value of a hexadecimal digit, in either case.
unfoldable pub hex_value : ℕ → Option ℕ
unfolding within
hex_value c =
    if within b'0' b'9' c
    then some (c - b'0')
    else if within b'a' b'f' c
    then some (c - b'a' + 10)
    else if within b'A' b'F' c
    then some (c - b'A' + 10)
    else none

-- The loop of `strconv.ParseUint(s, 16, 32)`, from the value read so far.
unfoldable pub parse_hex : ℕ → Text → Option ℕ
parse_hex acc [] = some acc
parse_hex acc (c ∷ cs) = elim (hex_value c) [ none ↦ none | some d ↦ parse_hex (acc * 16 + d) cs ]

-- `strconv.ParseUint(s, 16, 32)` of a text that is not empty.
unfoldable pub parse_uint : Text → Option ℕ
parse_uint s = elim (parse_hex 0 s) [
  | none ↦ none
  | some v ↦ if ltb v (2 ^ 32) then some v else none
]

-- `if len(h) > 0 && h[0] == '#' { h = h[1:] }`.
unfoldable pub strip_hash : Text → Text
strip_hash [] = []
strip_hash (c ∷ cs) = if c == b'#' then cs else c ∷ cs

-- A text of three bytes has each byte doubled.
unfoldable pub expand : Text → Text
expand h =
    if length h == 3
    then take 1 h
      ++ (take 1 h ++ (take 1 (drop 1 h) ++ (take 1 (drop 1 h) ++ (drop 2 h ++ drop 2 h))))
    else h

abbrev pub black : Rgb
black = record { r = 0; g = 0; b = 0 }

-- The bytes of the number that six digits write.
unfoldable pub split_rgb : Option ℕ → Rgb
split_rgb none = black
split_rgb (some v) = record { r = v / 2 ^ 16 % 2 ^ 8; g = v / 2 ^ 8 % 2 ^ 8; b = v % 2 ^ 8 }

unfoldable pub hex_to_rgb : Text → Rgb
hex_to_rgb h =
    let s = expand (strip_hash h) in if length s == 6 then split_rgb (parse_uint s) else black

-- `Hex.RGBA`.
unfoldable pub hex_rgba : Text → Rgba
hex_rgba h =
    let c = hex_to_rgb h in record { r = c.r * 0x101; g = c.g * 0x101; b = c.b * 0x101; a = 0xffff }

-- The method `RGBA` of a color.
unfoldable pub rgba : Color → Rgba
rgba (hex h) = hex_rgba h
rgba (other c) = c

-- `uint8(x >> 8)`.
unfoldable pub high_byte : ℕ → ℕ
high_byte x = x / 2 ^ 8 % 2 ^ 8

unfoldable pub hex_model : Color → Color
hex_model (hex h) = hex h
hex_model (other c) = hex (rgb_to_hex (high_byte c.r) (high_byte c.g) (high_byte c.b))
