-- ===== src/Color/Hex/Tests.antt =====
-- color/hex.go: runs of the model, and the theorems at concrete inputs.
use sadbox.Prelude.{◌≡◌, refl, codes, arith, inl, inr}
use sadbox.Color.Hex.Laws.{hex_to_rgb-rgb_to_hex, rgba-hex_model}
use sadbox.Color.Hex.Malformed.{IsWellFormed, hex_to_rgb-malformed}
use sadbox.Color.Hex.{
  Rgba, other, hex_digit, hex_byte, rgb_to_hex, hex_value, parse_hex, parse_uint, strip_hash,
  expand, black, split_rgb, hex_to_rgb, rgba, hex_model,
}

test_rgb_to_hex : rgb_to_hex 255 0 171 ≡ codes "#FF00AB"
unfolding rgb_to_hex hex_byte hex_digit
test_rgb_to_hex = refl

test_three : hex_to_rgb (codes "#f0A") ≡ record { r = 255; g = 0; b = 170 }
unfolding hex_to_rgb split_rgb parse_uint parse_hex hex_value expand strip_hash
test_three = refl

short_not_IsWellFormed : ¬ IsWellFormed (strip_hash (codes "#12"))
unfolding strip_hash
short_not_IsWellFormed (_, inl h) = absurd (omega arith)
short_not_IsWellFormed (_, inr h) = absurd (omega arith)

hex_to_rgb-malformed_example : hex_to_rgb (codes "#12") ≡ black
hex_to_rgb-malformed_example = hex_to_rgb-malformed (codes "#12") short_not_IsWellFormed

hex_to_rgb-rgb_to_hex_example :
    hex_to_rgb (rgb_to_hex 255 0 171) ≡ record { r = 255; g = 0; b = 171 }
hex_to_rgb-rgb_to_hex_example =
    hex_to_rgb-rgb_to_hex 255 0 171 (omega arith) (omega arith) (omega arith)

abbrev gray : Rgba
gray = record { r = 0x8070; g = 0x80ff; b = 0x8000; a = 0x1234 }

rgba-hex_model_example :
    rgba (hex_model (other gray)) ≡ record { r = 0x8080; g = 0x8080; b = 0x8080; a = 0xffff }
rgba-hex_model_example = rgba-hex_model gray (omega arith) (omega arith) (omega arith)
