-- ===== src/Color/Hex/Laws.antt =====
-- color/hex.go: what the texts of colors stand for, and the round trip.
use sadbox.Prelude.{
  ℕ, ◌+◌, ◌*◌, ◌/◌, ◌%◌, ◌^◌, ◌<◌, ◌≡◌, refl, true, false, some, [], ◌∷◌, Text, arith, ◌==◌, ltb,
  ◌∙◌,
}
use sadbox.Color.Hex.{
  Rgb, Rgba, other, hex_digit, hex_byte, rgb_to_hex, hex_value, parse_hex, parse_uint, strip_hash,
  expand, split_rgb, hex_to_rgb, hex_rgba, rgba, high_byte, hex_model,
}

pub hex_value-hex_digit : (d : ℕ) → d < 16 → hex_value (hex_digit d) ≡ some d
unfolding hex_value hex_digit
hex_value-hex_digit d h = ground arith

pub hex_value-lt : (c : ℕ) {d : ℕ} → hex_value c ≡ some d → d < 16
unfolding hex_value
hex_value-lt c h = ground arith

hash_no_digit : (c : ℕ) {d : ℕ} → hex_value c ≡ some d → (c == b'#') ≡ false
unfolding hex_value
hash_no_digit c h = ground arith

pub Rgb-eq :
    {r g b r' g' b' : ℕ}
    → r ≡ r'
    → g ≡ g'
    → b ≡ b'
    → ◌≡◌ {A = Rgb} (record { r = r; g = g; b = b }) (record { r = r'; g = g'; b = b' })
Rgb-eq p q s = λ i. record { r = p i; g = q i; b = s i }

Rgba-eq :
    {r g b a r' g' b' a' : ℕ}
    → r ≡ r'
    → g ≡ g'
    → b ≡ b'
    → a ≡ a'
    → ◌≡◌ {A = Rgba}
        (record { r = r; g = g; b = b; a = a })
        (record { r = r'; g = g'; b = b'; a = a' })
Rgba-eq p q s t = λ i. record { r = p i; g = q i; b = s i; a = t i }

pub parse_hex-cons :
    (acc c : ℕ) (cs : Text) {d : ℕ}
    → hex_value c ≡ some d
    → parse_hex acc (c ∷ cs) ≡ parse_hex (acc * 16 + d) cs
unfolding parse_hex
parse_hex-cons acc c cs h = rw (h, parse_hex)

parse_uint-some : (s : Text) (v : ℕ) → parse_hex 0 s ≡ some v → v < 2 ^ 32 → parse_uint s ≡ some v
unfolding parse_uint
parse_uint-some s v h lt =
    let fits : ltb v (2 ^ 32) ≡ true = ground arith in rw (h, parse_uint, fits)

-- The number that six digits write.
abbrev six : ℕ → ℕ → ℕ → ℕ → ℕ → ℕ → ℕ
six u v w x y z = (((((0 * 16 + u) * 16 + v) * 16 + w) * 16 + x) * 16 + y) * 16 + z

split_rgb-six :
    (u v w x y z : ℕ)
    → u < 16
    → v < 16
    → w < 16
    → x < 16
    → y < 16
    → z < 16
    → split_rgb (some (six u v w x y z)) ≡ record { r = u * 16 + v; g = w * 16 + x; b = y * 16 + z }
unfolding split_rgb
split_rgb-six u v w x y z hu hv hw hx hy hz = Rgb-eq (omega arith) (omega arith) (omega arith)

module _ (a b c d e f : ℕ) (u v w x y z : ℕ) (ha : hex_value a ≡ some u) (hb : hex_value b ≡ some v)
    (hc : hex_value c ≡ some w) (hd : hex_value d ≡ some x) (he : hex_value e ≡ some y)
    (hf : hex_value f ≡ some z) where
  digits-lt : (u < 16) × (v < 16) × (w < 16) × (x < 16) × (y < 16) × (z < 16)
  digits-lt = (
    hex_value-lt a ha,
    hex_value-lt b hb,
    hex_value-lt c hc,
    hex_value-lt d hd,
    hex_value-lt e he,
    hex_value-lt f hf,
  )

  -- Six bytes that are hexadecimal digits, and the bytes that they write.
  split_rgb-parse_uint :
      split_rgb (parse_uint (a ∷ b ∷ c ∷ d ∷ e ∷ f ∷ []))
      ≡ record { r = u * 16 + v; g = w * 16 + x; b = y * 16 + z }
  unfolding parse_hex
  split_rgb-parse_uint =
      let (hu, hv, hw, hx, hy, hz) = digits-lt in
      let number : parse_hex 0 (a ∷ b ∷ c ∷ d ∷ e ∷ f ∷ []) ≡ some (six u v w x y z) =
        parse_hex-cons 0 a (b ∷ c ∷ d ∷ e ∷ f ∷ []) ha
        ∙ parse_hex-cons (0 * 16 + u) b (c ∷ d ∷ e ∷ f ∷ []) hb
        ∙ parse_hex-cons ((0 * 16 + u) * 16 + v) c (d ∷ e ∷ f ∷ []) hc
        ∙ parse_hex-cons (((0 * 16 + u) * 16 + v) * 16 + w) d (e ∷ f ∷ []) hd
        ∙ parse_hex-cons ((((0 * 16 + u) * 16 + v) * 16 + w) * 16 + x) e (f ∷ []) he
        ∙ parse_hex-cons (((((0 * 16 + u) * 16 + v) * 16 + w) * 16 + x) * 16 + y) f [] hf in
      rw (parse_uint-some (a ∷ b ∷ c ∷ d ∷ e ∷ f ∷ []) (six u v w x y z) number (omega arith))
        (split_rgb-six u v w x y z hu hv hw hx hy hz)

  -- Six hexadecimal digits, with or without a `#` in front, are two digits for each channel.
  pub hex_to_rgb-six :
      let digits = a ∷ b ∷ c ∷ d ∷ e ∷ f ∷ [] in
      let color : Rgb = record { r = u * 16 + v; g = w * 16 + x; b = y * 16 + z } in
      (hex_to_rgb digits ≡ color) × (hex_to_rgb (b'#' ∷ digits) ≡ color)
  unfolding hex_to_rgb strip_hash expand
  hex_to_rgb-six = (rw (hash_no_digit a ha) split_rgb-parse_uint, split_rgb-parse_uint)

module _ (a b c : ℕ) (u v w : ℕ) (ha : hex_value a ≡ some u) (hb : hex_value b ≡ some v)
    (hc : hex_value c ≡ some w) where
  -- Three hexadecimal digits, with or without a `#` in front, are one digit for each channel, which
  -- stands for both of its digits.
  pub hex_to_rgb-three :
      let digits = a ∷ b ∷ c ∷ [] in
      let color : Rgb = record { r = u * 17; g = v * 17; b = w * 17 } in
      (hex_to_rgb digits ≡ color) × (hex_to_rgb (b'#' ∷ digits) ≡ color)
  unfolding hex_to_rgb strip_hash expand
  hex_to_rgb-three =
      let both = split_rgb-parse_uint a a b b c c u u v v w w ha ha hb hb hc hc in
      let same : ◌≡◌ {A = Rgb} (record { r = u * 16 + u; g = v * 16 + v; b = w * 16 + w })
          (record { r = u * 17; g = v * 17; b = w * 17 }) =
        Rgb-eq (omega arith) (omega arith) (omega arith) in
      (rw (hash_no_digit a ha) (both ∙ same), both ∙ same)

-- Every byte comes back from the text of its color.
pub hex_to_rgb-rgb_to_hex :
    (r g b : ℕ)
    → r < 256
    → g < 256
    → b < 256
    → hex_to_rgb (rgb_to_hex r g b) ≡ record { r = r; g = g; b = b }
unfolding rgb_to_hex hex_byte
hex_to_rgb-rgb_to_hex r g b hr hg hb =
    let digits =
      hex_to_rgb-six (hex_digit (r / 16)) (hex_digit (r % 16)) (hex_digit (g / 16))
        (hex_digit (g % 16)) (hex_digit (b / 16)) (hex_digit (b % 16)) (r / 16) (r % 16) (g / 16)
        (g % 16) (b / 16) (b % 16) (hex_value-hex_digit (r / 16) (omega arith))
        (hex_value-hex_digit (r % 16) (omega arith)) (hex_value-hex_digit (g / 16) (omega arith))
        (hex_value-hex_digit (g % 16) (omega arith)) (hex_value-hex_digit (b / 16) (omega arith))
        (hex_value-hex_digit (b % 16) (omega arith)) in
    let same : ◌≡◌ {A = Rgb}
        (record { r = r / 16 * 16 + r % 16; g = g / 16 * 16 + g % 16; b = b / 16 * 16 + b % 16 })
        (record { r = r; g = g; b = b }) =
      Rgb-eq (omega arith) (omega arith) (omega arith) in
    digits.1 ∙ same

-- A color whose channels are 16 bits keeps the upper byte of red, green and blue; the lower byte
-- repeats the upper one, and the alpha channel becomes opaque.
pub rgba-hex_model :
    (c : Rgba)
    → c.r < 2 ^ 16
    → c.g < 2 ^ 16
    → c.b < 2 ^ 16
    → rgba (hex_model (other c))
      ≡ record { r = c.r / 256 * 257; g = c.g / 256 * 257; b = c.b / 256 * 257; a = 0xffff }
unfolding rgba hex_model hex_rgba high_byte
rgba-hex_model c hr hg hb =
    rw
      (hex_to_rgb-rgb_to_hex (c.r / 2 ^ 8 % 2 ^ 8) (c.g / 2 ^ 8 % 2 ^ 8) (c.b / 2 ^ 8 % 2 ^ 8)
        (omega arith) (omega arith) (omega arith))
      (Rgba-eq (omega arith) (omega arith) (omega arith) refl)
