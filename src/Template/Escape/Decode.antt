-- ===== src/Template/Escape/Decode.antt =====
-- template/escape/css.go: text with its escapes decoded is no longer than its source.
use sadbox.Prelude.{
  ℕ, zero, suc, ◌+◌, ◌-◌, ◌*◌, ◌/◌, ◌≤◌, ◌<◌, ◌≡◌, ◌⊎◌, true, inl, inr, [], ◌∷◌, Text, arith, ◌==◌,
  ltb, Bool-cases, length, take, drop, length-drop, length-append, length-take_le,
}
use sadbox.Template.Escape.Css.{
  is_hex, hex_decode, hex_digit_value, skip_css_space, encode_rune, hex_run, before_backslash,
  hex_escape, decode_css_rest, decode_css_loop, decode_css,
}

skip_css_space_le : (s : Text) → length (skip_css_space s) ≤ length s
unfolding skip_css_space
skip_css_space_le [] = omega arith
skip_css_space_le (x ∷ []) = ground arith
skip_css_space_le (x ∷ y ∷ ys) = ground arith

hex_run_le : (k : ℕ) (s : Text) → (hex_run k s ≤ length s) × (hex_run k s ≤ k)
unfolding hex_run
hex_run_le zero s = (omega arith, omega arith)
hex_run_le (suc k) [] = (omega arith, omega arith)
hex_run_le (suc k) (x ∷ xs) = (ground (arith, hex_run_le k xs), ground (arith, hex_run_le k xs))

before_backslash_le : (s : Text) → before_backslash s ≤ length s
unfolding before_backslash
before_backslash_le [] = omega arith
before_backslash_le (x ∷ xs) = ground (arith, before_backslash_le xs)

-- The greatest number that so many digits write behind a number.
abbrev top : ℕ → ℕ → ℕ
top zero n = n
top (suc j) n = top j (n * 16 + 15)

top_mono : (j n m : ℕ) → n ≤ m → top j n ≤ top j m
top_mono zero n m h = h
top_mono (suc j) n m h = top_mono j (n * 16 + 15) (m * 16 + 15) (omega arith)

hex_digit_value_le : (c : ℕ) → is_hex c ≡ true → hex_digit_value c ≤ 15
unfolding is_hex hex_digit_value
hex_digit_value_le c h = ground arith

hex_decode_le : (k n : ℕ) (s : Text) → hex_decode n (take (hex_run k s) s) ≤ top (hex_run k s) n
unfolding hex_run hex_decode
hex_decode_le zero n s = omega arith
hex_decode_le (suc k) n [] = omega arith
hex_decode_le (suc k) n (x ∷ xs) = elim (Bool-cases (is_hex x)) [
  | inl hex ↦
      let next_value = n * 16 + hex_digit_value x in
      rw hex (
        omega (
          arith,
          hex_decode_le k next_value xs,
          top_mono (hex_run k xs) next_value (n * 16 + 15)
              (omega (arith, hex_digit_value_le x hex)),
        ))
  | inr other ↦ rw other (omega arith)
]

encode_rune_le :
    (r : ℕ)
    → (length (encode_rune r) ≤ 2)
      ⊎ ((length (encode_rune r) ≤ 3) × (0x7ff < r))
      ⊎ ((length (encode_rune r) ≤ 4) × (0xffff < r))
unfolding encode_rune
encode_rune_le r = ground arith

hex_run_pos : (k x : ℕ) (xs : Text) → is_hex x ≡ true → 1 ≤ hex_run (suc k) (x ∷ xs)
unfolding hex_run
hex_run_pos k x xs h = rw h (omega arith)

-- Great numbers have many digits.
many_digits :
    (j r : ℕ) → r ≤ top j 0 → (0x7ff < r → 2 ≤ j) × (0xffff < r → 3 ≤ j) × (0x10ffff < r → 4 ≤ j)
many_digits zero r h = (λ e. omega arith, λ e. omega arith, λ e. omega arith)
many_digits (suc zero) r h = (λ e. omega arith, λ e. omega arith, λ e. omega arith)
many_digits (suc (suc zero)) r h = (λ e. omega arith, λ e. omega arith, λ e. omega arith)
many_digits (suc (suc (suc zero))) r h = (λ e. omega arith, λ e. omega arith, λ e. omega arith)
many_digits (suc (suc (suc (suc j)))) r h = (λ e. omega arith, λ e. omega arith, λ e. omega arith)

encode_rune_digits : (j r : ℕ) → 1 ≤ j → r ≤ top j 0 → length (encode_rune r) ≤ j + 1
encode_rune_digits j r p h =
    let (two, three, _) = many_digits j r h in
    elim (encode_rune_le r) [
      | inl short ↦ omega arith
      | inr (inl (len, great)) ↦ let d = two great in omega arith
      | inr (inr (len, great)) ↦ let d = three great in omega arith
    ]

encode_rune_four : (r : ℕ) → length (encode_rune r) ≤ 4
encode_rune_four r = elim (encode_rune_le r) [
  | inl short ↦ omega arith
  | inr (inl (len, great)) ↦ omega arith
  | inr (inr (len, great)) ↦ len
]

hex_escape_le :
    (x : ℕ) (xs : Text)
    → is_hex x ≡ true
    → length (hex_escape (x ∷ xs)).0 + length (hex_escape (x ∷ xs)).1 ≤ length xs + 2
unfolding hex_escape
hex_escape_le x xs h =
    let s = x ∷ xs in
    let j = hex_run 6 s in
    let r = hex_decode 0 (take j s) in
    let p = hex_run_pos 5 x xs h in
    let bound = hex_decode_le 6 0 s in
    let run = (hex_run_le 6 s).0 in
    elim (Bool-cases (ltb 0x10ffff r)) [
      | inl big ↦
          let great : 0x10ffff < r = ground arith in
          let four = (many_digits j r bound).2 great in
          rw (hex_escape, big)
            (omega (
              arith,
              encode_rune_four (r / 16),
              skip_css_space_le (drop (j - 1) s),
              length-drop (j - 1) s,
            ))
      | inr fits ↦
          rw (hex_escape, fits)
            (omega (
              arith,
              encode_rune_digits j r p bound,
              skip_css_space_le (drop j s),
              length-drop j s,
            ))
    ]

decode_css_rest_le :
    (again : Text → Text)
    → ((s : Text) → length (again s) ≤ length s)
    → (s : Text) → length (decode_css_rest again s) ≤ length s
unfolding decode_css_rest
decode_css_rest_le again h [] = omega arith
decode_css_rest_le again h (b ∷ []) = omega arith
decode_css_rest_le again h (b ∷ x ∷ xs) = elim (Bool-cases (is_hex x)) [
  | inl hex ↦
      let e = hex_escape (x ∷ xs) in
      rw hex (omega (arith, length-append e.0 (again e.1), h e.1, hex_escape_le x xs hex))
  | inr other ↦ rw other (omega (arith, h xs))
]

decode_css_loop_le : (f : ℕ) (s : Text) → length (decode_css_loop f s) ≤ length s
unfolding decode_css_loop
decode_css_loop_le zero s = omega arith
decode_css_loop_le (suc f) s =
    let i = before_backslash s in
    let rest = decode_css_rest (decode_css_loop f) (drop i s) in
    omega (
      arith,
      length-append (take i s) rest,
      length-take_le i s,
      before_backslash_le s,
      length-drop i s,
      decode_css_rest_le (decode_css_loop f) (decode_css_loop_le f) (drop i s),
    )

-- Decoding the escapes of a text makes it no longer, whatever the escapes and however they end.
pub length-decode_css_le : (s : Text) → length (decode_css s) ≤ length s
unfolding decode_css
length-decode_css_le s = elim (Bool-cases (before_backslash s == length s)) [
  | inl none_found ↦ rw none_found (omega arith)
  | inr some_found ↦ rw some_found (decode_css_loop_le (length s) s)
]

-- A text without a backslash is left as it is.
pub decode_css-plain : (s : Text) → before_backslash s ≡ length s → decode_css s ≡ s
unfolding decode_css
decode_css-plain s h = let same : (before_backslash s == length s) ≡ true = ground arith in rw same
