-- ===== src/Color/Hex/Malformed.antt =====
-- color/hex.go: what is no text of a color.
use sadbox.Prelude.{
  ℕ, ◌+◌, ◌*◌, ◌≡◌, none, some, [], ◌∷◌, ◌++◌, Text, arith, ◌==◌, length, ◌⊎◌, inl, inr, Bool-cases,
  Option-cases, ==_iff, take, drop, ◌∙◌,
}
use sadbox.Color.Hex.{
  hex_value, parse_hex, parse_uint, strip_hash, expand, black, split_rgb, hex_to_rgb,
}
use sadbox.Color.Hex.Laws.{parse_hex-cons}

-- Each byte is a hexadecimal digit.
abbrev pub AllHex : Text → Type 0
AllHex [] = Unit
AllHex (c ∷ cs) = ((d : ℕ) × (hex_value c ≡ some d)) × AllHex cs

parse_hex-AllHex : (acc : ℕ) (s : Text) → (parse_hex acc s ≡ none) ⊎ AllHex s
unfolding parse_hex
parse_hex-AllHex acc [] = inr tt
parse_hex-AllHex acc (c ∷ cs) = elim (Option-cases (hex_value c)) [
  | inl no_digit ↦ inl (rw (no_digit, parse_hex))
  | inr (d, digit) ↦ elim (parse_hex-AllHex (acc * 16 + d) cs) [
    | inl bad ↦ inl (parse_hex-cons acc c cs digit ∙ bad)
    | inr all ↦ inr ((d, digit), all)
  ]
]

split_rgb-AllHex : (s : Text) → (split_rgb (parse_uint s) ≡ black) ⊎ AllHex s
unfolding parse_uint split_rgb
split_rgb-AllHex s = elim (parse_hex-AllHex 0 s) [
  | inl bad ↦ inl (rw (bad, parse_uint))
  | inr all ↦ inr all
]

-- A text of three or of six hexadecimal digits.
abbrev pub IsWellFormed : Text → Type 0
IsWellFormed s = AllHex s × ((length s ≡ 3) ⊎ (length s ≡ 6))

three_hex :
    (s : Text)
    → length s ≡ 3
    → AllHex (
        take 1 s
        ++ (take 1 s ++ (take 1 (drop 1 s) ++ (take 1 (drop 1 s) ++ (drop 2 s ++ drop 2 s)))))
    → AllHex s
three_hex [] n h = tt
three_hex (a ∷ []) n h = absurd (omega arith)
three_hex (a ∷ b ∷ []) n h = absurd (omega arith)
three_hex (a ∷ b ∷ c ∷ []) n h = (h.0, (h.1.1.0, (h.1.1.1.1.0, tt)))
three_hex (a ∷ b ∷ c ∷ d ∷ s) n h = absurd (omega arith)

expand-IsWellFormed : (s : Text) → length (expand s) ≡ 6 → AllHex (expand s) → IsWellFormed s
unfolding expand
expand-IsWellFormed s h all = elim (Bool-cases (length s == 3)) [
  | inl three ↦ (
    three_hex s ((==_iff (length s) 3).0 three) (rw three at all),
    inl ((==_iff (length s) 3).0 three),
  )
  | inr longer ↦ (rw longer at all, inr (rw longer at h))
]

-- Where what follows the `#`, if there is one, is not three or six hexadecimal digits, the color is
-- black.
pub hex_to_rgb-malformed : (h : Text) → ¬ IsWellFormed (strip_hash h) → hex_to_rgb h ≡ black
unfolding hex_to_rgb
hex_to_rgb-malformed h bad = elim (Bool-cases (length (expand (strip_hash h)) == 6)) [
  | inl long ↦ elim (split_rgb-AllHex (expand (strip_hash h))) [
    | inl e ↦ rw long e
    | inr all ↦ absurd (
        bad (
          expand-IsWellFormed (strip_hash h) ((==_iff (length (expand (strip_hash h))) 6).0 long)
            all))
  ]
  | inr short ↦ rw short
]
