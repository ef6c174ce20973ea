-- ===== src/Template/Escape/Replace/Decoding.antt =====
-- template/escape: the runes that `range` visits, and their bytes.
use sadbox.Prelude.{
  ℕ, zero, suc, ◌+◌, ◌-◌, ◌*◌, ◌≡◌, Bool, true, false, not, ◌&&◌, ◌||◌, [], ◌∷◌, Text, arith, ltb,
  leb, ◌==◌, if◌then◌else◌, if_elim, take,
}
use sadbox.Gettext.Bytes.{decode_rune}
use sadbox.Template.Escape.Replace.{rune_len, range_runes}
use sadbox.Template.Escape.Replace.Safe.{Decoded, ascii, several, broken, Each, at_end, onward}

abbrev trails : ℕ → Bool
trails b = leb 0x80 b && leb b 0xbf

-- A rune and its width at the front of a text.
Front : Text → ℕ × ℕ → Type 0
Front s (r, n) = Decoded (r, take n s)

module _ (a : ℕ) where
  front₁ : Front (a ∷ []) (decode_rune (a ∷ []))
  unfolding Front
  front₁ =
      if_elim (Front (a ∷ [])) (ltb a 0x80) (λ h. ascii (ground arith)) (λ h. broken (ground arith))

module _ (a b : ℕ) where
  front₂ : Front (a ∷ b ∷ []) (decode_rune (a ∷ b ∷ []))
  unfolding Front rune_len
  front₂ =
      if_elim (Front (a ∷ b ∷ [])) (ltb a 0x80) (λ h. ascii (ground arith))
        λ h.
          if_elim (Front (a ∷ b ∷ [])) (leb 0x80 b && leb b 0xbf && leb 0xc2 a && leb a 0xdf)
            (λ k. several (ground arith) (ground arith) (ground arith))
            λ k.
              if_elim (Front (a ∷ b ∷ [])) (leb 0x80 b && leb b 0xbf) (λ _. broken (ground arith))
                (λ _. broken (ground arith))

module _ (a b c : ℕ) where
  -- What a second byte that does not end the rune and a third one lead to, or that there is no rune.
  third_step :
      (s : Text) (x : ℕ × ℕ)
      → (ltb a 0x80 ≡ false)
      → ((trails c
              && leb 0xe0 a
              && leb a 0xef
              && (ltb 0xe0 a || leb 0xa0 b)
              && (not (a == 0xed) || leb b 0x9f)
            ≡ false)
          → Front (a ∷ b ∷ c ∷ s) x)
      → (leb 0x80 b && leb b 0xbf ≡ true)
      → Front (a ∷ b ∷ c ∷ s) (
          if trails c
            && leb 0xe0 a
            && leb a 0xef
            && (ltb 0xe0 a || leb 0xa0 b)
            && (not (a == 0xed) || leb b 0x9f)
          then (((a - 0xe0) * 64 + (b - 0x80)) * 64 + (c - 0x80), 3)
          else x)
  unfolding Front rune_len
  third_step s x h g k =
      if_elim (Front (a ∷ b ∷ c ∷ s))
        (trails c
          && leb 0xe0 a
          && leb a 0xef
          && (ltb 0xe0 a || leb 0xa0 b)
          && (not (a == 0xed) || leb b 0x9f))
        (λ e. several (ground arith) (ground arith) (ground arith)) g

  front₃ : Front (a ∷ b ∷ c ∷ []) (decode_rune (a ∷ b ∷ c ∷ []))
  unfolding Front rune_len
  front₃ =
      if_elim (Front (a ∷ b ∷ c ∷ [])) (ltb a 0x80) (λ h. ascii (ground arith))
        λ h.
          if_elim (Front (a ∷ b ∷ c ∷ [])) (trails b && leb 0xc2 a && leb a 0xdf)
            (λ k. several (ground arith) (ground arith) (ground arith))
            λ k.
              if_elim (Front (a ∷ b ∷ c ∷ [])) (trails b)
                (λ e.
                  third_step [] _ h
                    (λ _.
                      if_elim (Front (a ∷ b ∷ c ∷ [])) (trails c) (λ _. broken (ground arith))
                        (λ _. broken (ground arith)))
                    e)
                (λ _. broken (ground arith))

  front₄ : (d : ℕ) (s : Text) → Front (a ∷ b ∷ c ∷ d ∷ s) (decode_rune (a ∷ b ∷ c ∷ d ∷ s))
  unfolding Front rune_len
  front₄ d s =
      if_elim (Front (a ∷ b ∷ c ∷ d ∷ s)) (ltb a 0x80) (λ h. ascii (ground arith))
        λ h.
          if_elim (Front (a ∷ b ∷ c ∷ d ∷ s)) (trails b && leb 0xc2 a && leb a 0xdf)
            (λ k. several (ground arith) (ground arith) (ground arith))
            λ k.
              if_elim (Front (a ∷ b ∷ c ∷ d ∷ s)) (trails b)
                (λ e.
                  third_step (d ∷ s) _ h
                    (λ _.
                      if_elim (Front (a ∷ b ∷ c ∷ d ∷ s)) (trails c)
                        (λ m.
                          if_elim (Front (a ∷ b ∷ c ∷ d ∷ s))
                            (trails d
                              && leb 0xf0 a
                              && leb a 0xf4
                              && (ltb 0xf0 a || leb 0x90 b)
                              && (ltb a 0xf4 || leb b 0x8f))
                            (λ n. several (ground arith) (ground arith) (ground arith))
                            (λ _. broken (ground arith)))
                        (λ _. broken (ground arith)))
                    e)
                (λ _. broken (ground arith))

front : (b : ℕ) (s : Text) → Front (b ∷ s) (decode_rune (b ∷ s))
front a [] = front₁ a
front a (b ∷ []) = front₂ a b
front a (b ∷ c ∷ []) = front₃ a b c
front a (b ∷ c ∷ d ∷ s) = front₄ a b c d s

pub range_runes-Decoded : (k : ℕ) (s : Text) → Each Decoded (range_runes k s)
unfolding range_runes Front
range_runes-Decoded zero s = at_end
range_runes-Decoded (suc k) [] = at_end
range_runes-Decoded (suc k) (b ∷ s) = onward (front b s) (range_runes-Decoded k _)
