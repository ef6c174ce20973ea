-- ===== src/PluralForms/Printer/Digits.antt =====
-- gettext/pluralforms/parser.go: the digits of a number are read back as that number.
use sadbox.Prelude.{
  ℕ, zero, suc, ◌+◌, ◌-◌, ◌*◌, ◌/◌, ◌%◌, ◌≤◌, ◌<◌, ◌≡◌, refl, true, inl, inr, [], ◌∷◌, ◌++◌, Text,
  arith, ltb, Bool-cases, has_rune,
}
use sadbox.PluralForms.Lexer.{numbers, not_empty}
use sadbox.PluralForms.Operators.{decimal}
use sadbox.PluralForms.Printer.{digits_loop, digits}

abbrev pub AllIn : Text → Text → Type 0
AllIn valid [] = Unit
AllIn valid (x ∷ xs) = (has_rune valid x ≡ true) × AllIn valid xs

AllIn-append : (valid xs ys : Text) → AllIn valid xs → AllIn valid ys → AllIn valid (xs ++ ys)
AllIn-append valid [] ys h k = k
AllIn-append valid (x ∷ xs) ys h k = (h.0, AllIn-append valid xs ys h.1 k)

digit_in_numbers : (d : ℕ) → d < 10 → has_rune numbers (b'0' + d) ≡ true
digit_in_numbers d h = ground arith

digits_loop-AllIn : (f k : ℕ) → AllIn numbers (digits_loop f k)
unfolding digits_loop
digits_loop-AllIn zero k = (digit_in_numbers (k % 10) (omega arith), tt)
digits_loop-AllIn (suc f) k = elim (Bool-cases (ltb k 10)) [
  | inl small ↦ rw small (digit_in_numbers k (ground arith), tt)
  | inr large ↦ rw large (
      AllIn-append numbers (digits_loop f (k / 10)) _ (digits_loop-AllIn f (k / 10))
        (digit_in_numbers (k % 10) (omega arith), tt))
]

decimal-append : (acc : ℕ) (xs ys : Text) → decimal acc (xs ++ ys) ≡ decimal (decimal acc xs) ys
unfolding decimal
decimal-append acc [] ys = refl
decimal-append acc (x ∷ xs) ys = decimal-append (acc * 10 + (x - b'0')) xs ys

decimal-digits_loop : (f k : ℕ) → k ≤ f → decimal 0 (digits_loop f k) ≡ k
unfolding digits_loop decimal
decimal-digits_loop zero k h = omega arith
decimal-digits_loop (suc f) k h = elim (Bool-cases (ltb k 10)) [
  | inl small ↦ rw small (omega arith)
  | inr large ↦
      let big : 10 ≤ k = ground arith in
      rw
        (
          large,
          decimal-append 0 (digits_loop f (k / 10)) ((b'0' + k % 10) ∷ []),
          decimal-digits_loop f (k / 10) (omega arith),
        )
        (omega arith)
]

append-ne-nil : (xs : Text) (y : ℕ) → not_empty (xs ++ (y ∷ [])) ≡ true
append-ne-nil [] y = refl
append-ne-nil (x ∷ xs) y = refl

digits_loop-ne-nil : (f k : ℕ) → not_empty (digits_loop f k) ≡ true
unfolding digits_loop
digits_loop-ne-nil zero k = refl
digits_loop-ne-nil (suc f) k = elim (Bool-cases (ltb k 10)) [
  | inl small ↦ rw small
  | inr large ↦ rw large (append-ne-nil (digits_loop f (k / 10)) (b'0' + k % 10))
]

-- The digits of a number are digits, at least one, and `ParseInt` reads that number from them.
pub digits-decimal :
    (k : ℕ) → AllIn numbers (digits k) × (not_empty (digits k) ≡ true) × (decimal 0 (digits k) ≡ k)
unfolding digits
digits-decimal k =
    (digits_loop-AllIn k k, digits_loop-ne-nil k k, decimal-digits_loop k k (omega arith))
