-- ===== src/Template/Parse/Lex/Less.antt =====
-- template/parse/lex.go: the text ahead of the lexer never grows, and which scans shorten it.
use sadbox.Prelude.{
  ℕ, ◌≤◌, ◌<◌, ◌≡◌, refl, Bool, true, false, Bool-cases, inl, inr, ◌||◌, [], ◌∷◌, Text, codes,
  arith, length, length-drop, ◌==◌,
}
use sadbox.Template.Parse.Lex.{TemplateLexer, advance, emit, ignore}
use sadbox.Template.Parse.Lex.Scan.{accept, accept_rune, accept_run, run_length, decimal_digits}
use sadbox.Template.Parse.Lex.Actions.{
  is_decimal, scan_number, scan_digits, after_mantissa, after_zero,
}
use sadbox.Template.Parse.Lex.Slices.{Moves, stays, advances, emits, ignores}
use sadbox.Template.Parse.Lex.Moves.{
  Leads, leads, accept-Moves, after_zero-Leads, after_mantissa-Leads, after_fraction-Leads,
}

-- Runes that begin a number.
unfoldable pub number_at : Text → Bool
number_at [] = false
number_at (r ∷ rs) = r == b'+' || r == b'-' || is_decimal r || r == b'.'

pub Moves-shorter : {l m : TemplateLexer} → Moves l m → length m.ahead ≤ length l.ahead
unfolding advance emit ignore
Moves-shorter stays = omega arith
Moves-shorter (advances {m} n p) = omega (arith, Moves-shorter p, length-drop n m.ahead)
Moves-shorter (emits t q p) = Moves-shorter p
Moves-shorter (ignores p) = Moves-shorter p

pub advance-less :
    (n : ℕ) (l : TemplateLexer)
    → 1 ≤ n
    → 1 ≤ length l.ahead
    → length (advance n l).ahead < length l.ahead
unfolding advance
advance-less n l h k = omega (arith, length-drop n l.ahead)

accept_rune-some : (valid s : Text) → accept_rune valid s ≡ true → 1 ≤ length s
accept_rune-some valid [] h = cc
accept_rune-some valid (r ∷ rs) h = omega arith

run_length-some : (valid : Text) (s : Text) → accept_rune valid s ≡ true → 1 ≤ run_length valid s
unfolding run_length
run_length-some valid [] h = cc
run_length-some valid (r ∷ rs) h = rw h (omega arith)

run_length-none : (valid : Text) (s : Text) → accept_rune valid s ≡ false → run_length valid s ≡ 0
unfolding run_length
run_length-none valid [] h = refl
run_length-none valid (r ∷ rs) h = rw h refl

-- A sign, a zero, a digit or a dot.
number_at-accepted :
    (s : Text)
    → number_at s ≡ true
    → accept_rune (codes "+-") s ≡ false
    → accept_rune decimal_digits s ≡ false
    → accept_rune (codes ".") s ≡ true
unfolding number_at
number_at-accepted [] h a b = cc
number_at-accepted (r ∷ rs) h a b = ground arith

module _ (is_word : ℕ → Bool) (l : TemplateLexer) where
  behind :
      {a : TemplateLexer} {x : Bool × TemplateLexer}
      → length a.ahead < length l.ahead
      → Leads a x
      → length x.1.ahead < length l.ahead
  behind {a} h (leads p) = omega (arith, Moves-shorter p)

  scan_digits-less :
      accept_rune decimal_digits l.ahead ≡ true
      → length (scan_digits is_word decimal_digits l).1.ahead < length l.ahead
  unfolding accept_run
  scan_digits-less h =
      behind
        (advance-less _ l (run_length-some decimal_digits l.ahead h)
          (accept_rune-some decimal_digits l.ahead h))
        (after_mantissa-Leads _ is_word decimal_digits _ stays)

  accepted :
      (valid : Text) → accept_rune valid l.ahead ≡ true → accept valid l ≡ (true, advance 1 l)
  unfolding accept
  accepted valid h = rw h refl

  refused : (valid : Text) → accept_rune valid l.ahead ≡ false → accept valid l ≡ (false, l)
  unfolding accept
  refused valid h = rw h refl

  accept_run-none :
      (valid : Text) → accept_rune valid l.ahead ≡ false → accept_run valid l ≡ advance 0 l
  unfolding accept_run
  accept_run-none valid h = rw (run_length-none valid l.ahead h) refl

module _ (is_word : ℕ → Bool) (l : TemplateLexer) where
  zero-less :
      accept_rune (codes ".") l.ahead ≡ true
      → length (after_mantissa is_word decimal_digits (advance 0 l)).1.ahead < length l.ahead
  unfolding advance accept_run
  zero-less k = rw (accepted is_word (advance 0 l) (codes ".") k) (
      behind is_word l
        (advance-less 1 (advance 0 l) (omega arith) (accept_rune-some (codes ".") l.ahead k))
        (after_fraction-Leads (advance 1 (advance 0 l)) is_word _ (advances _ stays)))

  point-less :
      accept_rune decimal_digits l.ahead ≡ false
      → accept_rune (codes ".") l.ahead ≡ true
      → length (scan_digits is_word decimal_digits l).1.ahead < length l.ahead
  point-less h k = rw (accept_run-none is_word l decimal_digits h) (zero-less k)

  digits_less :
      number_at l.ahead ≡ true
      → accept_rune (codes "+-") l.ahead ≡ false
      → length (scan_digits is_word decimal_digits l).1.ahead < length l.ahead
  digits_less h k = elim (Bool-cases (accept_rune decimal_digits l.ahead)) [
    | inl d ↦ scan_digits-less is_word l d
    | inr d ↦ point-less d (number_at-accepted l.ahead h k d)
  ]

  unsigned_less :
      number_at l.ahead ≡ true
      → accept_rune (codes "+-") l.ahead ≡ false
      → length (after_zero is_word (accept (codes "0") l)).1.ahead < length l.ahead
  unsigned_less h k = elim (Bool-cases (accept_rune (codes "0") l.ahead)) [
    | inl z ↦ rw (accepted is_word l (codes "0") z) (
        behind is_word l (advance-less 1 l (omega arith) (accept_rune-some (codes "0") l.ahead z))
          (after_zero-Leads (advance 1 l) is_word (true, advance 1 l) stays))
    | inr z ↦ rw (refused is_word l (codes "0") z) (digits_less h k)
  ]

  pub scan_number-less :
      number_at l.ahead ≡ true → length (scan_number is_word l).1.ahead < length l.ahead
  unfolding scan_number
  scan_number-less h = elim (Bool-cases (accept_rune (codes "+-") l.ahead)) [
    | inl z ↦ rw (accepted is_word l (codes "+-") z) (
        behind is_word l (advance-less 1 l (omega arith) (accept_rune-some (codes "+-") l.ahead z))
          (after_zero-Leads (advance 1 l) is_word _ (accept-Moves _ (codes "0") _ stays)))
    | inr z ↦ rw (refused is_word l (codes "+-") z) (unsigned_less h z)
  ]
