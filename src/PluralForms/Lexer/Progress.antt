-- ===== src/PluralForms/Lexer/Progress.antt =====
-- gettext/pluralforms/lexer.go: a token of the text costs the lexer at least a rune.
use sadbox.Prelude.{
  ℕ, suc, ◌+◌, ◌≤◌, ◌≡◌, ap, true, inl, inr, [], ◌∷◌, Text, arith, ◌==◌, Bool-cases, length,
  length-append, has_rune, length-drop,
}
use sadbox.PluralForms.Lexer.Reference.{
  ahead, take_in, drop_in, take_in-append-drop_in, lex_default, lex, next-Agrees,
}
use sadbox.PluralForms.Lexer.{
  Lexer, numbers, symbols, not_empty, invalid_character, symbol_token, single_runes, left, next,
}
use sadbox.PluralForms.Token.{TokenType, token_error, token_eof}

-- What a token costs: nothing if it is the end of the input or an error, which the lexer repeats.
abbrev pub weight : TokenType → ℕ
weight token_error = 0
weight token_eof = 0
weight _ = 1

pub weight-le-one : (t : TokenType) → weight t ≤ 1
weight-le-one token_error = omega arith
weight-le-one _ = omega arith

length-take_in-drop_in :
    (valid xs : Text) → length (take_in valid xs) + length (drop_in valid xs) ≡ length xs
length-take_in-drop_in valid xs = omega (
  arith,
  length-append (take_in valid xs) (drop_in valid xs),
  ap length (take_in-append-drop_in valid xs),
)

length_pos : (s : Text) → not_empty s ≡ true → suc 0 ≤ length s
length_pos [] h = cc
length_pos (x ∷ xs) h = omega arith

lex_default_shrinks :
    (r : ℕ) (xs : Text) → length (lex_default r xs).1 + weight (lex_default r xs).0.typ ≤ length xs
unfolding invalid_character
lex_default_shrinks r xs = elim (Bool-cases (not_empty (take_in numbers xs))) [
  | inl digits ↦
      rw digits
        (omega (arith, length-take_in-drop_in numbers xs, length_pos (take_in numbers xs) digits))
  | inr no_digits ↦ elim (Bool-cases (not_empty (take_in symbols xs))) [
    | inl found ↦
        rw (no_digits, found)
          (omega (
            arith,
            length-take_in-drop_in symbols xs,
            length_pos (take_in symbols xs) found,
            weight-le-one (symbol_token r (take_in symbols xs)).typ,
          ))
    | inr none_found ↦ rw (no_digits, none_found) (omega arith)
  ]
]

lex_shrinks : (xs : Text) → length (lex xs).1 + weight (lex xs).0.typ ≤ length xs
unfolding lex
lex_shrinks [] = omega arith
lex_shrinks (r ∷ rs) = elim (Bool-cases (r == b' ')) [
  | inl space ↦ rw space (omega (arith, lex_shrinks rs))
  | inr not_space ↦ elim (Bool-cases (r == b'n')) [
    | inl n ↦ rw (not_space, n) (omega arith)
    | inr not_n ↦ elim (Bool-cases (has_rune single_runes r)) [
      | inl one ↦ rw (not_space, not_n, one) (omega (arith, weight-le-one))
      | inr more ↦ rw (not_space, not_n, more) (lex_default_shrinks r (r ∷ rs))
    ]
  ]
]

-- A token other than the end and an error takes a rune of those left, and no token adds one.
pub left-next : (l : Lexer) → left (next l).1 + weight (next l).0.typ ≤ left l
left-next l =
    let (same_token, same_text) = next-Agrees l in
    rw same_token (
      omega (
        arith,
        lex_shrinks (ahead l),
        ap length same_text,
        length-drop l.pos l.input,
        length-drop (next l).1.pos (next l).1.input,
      ))
