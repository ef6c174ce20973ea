-- ===== src/PluralForms/Lexer.antt =====
-- gettext/pluralforms/lexer.go: the lexer. A text is the list of its runes, so a position counts
-- runes and the width of a rune is 1, or 0 at the end of the input.
pub mod Reference
pub mod Progress
use sadbox.Prelude.{
  ℕ, zero, suc, ◌+◌, ◌-◌, Bool, true, false, Option, none, some, [], ◌∷◌, ◌++◌, Text, codes, ◌==◌,
  if◌then◌else◌, length, get_elem?, take, drop, has_rune, text_lookup,
}
use sadbox.PluralForms.Token.{
  Token, token, token_error, token_eof, token_int, token_var, string_to_token,
}

abbrev pub numbers : Text
numbers = codes "0123456789"

abbrev pub symbols : Text
symbols = codes "*/%+-=!<>|&?:"

pub record Lexer : Type 0 where
  pub input : Text
  pub pos : ℕ
  pub width : ℕ

abbrev pub new_lexer : Text → Lexer
new_lexer expr = record { input = expr; pos = 0; width = 0 }

-- `none` is eof.
unfoldable pub next_rune : Lexer → Option ℕ × Lexer
next_rune l = elim (get_elem? l.input l.pos) [
  | none ↦ (none, record l { width = 0 })
  | some r ↦ (some r, record l { pos = l.pos + 1; width = 1 })
]

abbrev pub backup : Lexer → Lexer
backup l = record l { pos = l.pos - l.width }

abbrev pub in_set : Text → Option ℕ → Bool
in_set valid none = false
in_set valid (some r) = has_rune valid r

-- The loop of `nextRun`; the first argument bounds its rounds.
unfoldable pub skip_run : ℕ → Text → Lexer → Lexer
skip_run zero valid l = l
skip_run (suc k) valid l =
    let rest = skip_run k valid (next_rune l).1 in
    if in_set valid (next_rune l).0 then rest else (next_rune l).1

-- The runes ahead of a lexer.
abbrev pub left : Lexer → ℕ
left l = length l.input - l.pos

unfoldable pub next_run : Text → Lexer → Text × Lexer
next_run valid l =
    let l' = backup (skip_run (suc (left l)) valid l) in
    (take (l'.pos - l.pos) (drop l.pos l.input), l')

-- `s != ""`.
abbrev pub not_empty : Text → Bool
not_empty [] = false
not_empty (_ ∷ _) = true

unfoldable pub invalid_character : ℕ → Token
invalid_character r = record { typ = token_error; val = codes "Invalid character " ++ (r ∷ []) }

-- The token of a run of symbols that begins with the rune `r`, if the table has it.
unfoldable pub symbol_token : ℕ → Text → Token
unfolding invalid_character
symbol_token r s = elim (text_lookup string_to_token s) [
  | some typ ↦ token typ
  | none ↦ invalid_character r
]

-- The `default` case of the switch in `next`, after its `backup`, at the rune `r`.
unfoldable pub next_default : ℕ → Lexer → Token × Lexer
next_default r l =
    let (s, l₁) = next_run numbers l in
    let (t, l₂) = next_run symbols l₁ in
    if not_empty s
    then (record { typ = token_int; val = s }, l₁)
    else if not_empty t
    then (symbol_token r t, l₂)
    else (invalid_character r, l₂)

-- The case of the switch for the operators that are one rune, in `next`.
abbrev pub single_runes : Text
single_runes = codes "*/%+-?:()"

abbrev pub single_token : ℕ → Token
single_token r = elim (text_lookup string_to_token (r ∷ [])) [
  | some typ ↦ token typ
  | none ↦ token token_error
]

-- The switch of `next` at a rune, with the lexer behind it; `again` is the next round of the loop.
unfoldable pub next_switch : Token × Lexer → Option ℕ → Lexer → Token × Lexer
next_switch again none l' = (token token_eof, l')
next_switch again (some r) l' =
    if r == b' '
    then again
    else if r == b'n'
    then (token token_var, l')
    else if has_rune single_runes r
    then (single_token r, l')
    else next_default r (backup l')

-- `next`; the first argument bounds the rounds of its loop over spaces.
unfoldable pub next_loop : ℕ → Lexer → Token × Lexer
next_loop zero l = (token token_eof, l)
next_loop (suc k) l =
    let again = next_loop k (next_rune l).1 in next_switch again (next_rune l).0 (next_rune l).1

unfoldable pub next : Lexer → Token × Lexer
next l = next_loop (suc (left l)) l
