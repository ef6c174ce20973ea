-- ===== src/Template/Parse/Lex/Scan.antt =====
-- template/parse/lex.go: the loops of the state functions.
use sadbox.Prelude.{
  ℕ, suc, Bool, true, false, ◌||◌, [], ◌∷◌, Text, codes, ◌==◌, if◌then◌else◌, has_rune,
}
use sadbox.Template.Escape.Attr.{has_prefix}
use sadbox.Template.Parse.Lex.{
  ItemType, LexError, lex_inside_action, TemplateLexer, advance, Next, errorf, emit_then,
}

unfoldable pub is_blank : ℕ → Bool
is_blank r = r == b' ' || r == 9 || r == 10 || r == 13

-- `accept`, with its answer.
abbrev pub accept_rune : Text → Text → Bool
accept_rune valid [] = false
accept_rune valid (r ∷ rs) = has_rune valid r

unfoldable pub accept : Text → TemplateLexer → Bool × TemplateLexer
accept valid l = if accept_rune valid l.ahead then (true, advance 1 l) else (false, l)

-- The loop of `acceptRun`.
unfoldable pub run_length : Text → Text → ℕ
run_length valid [] = 0
run_length valid (r ∷ rs) = let n = run_length valid rs in if has_rune valid r then suc n else 0

unfoldable pub accept_run : Text → TemplateLexer → TemplateLexer
accept_run valid l = advance (run_length valid l.ahead) l

-- The loop of `lexText`: the runes in front of the delimiter, and whether there is one.
abbrev pub one_further : ℕ × Bool → ℕ × Bool
one_further (n, b) = (suc n, b)

unfoldable pub text_run : Text → Text → ℕ × Bool
text_run left [] = (0, has_prefix left [])
text_run left (r ∷ rs) =
    let rest = one_further (text_run left rs) in
    if has_prefix left (r ∷ rs) then (0, true) else rest

-- The loops of `lexQuote` and `lexChar`: the runes up to the closing quote or the error, and which it is.
unfoldable pub quote_run : ℕ → Text → ℕ × Bool
quote_run q [] = (0, false)
quote_run q (r ∷ []) =
    if r == b'\\' || r == 10 then (1, false) else if r == q then (1, true) else (1, false)
quote_run q (r ∷ c ∷ rs) =
    let escaped = one_further (one_further (quote_run q rs)) in
    let rest = one_further (quote_run q (c ∷ rs)) in
    if r == b'\\'
    then (if c == 10 then (2, false) else escaped)
    else if r == 10
    then (1, false)
    else if r == q
    then (1, true)
    else rest

-- The loop of `lexRawQuote`.
unfoldable pub raw_run : Text → ℕ × Bool
raw_run [] = (0, false)
raw_run (r ∷ rs) =
    let rest = one_further (raw_run rs) in
    if r == 10 then (1, false) else if r == b'`' then (1, true) else rest

-- `strings.Index`, and whether the text is found.
unfoldable pub find_text : Text → Text → ℕ × Bool
find_text t [] = (0, has_prefix t [])
find_text t (r ∷ rs) =
    let rest = one_further (find_text t rs) in if has_prefix t (r ∷ rs) then (0, true) else rest

-- A quoted item of this type, or this error.
abbrev pub quoted_item : ItemType → LexError → ℕ × Bool → TemplateLexer → Next
quoted_item t e (n, true) l = emit_then t lex_inside_action (advance n l)
quoted_item t e (n, false) l = errorf e (advance n l)

abbrev pub decimal_digits : Text
decimal_digits = codes "0123456789"

abbrev pub hex_digits : Text
hex_digits = codes "0123456789abcdefABCDEF"
