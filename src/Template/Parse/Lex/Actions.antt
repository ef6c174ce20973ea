-- ===== src/Template/Parse/Lex/Actions.antt =====
-- template/parse/lex.go: the state functions and `run`. `is_word` is `unicode.IsLetter` or
-- `unicode.IsDigit`, which rest on Unicode's tables.
use sadbox.Prelude.{
  ℕ, zero, suc, ◌+◌, Bool, true, false, ◌&&◌, ◌||◌, Option, none, some, [], ◌∷◌, ◌++◌, ◌*◌, Text,
  codes, ◌==◌, leb, if◌then◌else◌, length, text_eq, text_lookup,
}
use sadbox.Template.Escape.Attr.{has_prefix}
use sadbox.Template.Parse.Lex.{
  ItemType, item_bool, item_char, item_char_constant, item_complex, item_colon_equals, item_eof,
  item_field, item_identifier, item_left_delim, item_number, item_pipe, item_raw_string,
  item_right_delim, item_string, item_text, item_variable, unclosed_comment, unclosed_action,
  expected_colon_equals, unrecognized_character, bad_character, unterminated_character_constant,
  unterminated_quoted_string, unterminated_raw_quoted_string, bad_number_syntax, keywords, StateFn,
  lex_text, lex_left_delim, lex_comment, lex_right_delim, lex_inside_action, lex_identifier,
  lex_char, lex_number, lex_quote, lex_raw_quote, TemplateLexer, advance, emit, ignore, Next,
  errorf, emit_then, Delims, new_template_lexer,
}
use sadbox.Template.Parse.Lex.Scan.{
  is_blank, accept, accept_run, text_run, quote_run, raw_run, find_text, quoted_item,
  decimal_digits, hex_digits,
}

-- `if l.pos > l.start { l.emit(itemText) }`.
abbrev pub emit_text_if : Text → TemplateLexer → TemplateLexer
emit_text_if [] l = l
emit_text_if (c ∷ s) l = emit item_text l

unfoldable pub emit_text : TemplateLexer → TemplateLexer
emit_text l = emit_text_if l.pending l

-- Where `lexText` stopped.
abbrev pub text_end : ℕ × Bool → TemplateLexer → Next
text_end (n, true) l = (some lex_left_delim, emit_text (advance n l))
text_end (n, false) l = (none, emit item_eof (emit_text (advance n l)))

-- The closing of a comment at a place, or none.
abbrev pub comment_end : Text → ℕ × Bool → TemplateLexer → Next
comment_end right (n, true) l = (some lex_text, ignore (advance (n + 2 + length right) l))
comment_end right (n, false) l = errorf unclosed_comment l

-- The first rune of a text, if there is one.
abbrev pub first_rune : Text → Option ℕ
first_rune [] = none
first_rune (r ∷ rs) = some r

abbrev pub is_rune : Option ℕ → ℕ → Bool
is_rune none c = false
is_rune (some r) c = r == c

-- `atTerminator`, at the text ahead.
unfoldable pub at_terminator : Text → Text → Bool
at_terminator right [] = true
at_terminator right (r ∷ rs) =
    is_blank r || r == b',' || r == b'|' || r == b':' || is_rune (first_rune right) r

-- The type of an identifier that is not a keyword.
unfoldable pub word_type : Text → ItemType
word_type word =
    if is_rune (first_rune word) b'.'
    then item_field
    else if is_rune (first_rune word) b'$'
    then item_variable
    else if text_eq word (codes "true") || text_eq word (codes "false")
    then item_bool
    else item_identifier

unfoldable pub keyword_or : Option ItemType → ItemType → ItemType
keyword_or none t = t
keyword_or (some k) t = k

-- A number that was scanned well or not.
abbrev bad_number : TemplateLexer → Next
bad_number l = errorf (bad_number_syntax l.pending) l

abbrev pub final_rune : Text → Option ℕ
final_rune [] = none
final_rune (r ∷ []) = some r
final_rune (r ∷ c ∷ rs) = final_rune (c ∷ rs)

-- Parts of `scanNumber`.
abbrev pub exponent : TemplateLexer → TemplateLexer
exponent l = accept_run decimal_digits (accept (codes "+-") l).1

abbrev pub optional : Bool × TemplateLexer → (TemplateLexer → TemplateLexer) → TemplateLexer
optional (true, l) f = f l
optional (false, l) f = l

-- The second part of a complex number.
abbrev pub complex_end : Bool × TemplateLexer → Next
complex_end (true, l) =
    if is_rune (final_rune l.pending) b'i'
    then emit_then item_complex lex_inside_action l
    else bad_number l
complex_end (false, l) = bad_number l

abbrev pub is_decimal : ℕ → Bool
is_decimal r = leb b'0' r && leb r b'9'

-- Behind a dot; `l` is the lexer in front of it.
abbrev pub after_dot : Option ℕ → TemplateLexer → TemplateLexer → Next
after_dot none l' l = (some lex_number, l)
after_dot (some r) l' l = if is_decimal r then (some lex_number, l) else (some lex_identifier, l')

-- The end of `lexIdentifier`; a text that has ended is at a terminator.
abbrev pub bad_word : Text → TemplateLexer → Next
bad_word [] l = (none, l)
bad_word (r ∷ rs) l = errorf (bad_character r) l

abbrev pub word_end : Delims → TemplateLexer → Next
word_end d l =
    if at_terminator d.right l.ahead
    then emit_then (keyword_or (text_lookup keywords l.pending) (word_type l.pending))
        lex_inside_action l
    else bad_word l.ahead l

module _ (is_word : ℕ → Bool) where
  unfoldable pub is_alpha_numeric : ℕ → Bool
  is_alpha_numeric r = r == b'_' || is_word r

  -- The loop of `lexIdentifier`: the runes that it absorbs, dots among them or not.
  unfoldable pub word_run : Bool → Text → ℕ
  word_run dots [] = 0
  word_run dots (r ∷ rs) =
      let n = word_run dots rs in if is_alpha_numeric r || (r == b'.' && dots) then suc n else 0

  -- `l.next()` if the rune ahead is alphanumeric.
  abbrev pub number_end_at : Text → TemplateLexer → Bool × TemplateLexer
  number_end_at [] l = (true, l)
  number_end_at (r ∷ rs) l = if is_alpha_numeric r then (false, advance 1 l) else (true, l)

  abbrev pub number_end : TemplateLexer → Bool × TemplateLexer
  number_end l = number_end_at l.ahead l

  -- Behind the fraction, behind the digits in front of it, and all.
  abbrev pub after_fraction : TemplateLexer → Bool × TemplateLexer
  after_fraction l =
      let l₁ = optional (accept (codes "eE") l) exponent in number_end (accept (codes "i") l₁).1

  abbrev pub after_mantissa : Text → TemplateLexer → Bool × TemplateLexer
  after_mantissa ds l = after_fraction (optional (accept (codes ".") l) (accept_run ds))

  abbrev pub scan_digits : Text → TemplateLexer → Bool × TemplateLexer
  scan_digits ds l = after_mantissa ds (accept_run ds l)

  -- Behind a leading zero, and behind an `x` that may follow it.
  abbrev pub after_x : Bool × TemplateLexer → Bool × TemplateLexer
  after_x (true, l) = scan_digits hex_digits l
  after_x (false, l) = scan_digits decimal_digits l

  abbrev pub after_zero : Bool × TemplateLexer → Bool × TemplateLexer
  after_zero (true, l) = after_x (accept (codes "xX") l)
  after_zero (false, l) = scan_digits decimal_digits l

  unfoldable pub scan_number : TemplateLexer → Bool × TemplateLexer
  scan_number l = after_zero (accept (codes "0") (accept (codes "+-") l).1)

  abbrev pub number_or_complex : Bool × TemplateLexer → Next
  number_or_complex (true, l) =
      if is_rune (first_rune l.ahead) b'+' || is_rune (first_rune l.ahead) b'-'
      then complex_end (scan_number l)
      else emit_then item_number lex_inside_action l
  number_or_complex (false, l) = bad_number l

  -- The switch of `lexInsideAction` on the rune in front, with the lexer behind it and in front of it.
  unfoldable pub inside_rune : ℕ → TemplateLexer → TemplateLexer → Next
  inside_rune r l' l =
      if r == 10
      then errorf unclosed_action l'
      else if is_blank r
      then (some lex_inside_action, ignore l')
      else if r == b':'
      then (if is_rune (first_rune l'.ahead) b'='
          then emit_then item_colon_equals lex_inside_action (advance 1 l')
          else errorf expected_colon_equals (advance 1 l'))
      else if r == b'|'
      then emit_then item_pipe lex_inside_action l'
      else if r == b'"'
      then (some lex_quote, l')
      else if r == b'`'
      then (some lex_raw_quote, l')
      else if r == b'$'
      then (some lex_identifier, l')
      else if r == b'\''
      then (some lex_char, l')
      else if r == b'.'
      then after_dot (first_rune l'.ahead) l' l
      else if r == b'+' || r == b'-' || is_decimal r
      then (some lex_number, l)
      else if is_alpha_numeric r
      then (some lex_identifier, l)
      else if leb 32 r && leb r 126
      then emit_then item_char lex_inside_action l'
      else errorf (unrecognized_character r) l'

  -- Over the runes of an identifier.
  abbrev pub word_advance : TemplateLexer → TemplateLexer
  word_advance l =
      let first = first_rune (l.pending ++ l.ahead) in
      advance (word_run (is_rune first b'.' || is_rune first b'$') l.ahead) l

  abbrev pub inside_at : Text → TemplateLexer → Next
  inside_at [] l = errorf unclosed_action l
  inside_at (r ∷ rs) l = inside_rune r (advance 1 l) l

  -- One call of a state function.
  unfoldable pub call_state : Delims → StateFn → TemplateLexer → Next
  call_state d lex_text l = text_end (text_run d.left l.ahead) l
  call_state d lex_left_delim l =
      let l' = advance (length d.left) l in
      if has_prefix (codes "/*") l'.ahead
      then (some lex_comment, l')
      else emit_then item_left_delim lex_inside_action l'
  call_state d lex_comment l =
      let l' = advance 2 l in comment_end d.right (find_text (codes "*/" ++ d.right) l'.ahead) l'
  call_state d lex_right_delim l = emit_then item_right_delim lex_text (advance (length d.right) l)
  call_state d lex_inside_action l =
      if has_prefix d.right l.ahead then (some lex_right_delim, l) else inside_at l.ahead l
  call_state d lex_identifier l = word_end d (word_advance l)
  call_state d lex_char l =
      quoted_item item_char_constant unterminated_character_constant (quote_run b'\'' l.ahead) l
  call_state d lex_number l = number_or_complex (scan_number l)
  call_state d lex_quote l =
      quoted_item item_string unterminated_quoted_string (quote_run b'"' l.ahead) l
  call_state d lex_raw_quote l =
      quoted_item item_raw_string unterminated_raw_quoted_string (raw_run l.ahead) l

  -- `run`; the first argument bounds the calls, and `none` is a bound that was too small.
  unfoldable pub run_from : ℕ → Delims → StateFn → TemplateLexer → Option TemplateLexer
  run_from zero d s l = none
  run_from (suc k) d s l =
      let (next, l') = call_state d s l in
      elim next [ none ↦ some l' | some s' ↦ run_from k d s' l' ]

  unfoldable pub run_lexer : Delims → Text → Option TemplateLexer
  run_lexer d input = run_from (3 + 3 * length input) d lex_text (new_template_lexer input)
