-- ===== src/Template/Parse/Tests.antt =====
-- template/parse: the lexer on concrete templates.
use sadbox.Prelude.{ℕ, ◌≡◌, refl, Bool, true, ◌||◌, ◌&&◌, leb, some, List, [], ◌∷◌, Text, codes}
use sadbox.Template.Parse.Lex.{
  TemplateLexer, new_delims, new_template_lexer, advance, emit, ignore, errorf, Item, item,
  item_error, item_text, item_left_delim, item_right_delim, item_if, item_end, item_field, item_eof,
  item_number, bad_character,
}
use sadbox.Template.Parse.Lex.Scan.{
  is_blank, accept, accept_run, run_length, text_run, quote_run, raw_run, find_text,
}
use sadbox.Template.Parse.Lex.Actions.{
  emit_text, at_terminator, word_type, keyword_or, is_alpha_numeric, word_run, scan_number,
  inside_rune, call_state, run_from, run_lexer,
}
use sadbox.Template.Parse.Lex.Slices.{Lies}
use sadbox.Template.Parse.Lex.Items.{run_lexer-Lies}
use sadbox.Template.Parse.Lex.Final.{closed, run_lexer-closed}
use sadbox.Template.Parse.Lex.Lines.{reader, read_items, next_item, line_number}
use sadbox.Template.Escape.Attr.{has_prefix}

-- Letters and digits of ASCII.
abbrev ascii_word : ℕ → Bool
ascii_word r = leb b'0' r && leb r b'9' || leb b'a' r && leb r b'z' || leb b'A' r && leb r b'Z'

abbrev greeting : Text
greeting = codes "Hi {{if .x}}\n{{-1.5}}{{end}}"

abbrev greeting_items : List Item
greeting_items =
    item item_text 0 (codes "Hi ")
    ∷ item item_left_delim 3 (codes "{{")
    ∷ item item_if 5 (codes "if")
    ∷ item item_field 8 (codes ".x")
    ∷ item item_right_delim 10 (codes "}}")
    ∷ item item_text 12 (codes "\n")
    ∷ item item_left_delim 13 (codes "{{")
    ∷ item item_number 15 (codes "-1.5")
    ∷ item item_right_delim 19 (codes "}}")
    ∷ item item_left_delim 21 (codes "{{")
    ∷ item item_end 23 (codes "end")
    ∷ item item_right_delim 26 (codes "}}")
    ∷ item item_eof 28 []
    ∷ []

abbrev greeting_end : TemplateLexer
greeting_end = record { start = 28; pending = []; ahead = []; items = greeting_items }

greeting_run : run_lexer ascii_word (new_delims [] []) greeting ≡ some greeting_end
unfolding run_lexer run_from call_state inside_rune scan_number word_run is_alpha_numeric keyword_or
    word_type at_terminator emit_text is_blank accept accept_run run_length text_run quote_run
    raw_run find_text new_delims new_template_lexer advance emit ignore errorf has_prefix
greeting_run = refl

-- Behind an error nothing follows: the dollar is no letter.
bad_run :
    run_lexer ascii_word (new_delims (codes "<%") (codes "%>")) (codes "<%ab$%>")
    ≡ some (record {
      start = 2;
      pending = codes "ab";
      ahead = codes "$%>";
      items = item item_left_delim 0 (codes "<%") ∷ item_error 2 (bad_character b'$') ∷ [];
    })
unfolding run_lexer run_from call_state inside_rune scan_number word_run is_alpha_numeric keyword_or
    word_type at_terminator emit_text is_blank accept accept_run run_length text_run quote_run
    raw_run find_text new_delims new_template_lexer advance emit ignore errorf has_prefix
bad_run = refl

run_lexer-Lies_example : Lies greeting 0 greeting_items 28
run_lexer-Lies_example =
    run_lexer-Lies greeting ascii_word (new_delims [] []) greeting_end greeting_run

run_lexer-closed_example :
    (m : TemplateLexer) × (run_lexer ascii_word (new_delims [] []) greeting ≡ some m)
    × (closed m.items ≡ true)
run_lexer-closed_example = run_lexer-closed ascii_word [] [] greeting

second_line : line_number greeting (read_items 7 (reader greeting_end)) ≡ 2
unfolding line_number read_items reader next_item
second_line = refl
