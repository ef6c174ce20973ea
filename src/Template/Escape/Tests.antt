-- ===== src/Template/Escape/Tests.antt =====
-- template/escape: runs of the model, and the theorems at concrete inputs.
use sadbox.Prelude.{
  drop, [], ◌∷◌, ◌++◌, ◌≤◌, ◌≡◌, refl, map, codes, length, arith, Bool, true, false, Text, none,
  some,
}
use sadbox.Template.Escape.Advance.Table.{transition_func-Goes}
use sadbox.Template.Escape.Advance.Scripts.{Goes}
use sadbox.Template.Escape.Context.{
  state_tag, state_rcdata, state_js, state_js_line_cmt, element_script, element_title, Context,
  zero_context, delim_double_quote,
}
use sadbox.Template.Escape.Css.{
  is_hex, is_css_nmchar, hex_digit_value, hex_decode, skip_css_space, encode_rune, hex_run,
  before_backslash, hex_escape, decode_css_rest, decode_css_loop, decode_css,
}
use sadbox.Template.Escape.Decode.{length-decode_css_le}
use sadbox.Template.Escape.Attr.{
  has_prefix, contains, colon_split, content_type_plain, content_type_url,
}
use sadbox.Template.Escape.Html.{
  t_text, t_text_loop, t_text_tag, t_text_close, t_tag, t_tag_at, element_content_type,
}
use sadbox.Template.Escape.Scan.{
  lower, eat_white_space, eat_tag_name, tag_length, tag_rest, ascii_alpha, ascii_alpha_num,
}
use sadbox.Template.Escape.Script.{
  t_js, t_js_from, t_js_at, t_js_slash, index_any, next_js_ctx, js_ctx_after, trim_js, count_run,
  last_name, is_js_ident_part,
}
use sadbox.Template.Escape.Text.Returns.{
  NoLonger, NoneLonger, Returns, Within, context_after_text-Returns,
}
use sadbox.Template.Escape.Join.Total.{KeepsErrors, join-KeepsErrors}
use sadbox.Template.Escape.Join.{join}
use sadbox.Template.Escape.Text.{done, context_after_text}
use sadbox.Template.Escape.Transition.{transition_func}
use sadbox.Template.Escape.Replace.{rune_len, range_runes, bytes_of, replace_runes, replace_text}
use sadbox.Template.Escape.Replace.Safe.{at_end, onward, Returned}
use sadbox.Template.Escape.Markup.{
  html_replacer, html_nospace_replacement_table, hex_reference, lower_hex_digit,
}
use sadbox.Template.Escape.Markup.Special.{
  ordinary, nospace_table, ValidUtf8, html_replacer-Returned,
}
use sadbox.Template.Escape.Strings.{
  replace, js_str_replacement_table, js_str_norm_replacement_table, js_regexp_replacement_table,
  css_escaped, css_ident, css_value_of,
}
use sadbox.Template.Escape.Strings.Special.{js_ordinary, css_ordinary, replace-Returned_all}
use sadbox.Template.Escape.Percent.{
  url_processor, process, unescaped, reserved, unreserved, percent, url_filter_of,
}
use sadbox.Template.Escape.Strip.{strip_tags, strip_loop, before_last}
use sadbox.Template.Escape.Strip.Returns.{strip_tags-Returns}
use sadbox.Template.Escape.Percent.RoundTrip.{decoded, decoded-url_processor}

-- A script tag, behind text.
test_script :
    t_text zero_context (codes "a < b <script src=x>")
    ≡ (record zero_context { state = state_tag; element = element_script }, 13)
unfolding t_text t_text_loop t_text_tag t_text_close eat_tag_name tag_length tag_rest ascii_alpha
    ascii_alpha_num lower has_prefix
test_script = refl

test_line_comment : t_js (record zero_context { state = state_js }) (codes "x = 1 // y") ≡ (
  record (record zero_context { state = state_js_line_cmt }) {
    js_ctx = (t_js (record zero_context { state = state_js }) (codes "x = 1 ")).0.js_ctx;
  },
  8,
)
unfolding t_js t_js_from t_js_at t_js_slash index_any next_js_ctx js_ctx_after trim_js count_run
    last_name is_js_ident_part
test_line_comment = refl

test_decode : decode_css (codes "\\41 b\\22") ≡ codes "Ab\""
unfolding decode_css decode_css_loop decode_css_rest hex_escape before_backslash hex_run encode_rune
    skip_css_space hex_decode hex_digit_value is_hex
test_decode = refl

abbrev title : Context
title = record zero_context { state = state_rcdata; element = element_title }

transition_func-Goes_example :
    Goes title
      (length (codes "a</TITLE>"))
      (transition_func (map lower) title.state title (codes "a</TITLE>"))
transition_func-Goes_example =
    transition_func-Goes (map lower) title (codes "a</TITLE>") (omega arith) (omega arith)

length-decode_css_le_example :
    length (decode_css (codes "\\10ffff0 \\")) ≤ length (codes "\\10ffff0 \\")
length-decode_css_le_example = length-decode_css_le (codes "\\10ffff0 \\")

lower-NoLonger : (s : Text) → NoLonger (map lower) s
lower-NoLonger [] = omega arith
lower-NoLonger (x ∷ s) = omega (arith, lower-NoLonger s)

lower-NoneLonger : (s : Text) → NoneLonger (map lower) s
lower-NoneLonger s k = lower-NoLonger (drop k s)

-- Behind `onclick="`.
abbrev handler : Context
handler = record zero_context { state = state_js; delim = delim_double_quote }

context_after_text-Returns_example :
    Returns
      (Within (length (codes "f(1) // x")))
      (context_after_text (map lower) (λ s. s) handler (codes "f(1) // x"))
context_after_text-Returns_example =
    context_after_text-Returns (map lower) (λ s. s) handler (codes "f(1) // x") (λ e. absurd (cc))
      λ _. lower-NoneLonger (codes "f(1) // x")

join-KeepsErrors_example :
    Returns (KeepsErrors handler title) (join 2 handler title)
    × (join 2 handler handler ≡ done handler)
join-KeepsErrors_example = join-KeepsErrors handler title

-- A letter, a space, an angle bracket and a rune of two bytes.
abbrev mixed : Text
mixed = b'a' ∷ b' ' ∷ b'<' ∷ 0xc3 ∷ 0xa9 ∷ []

mixed-ValidUtf8 : ValidUtf8 mixed
unfolding range_runes rune_len
mixed-ValidUtf8 = onward refl (onward refl (onward refl (onward refl at_end)))

html_replacer-Returned_example : Returned ordinary (html_replacer mixed (nospace_table false) false)
html_replacer-Returned_example = html_replacer-Returned false mixed mixed-ValidUtf8

test_mixed :
    html_replacer mixed html_nospace_replacement_table false
    ≡ some (codes "a&#32;&lt;" ++ (0xc3 ∷ 0xa9 ∷ []))
unfolding html_replacer replace_text replace_runes range_runes bytes_of rune_len
test_mixed = refl

-- A byte that is no UTF-8, at the end of the text and in front of a rune that is replaced.
test_broken : html_replacer (0xff ∷ []) html_nospace_replacement_table false ≡ none
unfolding html_replacer replace_text replace_runes range_runes bytes_of rune_len hex_reference
    lower_hex_digit
test_broken = refl

test_broken_front : html_replacer (0xff ∷ codes "<abc") html_nospace_replacement_table false ≡ none
unfolding html_replacer replace_text replace_runes range_runes bytes_of rune_len hex_reference
    lower_hex_digit
test_broken_front = refl

replace-Returned_all_example :
    Returned js_ordinary (replace mixed js_str_replacement_table)
    × Returned js_ordinary (replace mixed js_str_norm_replacement_table)
    × Returned js_ordinary (replace mixed js_regexp_replacement_table)
    × Returned css_ordinary (css_escaped mixed)
replace-Returned_all_example = replace-Returned_all mixed

-- A NUL in front of a digit.
test_nul : replace (0 ∷ b'1' ∷ []) js_str_replacement_table ≡ some (codes "\\01")
unfolding replace replace_text replace_runes range_runes bytes_of rune_len
test_nul = refl

test_css : css_escaped (codes "<a>g") ≡ some (codes "\\3c a\\3eg")
unfolding css_escaped replace_text replace_runes range_runes bytes_of rune_len is_hex
test_css = refl

test_css_value : css_value_of (codes "expre\\ssion", content_type_plain) ≡ codes "ZgotmplZ"
unfolding css_value_of css_ident decode_css decode_css_loop decode_css_rest before_backslash hex_run
    hex_escape encode_rune hex_decode hex_digit_value skip_css_space is_hex is_css_nmchar lower
    contains has_prefix
test_css_value = refl

decoded-url_processor_example :
    (decoded (url_processor false (mixed, content_type_plain)) ≡ mixed)
    × ((norm : Bool) → decoded (url_processor norm (mixed, content_type_url)) ≡ decoded mixed)
    × (decoded (url_processor true (mixed, content_type_plain)) ≡ decoded mixed)
decoded-url_processor_example = decoded-url_processor mixed refl

test_url : url_processor false (codes "a b/%2f", content_type_plain) ≡ codes "a%20b%2f%252f"
unfolding url_processor process unescaped reserved unreserved percent lower_hex_digit is_hex
test_url = refl

test_url_filter :
    url_filter_of (map lower) (codes "JavaScript:alert(1)", content_type_plain) ≡ codes "#ZgotmplZ"
unfolding url_filter_of colon_split lower
test_url_filter = refl

abbrev tagged : Text
tagged = codes "I <3 <b>you</b>!"

strip_tags-Returns_example : Returns (λ t. length t ≤ length tagged) (strip_tags (map lower) tagged)
strip_tags-Returns_example = strip_tags-Returns (map lower) tagged (lower-NoneLonger tagged)

test_strip : strip_tags (map lower) tagged ≡ done (codes "I <3 you!")
unfolding strip_tags strip_loop before_last transition_func t_text t_text_loop t_text_tag
    t_text_close t_tag t_tag_at eat_white_space element_content_type has_prefix eat_tag_name
    tag_length tag_rest ascii_alpha ascii_alpha_num lower
test_strip = refl

-- A tag that is not closed.
test_unclosed : strip_tags (map lower) (codes "a<b") ≡ done (codes "a<b")
unfolding strip_tags strip_loop before_last transition_func t_text t_text_loop t_text_tag has_prefix
    eat_tag_name tag_length tag_rest ascii_alpha ascii_alpha_num lower
test_unclosed = refl
