-- ===== src/Template/Escape/Markup.antt =====
-- template/escape/html.go: the escapers of markup. A replacement table is the list of its entries.
pub mod Entries
pub mod Special
use sadbox.Prelude.{
  ℕ, suc, ◌+◌, ◌-◌, ◌/◌, ◌%◌, Bool, true, false, not, ◌&&◌, ◌||◌, Option, none, some, List, [], ◌∷◌,
  ◌++◌, Text, codes, ◌==◌, ltb, leb, if◌then◌else◌,
}
use sadbox.Template.Escape.Attr.{
  ContentType, content_type_plain, content_type_html, content_type_html_attr, attr_type,
}
use sadbox.Template.Escape.Content.{Arg, stringify}
use sadbox.Template.Escape.Replace.{replace_text}
use sadbox.Template.Escape.Script.{in_range}

abbrev pub Table : Type 0
Table = List (ℕ × Text)

abbrev pub table_entry : Table → ℕ → Option Text
table_entry [] r = none
table_entry ((k, t) ∷ m) r = if k == r then some t else table_entry m r

-- `len` of a table whose last entry is the greatest.
abbrev pub table_length : Table → ℕ
table_length [] = 0
table_length ((k, t) ∷ []) = suc k
table_length ((k, t) ∷ e ∷ m) = table_length (e ∷ m)

abbrev pub quotes_table : Table
quotes_table =
    (b'\'', codes "&#39;")
    ∷ (b'+', codes "&#43;")
    ∷ (b'<', codes "&lt;")
    ∷ (b'>', codes "&gt;")
    ∷ []

-- U+FFFD is three bytes.
abbrev pub html_norm_replacement_table : Table
html_norm_replacement_table = (0, 0xef ∷ 0xbf ∷ 0xbd ∷ []) ∷ (b'"', codes "&#34;") ∷ quotes_table

abbrev pub html_replacement_table : Table
html_replacement_table =
    (0, 0xef ∷ 0xbf ∷ 0xbd ∷ []) ∷ (b'"', codes "&#34;") ∷ (b'&', codes "&amp;") ∷ quotes_table

abbrev pub blanks_table : Table → Table
blanks_table m =
    (0, codes "&#xfffd;")
    ∷ (b'\t', codes "&#9;")
    ∷ (b'\n', codes "&#10;")
    ∷ (11, codes "&#11;")
    ∷ (12, codes "&#12;")
    ∷ (b'\r', codes "&#13;")
    ∷ (b' ', codes "&#32;")
    ∷ (b'"', codes "&#34;")
    ∷ m

abbrev pub nospace_quotes_table : Table
nospace_quotes_table =
    (b'\'', codes "&#39;")
    ∷ (b'+', codes "&#43;")
    ∷ (b'<', codes "&lt;")
    ∷ (b'=', codes "&#61;")
    ∷ (b'>', codes "&gt;")
    ∷ (b'`', codes "&#96;")
    ∷ []

abbrev pub html_nospace_replacement_table : Table
html_nospace_replacement_table = blanks_table ((b'&', codes "&amp;") ∷ nospace_quotes_table)

abbrev pub html_nospace_norm_replacement_table : Table
html_nospace_norm_replacement_table = blanks_table nospace_quotes_table

-- A digit of `%x`.
unfoldable pub lower_hex_digit : ℕ → ℕ
lower_hex_digit d = if ltb d 10 then b'0' + d else b'a' + (d - 10)

-- `&#x%x;` of a rune with four digits.
unfoldable pub hex_reference : ℕ → Text
hex_reference r =
    codes "&#x"
    ++ (lower_hex_digit (r / 4096)
        ∷ lower_hex_digit (r / 256 % 16)
        ∷ lower_hex_digit (r / 16 % 16)
        ∷ lower_hex_digit (r % 16)
        ∷ b';'
        ∷ [])

abbrev pub html_replacement : Table → Bool → ℕ → Option Text
html_replacement table bad_runes r =
    if ltb r (table_length table)
    then table_entry table r
    else if bad_runes
    then none
    else if in_range 0xfdd0 0xfdef r || in_range 0xfff0 0xffff r
    then some (hex_reference r)
    else none

-- `none` is a panic.
unfoldable pub html_replacer : Text → Table → Bool → Option Text
html_replacer s table bad_runes = replace_text (λ r rest. html_replacement table bad_runes r) s

abbrev pub filter_failsafe : Text
filter_failsafe = codes "ZgotmplZ"

-- The escapers, of what `stringify` returns.
unfoldable pub rcdata_of : Text × ContentType → Option Text
rcdata_of (s, content_type_html) = html_replacer s html_norm_replacement_table true
rcdata_of (s, t) = html_replacer s html_replacement_table true

unfoldable pub html_of : Text × ContentType → Option Text
html_of (s, content_type_html) = some s
html_of (s, t) = html_replacer s html_replacement_table true

abbrev pub is_plain : ContentType → Bool
is_plain content_type_plain = true
is_plain t = false

abbrev pub name_runes : Text → Bool
name_runes [] = true
name_runes (r ∷ s) = (in_range b'0' b'9' r || in_range b'a' b'z' r) && name_runes s

unfoldable pub name_of : (Text → Text) → Text × ContentType → Text
name_of to_lower (s, content_type_html_attr) = s
name_of to_lower ([], t) = filter_failsafe
name_of to_lower (c ∷ s, t) =
    let name = to_lower (c ∷ s) in
    if not (is_plain (attr_type to_lower name))
    then filter_failsafe
    else if name_runes name
    then name
    else filter_failsafe

module _ {V : Type 0} (sprint : List (Arg V) → Text) where
  unfoldable pub rcdata_escaper : List (Arg V) → Option Text
  rcdata_escaper args = rcdata_of (stringify sprint args)

  unfoldable pub html_escaper : List (Arg V) → Option Text
  html_escaper args = html_of (stringify sprint args)

  unfoldable pub html_name_filter : (Text → Text) → List (Arg V) → Text
  html_name_filter to_lower args = name_of to_lower (stringify sprint args)

  abbrev pub comment_escaper : List (Arg V) → Text
  comment_escaper args = []
