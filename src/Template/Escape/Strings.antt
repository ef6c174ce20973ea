-- ===== src/Template/Escape/Strings.antt =====
-- template/escape/js.go and css.go: the escapers of what stands between quotes.
pub mod Special
use sadbox.Prelude.{
  ℕ, Bool, true, false, not, ◌&&◌, ◌||◌, Option, none, some, List, [], ◌∷◌, ◌++◌, map, Text, codes,
  ◌==◌, ltb, if◌then◌else◌, has_rune,
}
use sadbox.Template.Escape.Attr.{ContentType, content_type_css, content_type_js_str, contains}
use sadbox.Template.Escape.Content.{Arg, stringify}
use sadbox.Template.Escape.Css.{is_css_nmchar, is_hex, decode_css}
use sadbox.Template.Escape.Scan.{lower}
use sadbox.Template.Escape.Replace.{replace_text}
use sadbox.Template.Escape.Markup.{Table, table_entry, filter_failsafe}

abbrev pub js_controls : Table → Table
js_controls m =
    (0, codes "\\0")
    ∷ (b'\t', codes "\\t")
    ∷ (b'\n', codes "\\n")
    ∷ (11, codes "\\x0b")
    ∷ (12, codes "\\f")
    ∷ (b'\r', codes "\\r")
    ∷ (b'"', codes "\\x22")
    ∷ m

abbrev pub js_str_norm_replacement_table : Table
js_str_norm_replacement_table = js_controls (
    (b'&', codes "\\x26")
    ∷ (b'\'', codes "\\x27")
    ∷ (b'+', codes "\\x2b")
    ∷ (b'/', codes "\\/")
    ∷ (b'<', codes "\\x3c")
    ∷ (b'>', codes "\\x3e")
    ∷ [])

abbrev pub js_str_replacement_table : Table
js_str_replacement_table = js_controls (
    (b'&', codes "\\x26")
    ∷ (b'\'', codes "\\x27")
    ∷ (b'+', codes "\\x2b")
    ∷ (b'/', codes "\\/")
    ∷ (b'<', codes "\\x3c")
    ∷ (b'>', codes "\\x3e")
    ∷ (b'\\', codes "\\\\")
    ∷ [])

abbrev pub js_regexp_replacement_table : Table
js_regexp_replacement_table = js_controls (
    (b'$', codes "\\$")
    ∷ (b'&', codes "\\x26")
    ∷ (b'\'', codes "\\x27")
    ∷ (b'(', codes "\\(")
    ∷ (b')', codes "\\)")
    ∷ (b'*', codes "\\*")
    ∷ (b'+', codes "\\x2b")
    ∷ (b'-', codes "\\-")
    ∷ (b'.', codes "\\.")
    ∷ (b'/', codes "\\/")
    ∷ (b'<', codes "\\x3c")
    ∷ (b'>', codes "\\x3e")
    ∷ (b'?', codes "\\?")
    ∷ (b'[', codes "\\[")
    ∷ (b'\\', codes "\\\\")
    ∷ (b']', codes "\\]")
    ∷ (b'^', codes "\\^")
    ∷ (b'{', codes "\\{")
    ∷ (b'|', codes "\\|")
    ∷ (b'}', codes "\\}")
    ∷ [])

abbrev pub line_separator : ℕ → Option Text
line_separator r =
    if r == 0x2028
    then some (codes "\\u2028")
    else if r == 0x2029
    then some (codes "\\u2029")
    else none

abbrev pub or_separator : Option Text → ℕ → Option Text
or_separator (some t) r = some t
or_separator none r = line_separator r

abbrev pub js_replacement : Table → ℕ → Option Text
js_replacement table r = or_separator (table_entry table r) r

-- `none` is a panic.
unfoldable pub replace : Text → Table → Option Text
replace s table = replace_text (λ r rest. js_replacement table r) s

abbrev pub or_group : Text → Text
or_group [] = codes "(?:)"
or_group (c ∷ s) = c ∷ s

unfoldable pub js_str_of : Text × ContentType → Option Text
js_str_of (s, content_type_js_str) = replace s js_str_norm_replacement_table
js_str_of (s, t) = replace s js_str_replacement_table

abbrev pub css_replacement_table : Table
css_replacement_table =
    (0, codes "\\0")
    ∷ (b'\t', codes "\\9")
    ∷ (b'\n', codes "\\a")
    ∷ (12, codes "\\c")
    ∷ (b'\r', codes "\\d")
    ∷ (b'"', codes "\\22")
    ∷ (b'&', codes "\\26")
    ∷ (b'\'', codes "\\27")
    ∷ (b'(', codes "\\28")
    ∷ (b')', codes "\\29")
    ∷ (b'+', codes "\\2b")
    ∷ (b'/', codes "\\2f")
    ∷ (b':', codes "\\3a")
    ∷ (b';', codes "\\3b")
    ∷ (b'<', codes "\\3c")
    ∷ (b'>', codes "\\3e")
    ∷ (b'\\', codes "\\\\")
    ∷ (b'{', codes "\\7b")
    ∷ (b'}', codes "\\7d")
    ∷ []

-- `isCSSSpace`.
abbrev pub is_css_space : ℕ → Bool
is_css_space c = has_rune (9 ∷ 10 ∷ 12 ∷ 13 ∷ b' ' ∷ []) c

-- A space keeps what follows out of the escape.
abbrev pub needs_space : ℕ → Text → Bool
needs_space r [] = not (r == b'\\')
needs_space r (c ∷ s) = not (r == b'\\') && (is_hex c || is_css_space c)

abbrev pub spaced : Option Text → Bool → Option Text
spaced none b = none
spaced (some t) b = some (if b then t ++ codes " " else t)

abbrev pub css_replacement : ℕ → Text → Option Text
css_replacement r rest = spaced (table_entry css_replacement_table r) (needs_space r rest)

unfoldable pub css_escaped : Text → Option Text
css_escaped s = replace_text css_replacement s

-- The loop of `cssValueFilter`: the letters of identifiers, or none where it stops. The byte before is
-- given, if there is one.
abbrev pub forbidden : ℕ → Bool
forbidden c = c == 0 || has_rune (codes "\"'()/;@[\\]`{}") c

unfoldable pub css_ident : Bool → Text → Option Text
css_ident dash [] = some []
css_ident dash (c ∷ s) =
    let rest = css_ident (c == b'-') s in
    if forbidden c
    then none
    else if c == b'-'
    then (if dash then none else rest)
    else if ltb c 0x80 && is_css_nmchar c
    then elim rest [ none ↦ none | some id ↦ some (c ∷ id) ]
    else rest

abbrev pub css_filtered : Option Text → Text → Text
css_filtered none b = filter_failsafe
css_filtered (some id) b =
    let id' = map lower id in
    if contains (codes "expression") id' || contains (codes "mozbinding") id'
    then filter_failsafe
    else b

unfoldable pub css_value_of : Text × ContentType → Text
css_value_of (s, content_type_css) = s
css_value_of (s, t) = css_filtered (css_ident false (decode_css s)) (decode_css s)

module _ {V : Type 0} (sprint : List (Arg V) → Text) where
  unfoldable pub js_str_escaper : List (Arg V) → Option Text
  js_str_escaper args = js_str_of (stringify sprint args)

  unfoldable pub js_regexp_escaper : List (Arg V) → Option Text
  js_regexp_escaper args = elim (replace (stringify sprint args).0 js_regexp_replacement_table) [
    | none ↦ none
    | some s ↦ some (or_group s)
  ]

  unfoldable pub css_escaper : List (Arg V) → Option Text
  css_escaper args = css_escaped (stringify sprint args).0

  unfoldable pub css_value_filter : List (Arg V) → Text
  css_value_filter args = css_value_of (stringify sprint args)
