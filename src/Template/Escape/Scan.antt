-- ===== src/Template/Escape/Scan.antt =====
-- template/escape/transition.go: the scanners. Each reads the text behind a position and counts from
-- that position, where the source takes the whole text and the position.
use sadbox.Prelude.{
  ℕ, ◌+◌, Bool, ◌&&◌, ◌||◌, Option, none, some, List, [], ◌∷◌, map, Text, codes, ◌==◌, leb,
  if◌then◌else◌, take, has_rune, text_lookup,
}
use sadbox.Template.Escape.Context.{
  Element, element_none, element_script, element_style, element_textarea, element_title,
}

abbrev pub white_space : Text
white_space = b' ' ∷ b'\t' ∷ b'\n' ∷ 12 ∷ b'\r' ∷ []

-- `eatWhiteSpace`.
unfoldable pub eat_white_space : Text → ℕ
eat_white_space [] = 0
eat_white_space (x ∷ xs) =
    let more = eat_white_space xs + 1 in if has_rune white_space x then more else 0

abbrev pub one_more : Option ℕ → Option ℕ
one_more none = none
one_more (some n) = some (n + 1)

-- `eatAttrName`; `none` is the error.
unfoldable pub eat_attr_name : Text → Option ℕ
eat_attr_name [] = some 0
eat_attr_name (x ∷ xs) =
    let more = one_more (eat_attr_name xs) in
    if has_rune white_space x || x == b'=' || x == b'>'
    then some 0
    else if x == b'\'' || x == b'"' || x == b'<'
    then none
    else more

abbrev pub element_name_map : List (Text × Element)
element_name_map =
    (codes "script", element_script)
    ∷ (codes "style", element_style)
    ∷ (codes "textarea", element_textarea)
    ∷ (codes "title", element_title)
    ∷ []

unfoldable pub ascii_alpha : ℕ → Bool
ascii_alpha c = (leb b'A' c && leb c b'Z') || (leb b'a' c && leb c b'z')

unfoldable pub ascii_alpha_num : ℕ → Bool
ascii_alpha_num c = ascii_alpha c || (leb b'0' c && leb c b'9')

-- `strings.ToLower` of a byte of a tag name, which is an ASCII letter or digit, `:` or `-`.
unfoldable pub lower : ℕ → ℕ
lower c = if leb b'A' c && leb c b'Z' then c + 32 else c

-- The loop of `eatTagName`.
unfoldable pub tag_rest : Text → ℕ
tag_rest [] = 0
tag_rest (x ∷ []) = if ascii_alpha_num x then 1 else 0
tag_rest (x ∷ y ∷ ys) =
    let one = tag_rest (y ∷ ys) + 1 in
    let two = tag_rest ys + 2 in
    if ascii_alpha_num x
    then one
    else if (x == b':' || x == b'-') && ascii_alpha_num y
    then two
    else 0

abbrev pub or_none : Option Element → Element
or_none none = element_none
or_none (some e) = e

-- The length of a tag name that begins with a letter.
unfoldable pub tag_length : Text → ℕ
tag_length [] = 0
tag_length (x ∷ xs) = if ascii_alpha x then tag_rest xs + 1 else 0

-- `eatTagName`.
unfoldable pub eat_tag_name : Text → ℕ × Element
eat_tag_name s =
    (tag_length s, or_none (text_lookup element_name_map (map lower (take (tag_length s) s))))
