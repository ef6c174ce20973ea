-- ===== src/Template/Escape/Css.antt =====
-- template/escape/transition.go and css.go: the transitions of style sheets.
use sadbox.Prelude.{
  ℕ, zero, suc, ◌+◌, ◌-◌, ◌*◌, ◌/◌, ◌%◌, ◌^◌, Bool, true, false, not, ◌&&◌, ◌||◌, Option, none,
  some, [], ◌∷◌, ◌++◌, map, Text, codes, ◌==◌, ltb, leb, if◌then◌else◌, length, take, drop,
  has_rune, text_eq,
}
use sadbox.Template.Escape.Context.{
  State, state_css, state_css_dq_str, state_css_sq_str, state_css_dq_url, state_css_sq_url,
  state_css_url, state_css_block_cmt, state_css_line_cmt, err_partial_escape, Context,
}
use sadbox.Template.Escape.Html.{Step, error_context, t_url}
use sadbox.Template.Escape.Scan.{eat_white_space, lower}
use sadbox.Template.Escape.Script.{in_range}

unfoldable pub is_css_nmchar : ℕ → Bool
is_css_nmchar r =
    in_range b'a' b'z' r
    || in_range b'A' b'Z' r
    || in_range b'0' b'9' r
    || r == b'-'
    || r == b'_'
    || in_range 0x80 0xd7ff r
    || in_range 0xe000 0xfffd r
    || in_range 0x10000 0x10ffff r

-- `utf8.DecodeLastRune`, of a text whose last byte is first, as far as `isCSSNmchar` tells runes apart:
-- an ASCII byte and the runes U+FFFE and U+FFFF are themselves, and every other rune, a byte that is no
-- valid UTF-8 included, is U+FFFD.
unfoldable pub last_rune : Text → ℕ
last_rune [] = 0xfffd
last_rune (x ∷ xs) =
    let behind : Bool = elim xs [ y ∷ z ∷ zs ↦ y == 0xbf && z == 0xef | _ ↦ false ] in
    if ltb x 0x80
    then x
    else if behind && x == 0xbe
    then 0xfffe
    else if behind && x == 0xbf
    then 0xffff
    else 0xfffd

-- `endsWithCSSKeyword`, of a text and a keyword whose last bytes are first.
unfoldable pub ends_with_css_keyword : Text → Text → Bool
ends_with_css_keyword b kw =
    let front = drop (length kw) b in
    let bounded : Bool = elim front [
      | [] ↦ true
      | x ∷ xs ↦ not (is_css_nmchar (last_rune (x ∷ xs)))
    ] in
    leb (length kw) (length b) && bounded && text_eq (map lower (take (length kw) b)) kw

unfoldable pub is_hex : ℕ → Bool
is_hex c = in_range b'0' b'9' c || in_range b'a' b'f' c || in_range b'A' b'F' c

unfoldable pub hex_digit_value : ℕ → ℕ
hex_digit_value c =
    if in_range b'0' b'9' c
    then c - b'0'
    else if in_range b'a' b'f' c
    then c - b'a' + 10
    else c - b'A' + 10

-- `hexDecode`, of digits, from the value read so far.
unfoldable pub hex_decode : ℕ → Text → ℕ
hex_decode n [] = n
hex_decode n (c ∷ cs) = hex_decode (n * 16 + hex_digit_value c) cs

unfoldable pub skip_css_space : Text → Text
skip_css_space [] = []
skip_css_space (x ∷ xs) =
    let two : Text = elim xs [ [] ↦ [] | y ∷ ys ↦ if y == b'\n' then ys else y ∷ ys ] in
    if x == b'\t' || x == b'\n' || x == 12 || x == b' '
    then xs
    else if x == b'\r'
    then two
    else x ∷ xs

-- `utf8.EncodeRune`.
unfoldable pub encode_rune : ℕ → Text
encode_rune r =
    if leb r 0x7f
    then r ∷ []
    else if leb r 0x7ff
    then (0xc0 + r / 64) ∷ (0x80 + r % 64) ∷ []
    else if in_range 0xd800 0xdfff r || ltb 0x10ffff r
    then 0xef ∷ 0xbf ∷ 0xbd ∷ []
    else if leb r 0xffff
    then (0xe0 + r / 64 ^ 2) ∷ (0x80 + r / 64 % 64) ∷ (0x80 + r % 64) ∷ []
    else (0xf0 + r / 64 ^ 3)
      ∷ (0x80 + r / 64 ^ 2 % 64)
      ∷ (0x80 + r / 64 % 64)
      ∷ (0x80 + r % 64)
      ∷ []

-- At most so many hexadecimal digits that a text begins with.
unfoldable pub hex_run : ℕ → Text → ℕ
hex_run zero s = 0
hex_run (suc k) [] = 0
hex_run (suc k) (x ∷ xs) = let more = suc (hex_run k xs) in if is_hex x then more else 0

-- The text up to the first backslash, and how long it is.
unfoldable pub before_backslash : Text → ℕ
before_backslash [] = 0
before_backslash (x ∷ xs) = let more = suc (before_backslash xs) in if x == b'\\' then 0 else more

-- The escape in front of which `text` begins with its first digit: what it decodes to, and what is
-- left behind it.
unfoldable pub hex_escape : Text → Text × Text
hex_escape text =
    let j = hex_run 6 text in
    let r = hex_decode 0 (take j text) in
    if ltb 0x10ffff r
    then (encode_rune (r / 16), skip_css_space (drop (j - 1) text))
    else (encode_rune r, skip_css_space (drop j text))

-- What a round of `decodeCSS` makes of the text from a backslash on; a backslash that ends the text is
-- dropped. Of a rune behind a backslash the first byte is copied at once and the others in the next
-- round, since they are no backslashes.
unfoldable pub decode_css_rest : (Text → Text) → Text → Text
decode_css_rest again [] = []
decode_css_rest again (b ∷ []) = []
decode_css_rest again (b ∷ x ∷ xs) =
    if is_hex x then (hex_escape (x ∷ xs)).0 ++ again (hex_escape (x ∷ xs)).1 else x ∷ again xs

-- The loop of `decodeCSS`. Each round takes two bytes or is the last, so the length of the text is fuel
-- enough.
unfoldable pub decode_css_loop : ℕ → Text → Text
decode_css_loop zero s = []
decode_css_loop (suc f) s =
    take (before_backslash s) s ++ decode_css_rest (decode_css_loop f) (drop (before_backslash s) s)

unfoldable pub decode_css : Text → Text
decode_css s = if before_backslash s == length s then s else decode_css_loop (length s) s

-- Behind `url(` and white space, at the position `j`.
unfoldable pub t_css_url : Context → ℕ → Text → Step
t_css_url c j [] = (record c { state = state_css_url }, j)
t_css_url c j (x ∷ xs) =
    if x == b'"'
    then (record c { state = state_css_dq_url }, j + 1)
    else if x == b'\''
    then (record c { state = state_css_sq_url }, j + 1)
    else (record c { state = state_css_url }, j)

-- A slash at the position `i`, which `xs` follows.
unfoldable pub t_css_slash : Context → ℕ → Text → Step → Step
t_css_slash c i [] on = on
t_css_slash c i (x ∷ xs) on =
    if x == b'/'
    then (record c { state = state_css_line_cmt }, i + 2)
    else if x == b'*'
    then (record c { state = state_css_block_cmt }, i + 2)
    else on

-- The loop of `tCSS`, at the position `i` of a text of length `n`; `before` is the text in front of it,
-- its last byte first.
unfoldable pub t_css_loop : Context → ℕ → ℕ → Text → Text → Step
t_css_loop c n i before [] = (c, n)
t_css_loop c n i before (x ∷ xs) =
    let on = t_css_loop c n (i + 1) (x ∷ before) xs in
    let w = eat_white_space xs in
    if x == b'('
    then if ends_with_css_keyword (drop (eat_white_space before) before) (codes "lru")
      then t_css_url c (i + 1 + w) (drop w xs)
      else on
    else if x == b'/'
    then t_css_slash c i xs on
    else if x == b'"'
    then (record c { state = state_css_dq_str }, i + 1)
    else if x == b'\''
    then (record c { state = state_css_sq_str }, i + 1)
    else on

unfoldable pub t_css : Context → Text → Step
t_css c s = t_css_loop c (length s) 0 [] s

-- `none` is a panic.
unfoldable pub end_and_esc : State → Option Text
end_and_esc state_css_dq_str = some (codes "\\\"")
end_and_esc state_css_dq_url = some (codes "\\\"")
end_and_esc state_css_sq_str = some (codes "\\'")
end_and_esc state_css_sq_url = some (codes "\\'")
end_and_esc state_css_url = some (b'\\' ∷ b'\t' ∷ b'\n' ∷ 12 ∷ b'\r' ∷ b' ' ∷ b')' ∷ [])
end_and_esc _ = none

-- What `tURL` of the decoded text makes of a context.
abbrev pub url_of : Context → Text → Context
url_of c s = (t_url c (decode_css s)).0

-- The loop of `tCSSStr` on the text `s`, in the round from `k`, at the position `i`, which the last
-- argument follows.
unfoldable pub t_css_str_loop : Text → Text → Context → ℕ → ℕ → Text → Step
t_css_str_loop chars s c k i [] = (url_of c (drop k s), k + (t_url c (decode_css (drop k s))).1)
t_css_str_loop chars s c k i (x ∷ []) =
    let on = t_css_str_loop chars s c k (i + 1) [] in
    if has_rune chars x
    then if x == b'\\'
      then (error_context err_partial_escape, length s)
      else (record c { state = state_css }, i + 1)
    else on
t_css_str_loop chars s c k i (x ∷ y ∷ ys) =
    let on = t_css_str_loop chars s c k (i + 1) (y ∷ ys) in
    let escaped = t_css_str_loop chars s (url_of c (take (i + 2) s)) (i + 2) (i + 2) ys in
    if has_rune chars x
    then if x == b'\\' then escaped else (record c { state = state_css }, i + 1)
    else on

-- `none` is a panic.
unfoldable pub t_css_str : Context → Text → Option Step
t_css_str c s = elim (end_and_esc c.state) [
  | none ↦ none
  | some chars ↦ some (t_css_str_loop chars s c 0 0 s)
]
