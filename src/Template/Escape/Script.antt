-- ===== src/Template/Escape/Script.antt =====
-- template/escape/transition.go and js.go: the transitions of scripts and of comments.
use sadbox.Prelude.{
  ℕ, ◌+◌, ◌%◌, Bool, true, false, ◌&&◌, ◌||◌, Option, none, some, List, [], ◌∷◌, ◌++◌, Text, codes,
  ◌==◌, leb, if◌then◌else◌, length, take, drop, has_rune, text_eq,
}
use sadbox.Template.Escape.Context.{
  State, state_js, state_js_dq_str, state_js_sq_str, state_js_regexp, state_js_block_cmt,
  state_js_line_cmt, state_css, state_css_block_cmt, state_css_line_cmt, JsCtx, js_ctx_regexp,
  js_ctx_div_op, js_ctx_unknown, err_partial_charset, err_partial_escape, err_slash_ambig, Context,
}
use sadbox.Template.Escape.Html.{Step, error_context, index}
use sadbox.Template.Escape.Scan.{one_more, white_space}

abbrev pub in_range : ℕ → ℕ → ℕ → Bool
in_range lo hi c = leb lo c && leb c hi

-- `isJSIdentPart`, of a byte.
unfoldable pub is_js_ident_part : ℕ → Bool
is_js_ident_part c =
    c == b'$' || in_range b'0' b'9' c || in_range b'A' b'Z' c || c == b'_' || in_range b'a' b'z' c

abbrev pub regexp_preceder_keywords : List Text
regexp_preceder_keywords =
    codes "break"
    ∷ codes "case"
    ∷ codes "continue"
    ∷ codes "delete"
    ∷ codes "do"
    ∷ codes "else"
    ∷ codes "finally"
    ∷ codes "in"
    ∷ codes "instanceof"
    ∷ codes "return"
    ∷ codes "throw"
    ∷ codes "try"
    ∷ codes "typeof"
    ∷ codes "void"
    ∷ []

abbrev pub has_text : List Text → Text → Bool
has_text [] s = false
has_text (t ∷ ts) s = text_eq t s || has_text ts s

abbrev pub reversed : Text → Text
reversed [] = []
reversed (x ∷ xs) = reversed xs ++ (x ∷ [])

-- The last byte first, the bytes of U+2028 and of U+2029.
abbrev pub is_separator : ℕ → ℕ → ℕ → Bool
is_separator x y z = (x == 0xa8 || x == 0xa9) && y == 0x80 && z == 0xe2

-- The `bytes.TrimRight` of `nextJSCtx`, of a text whose last byte is first.
unfoldable pub trim_js : Text → Text
trim_js [] = []
trim_js (x ∷ []) = if has_rune white_space x then [] else x ∷ []
trim_js (x ∷ y ∷ []) =
    let rest = if has_rune white_space y then [] else y ∷ [] in
    if has_rune white_space x then rest else x ∷ y ∷ []
trim_js (x ∷ y ∷ z ∷ xs) =
    let one = trim_js (y ∷ z ∷ xs) in
    let three = trim_js xs in
    if has_rune white_space x then one else if is_separator x y z then three else x ∷ y ∷ z ∷ xs

-- How many times a text begins with a byte.
unfoldable pub count_run : ℕ → Text → ℕ
count_run c [] = 0
count_run c (x ∷ xs) = let more = count_run c xs + 1 in if x == c then more else 0

abbrev pub is_digit_first : Text → Bool
is_digit_first [] = false
is_digit_first (x ∷ xs) = in_range b'0' b'9' x

-- The name at the end of a text whose last byte is first, in the text's order.
unfoldable pub last_name : Text → Text
last_name [] = []
last_name (x ∷ xs) = let more = last_name xs ++ (x ∷ []) in if is_js_ident_part x then more else []

-- The switch of `nextJSCtx`, of a text whose last byte is first and that is trimmed.
unfoldable pub js_ctx_after : JsCtx → Text → JsCtx
js_ctx_after preceding [] = preceding
js_ctx_after preceding (x ∷ xs) =
    if x == b'+' || x == b'-'
    then if count_run x (x ∷ xs) % 2 == 1 then js_ctx_regexp else js_ctx_div_op
    else if x == b'.'
    then if is_digit_first xs then js_ctx_div_op else js_ctx_regexp
    else if has_rune (codes ",<>=*%&|^?!~([:;{}") x
    then js_ctx_regexp
    else if has_text regexp_preceder_keywords (last_name (x ∷ xs))
    then js_ctx_regexp
    else js_ctx_div_op

unfoldable pub next_js_ctx : Text → JsCtx → JsCtx
next_js_ctx s preceding = js_ctx_after preceding (trim_js (reversed s))

-- `bytes.IndexAny` for ASCII characters; `none` is -1.
unfoldable pub index_any : Text → Text → Option ℕ
index_any chars [] = none
index_any chars (x ∷ xs) =
    let more = one_more (index_any chars xs) in if has_rune chars x then some 0 else more

-- A slash that begins no comment, at the position `i` of a text of length `n`.
unfoldable pub t_js_slash : Context → ℕ → ℕ → JsCtx → Step
t_js_slash c n i js_ctx_regexp = (record c { state = state_js_regexp }, i + 1)
t_js_slash c n i js_ctx_div_op = (record c { js_ctx = js_ctx_regexp }, i + 1)
t_js_slash c n i js_ctx_unknown = (error_context err_slash_ambig, n)

-- The switch of `tJS` at the position `i`. The text is not empty there.
unfoldable pub t_js_at : Context → ℕ → ℕ → Text → Step
t_js_at c n i [] = (c, n)
t_js_at c n i (x ∷ xs) =
    let slash = t_js_slash c n i c.js_ctx in
    if x == b'"'
    then (record c { state = state_js_dq_str; js_ctx = js_ctx_regexp }, i + 1)
    else if x == b'\''
    then (record c { state = state_js_sq_str; js_ctx = js_ctx_regexp }, i + 1)
    else elim xs [
      | [] ↦ slash
      | y ∷ ys ↦
          if y == b'/'
          then (record c { state = state_js_line_cmt }, i + 2)
          else if y == b'*'
          then (record c { state = state_js_block_cmt }, i + 2)
          else slash
    ]

-- `tJS` with the index of the first quote or slash.
unfoldable pub t_js_from : Context → Text → Option ℕ → Step
t_js_from c s none = (record c { js_ctx = next_js_ctx s c.js_ctx }, length s)
t_js_from c s (some i) =
    t_js_at (record c { js_ctx = next_js_ctx (take i s) c.js_ctx }) (length s) i (drop i s)

unfoldable pub t_js : Context → Text → Step
t_js c s = t_js_from c s (index_any (codes "\"'/") s)

unfoldable pub specials : State → Text
specials state_js_sq_str = codes "\\'"
specials state_js_regexp = codes "\\/[]"
specials _ = codes "\\\""

-- The body of the loop of `tJSDelimited` at the byte `x` and the position `k`; the last arguments are
-- the loop's next rounds: behind the byte as things are, in a charset, out of it, and behind a
-- backslash and the byte that follows.
unfoldable pub delimited_step : Context → ℕ → ℕ → Bool → Step → Step → Step → Step → Step
delimited_step c x k in_charset on opened closed escaped =
    if has_rune (specials c.state) x
    then if x == b'\\'
      then escaped
      else if x == b'['
      then opened
      else if x == b']'
      then closed
      else if in_charset
      then on
      else (record c { state = state_js; js_ctx = js_ctx_div_op }, k + 1)
    else on

-- The loop of `tJSDelimited`, at the position `k` of a text of length `n`.
unfoldable pub t_js_delimited_loop : Context → ℕ → ℕ → Bool → Text → Step
t_js_delimited_loop c n k in_charset [] =
    if in_charset then (error_context err_partial_charset, n) else (c, n)
t_js_delimited_loop c n k in_charset (x ∷ []) =
    delimited_step c x k in_charset (t_js_delimited_loop c n (k + 1) in_charset [])
      (t_js_delimited_loop c n (k + 1) true []) (t_js_delimited_loop c n (k + 1) false [])
      (error_context err_partial_escape, n)
t_js_delimited_loop c n k in_charset (x ∷ y ∷ ys) =
    delimited_step c x k in_charset (t_js_delimited_loop c n (k + 1) in_charset (y ∷ ys))
      (t_js_delimited_loop c n (k + 1) true (y ∷ ys))
      (t_js_delimited_loop c n (k + 1) false (y ∷ ys))
      (t_js_delimited_loop c n (k + 2) in_charset ys)

unfoldable pub t_js_delimited : Context → Text → Step
t_js_delimited c s = t_js_delimited_loop c (length s) 0 false s

-- The state behind a block comment; `none` is a panic.
unfoldable pub block_cmt_end : State → Option State
block_cmt_end state_js_block_cmt = some state_js
block_cmt_end state_css_block_cmt = some state_css
block_cmt_end _ = none

-- The end of a block comment, found or not, in a text of length `n`, and the state behind it.
unfoldable pub block_cmt_to : Context → ℕ → Option State → Option ℕ → Option Step
block_cmt_to c n t none = some (c, n)
block_cmt_to c n none (some i) = none
block_cmt_to c n (some t) (some i) = some (record c { state = t }, i + 2)

-- `none` is a panic.
unfoldable pub t_block_cmt : Context → Text → Option Step
t_block_cmt c s = block_cmt_to c (length s) (block_cmt_end c.state) (index (codes "*/") s)

-- Whether a byte and what follows it begin with U+2028 or U+2029.
abbrev pub separator_first : ℕ → Text → Bool
separator_first x (y ∷ z ∷ zs) = is_separator z y x
separator_first x _ = false

-- `bytes.IndexAny(s, "\n\r\u2028\u2029")`.
unfoldable pub index_js_line : Text → Option ℕ
index_js_line [] = none
index_js_line (x ∷ xs) =
    let more = one_more (index_js_line xs) in
    if x == b'\n' || x == b'\r' || separator_first x xs then some 0 else more

-- The end of a line comment, found or not, in a text of length `n`.
unfoldable pub line_end : Context → ℕ → State → Option ℕ → Step
line_end c n t none = (c, n)
line_end c n t (some i) = (record c { state = t }, i)

-- `none` is a panic.
unfoldable pub t_line_cmt : Context → Text → Option Step
t_line_cmt c s = elim c.state [
  | state_js_line_cmt ↦ some (line_end c (length s) state_js (index_js_line s))
  | state_css_line_cmt ↦
      some (line_end c (length s) state_css (index_any (b'\n' ∷ 12 ∷ b'\r' ∷ []) s))
  | _ ↦ none
]
