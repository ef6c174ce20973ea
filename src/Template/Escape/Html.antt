-- ===== src/Template/Escape/Html.antt =====
-- template/escape/transition.go: the transitions of HTML text, tags, attributes, comments and URLs. A
-- transition returns the new context and the number of bytes that it consumed.
use sadbox.Prelude.{
  ℕ, ◌+◌, Bool, true, false, not, ◌&&◌, Option, none, some, [], ◌∷◌, Text, codes, ◌==◌,
  if◌then◌else◌, length, take, drop, has_rune,
}
use sadbox.Template.Escape.Attr.{
  ContentType, content_type_url, content_type_css, content_type_js, has_prefix, attr_type,
}
use sadbox.Template.Escape.Context.{
  State, state_text, state_tag, state_attr_name, state_after_name, state_before_value,
  state_html_cmt, state_rcdata, state_attr, state_url, state_js, state_css, state_error, Delim,
  delim_double_quote, delim_single_quote, delim_space_or_tag_end, UrlPart, url_part_none,
  url_part_pre_query, url_part_query_or_frag, Element, element_none, element_script, element_style,
  element_textarea, element_title, Attr, attr_none, attr_script, attr_style, attr_url, ErrorCode,
  err_bad_html, Context, zero_context,
}
use sadbox.Template.Escape.Scan.{one_more, eat_white_space, eat_attr_name, eat_tag_name}

abbrev pub Step : Type 0
Step = Context × ℕ

-- `context{state: stateError, err: errorf(k, …)}`.
abbrev pub error_context : ErrorCode → Context
error_context k = record zero_context { state = state_error; err = some k }

-- What `tText` does at a `<`, whose position is `i`, where a `/` follows and `xs` behind that; `n` is the
-- length of the text, and `again` is the next round of the loop.
unfoldable pub t_text_close : Context → ℕ → ℕ → Text → Step → Step
t_text_close c n i [] again = (c, n)
t_text_close c n i (x ∷ xs) again =
    let (j, e) = eat_tag_name (x ∷ xs) in
    if j == 0 then again else (record zero_context { state = state_tag }, i + 2 + j)

-- What `tText` does at a `<`, which `xs` follows. The next round begins behind the `<` also where a `/`
-- follows: a `/` is no `<`, so it comes to the same as behind the `/`.
unfoldable pub t_text_tag : Context → ℕ → ℕ → Text → Step → Step
t_text_tag c n i [] again = (c, n)
t_text_tag c n i (x ∷ xs) again =
    let (j, e) = eat_tag_name (x ∷ xs) in
    if has_prefix (codes "!--") (x ∷ xs)
    then (record zero_context { state = state_html_cmt }, i + 4)
    else if x == b'/'
    then t_text_close c n i xs again
    else if j == 0
    then again
    else (record zero_context { state = state_tag; element = e }, i + 1 + j)

-- The loop of `tText`, at the position `i` of a text of length `n`, of which the last argument is left.
unfoldable pub t_text_loop : Context → ℕ → ℕ → Text → Step
t_text_loop c n i [] = (c, n)
t_text_loop c n i (x ∷ xs) =
    let again = t_text_loop c n (i + 1) xs in if x == b'<' then t_text_tag c n i xs again else again

unfoldable pub t_text : Context → Text → Step
t_text c s = t_text_loop c (length s) 0 s

unfoldable pub element_content_type : Element → State
element_content_type element_none = state_text
element_content_type element_script = state_js
element_content_type element_style = state_css
element_content_type element_textarea = state_rcdata
element_content_type element_title = state_rcdata

unfoldable pub attr_of : ContentType → Attr
attr_of content_type_url = attr_url
attr_of content_type_css = attr_style
attr_of content_type_js = attr_script
attr_of _ = attr_none

-- What `tTag` does with the end of an attribute's name, counted from the position `i` in a text of
-- length `n`, of which `xs` is left.
unfoldable pub t_tag_named : (Text → Text) → Context → ℕ → ℕ → Text → Option ℕ → Step
t_tag_named to_lower c n i xs none = (error_context err_bad_html, n)
t_tag_named to_lower c n i xs (some j) = if j == 0 then (error_context err_bad_html, n) else (
  record zero_context {
    state = if i + j == n then state_attr_name else state_after_name;
    element = c.element;
    attr = attr_of (attr_type to_lower (take j xs));
  },
  i + j,
)

-- `tTag` behind the white space, at the position `i` of a text of length `n`.
unfoldable pub t_tag_at : (Text → Text) → Context → ℕ → ℕ → Text → Step
t_tag_at to_lower c n i [] = (c, n)
t_tag_at to_lower c n i (x ∷ xs) =
    if x == b'>'
    then (
      record zero_context { state = element_content_type c.element; element = c.element },
      i + 1,
    )
    else t_tag_named to_lower c n i (x ∷ xs) (eat_attr_name (x ∷ xs))

-- `tTag`; `to_lower` is `strings.ToLower`.
unfoldable pub t_tag : (Text → Text) → Context → Text → Step
t_tag to_lower c s = let i = eat_white_space s in t_tag_at to_lower c (length s) i (drop i s)

-- What `tAttrName` does with the end of the name, in a text of length `n`.
unfoldable pub t_attr_name_to : Context → ℕ → Option ℕ → Step
t_attr_name_to c n none = (error_context err_bad_html, n)
t_attr_name_to c n (some i) = (if i == n then c else record c { state = state_after_name }, i)

unfoldable pub t_attr_name : Context → Text → Step
t_attr_name c s = t_attr_name_to c (length s) (eat_attr_name s)

unfoldable pub t_after_name_at : Context → ℕ → ℕ → Text → Step
t_after_name_at c n i [] = (c, n)
t_after_name_at c n i (x ∷ xs) =
    if x == b'='
    then (record c { state = state_before_value }, i + 1)
    else (record c { state = state_tag }, i)

unfoldable pub t_after_name : Context → Text → Step
t_after_name c s = let i = eat_white_space s in t_after_name_at c (length s) i (drop i s)

unfoldable pub attr_start_states : Attr → State
attr_start_states attr_none = state_attr
attr_start_states attr_script = state_js
attr_start_states attr_style = state_css
attr_start_states attr_url = state_url

unfoldable pub t_before_value_at : Context → ℕ → ℕ → Text → Step
t_before_value_at c n i [] = (c, n)
t_before_value_at c n i (x ∷ xs) =
    let enter : Delim → Context =
      λ d. record c { state = attr_start_states c.attr; delim = d; attr = attr_none } in
    if x == b'\''
    then (enter delim_single_quote, i + 1)
    else if x == b'"'
    then (enter delim_double_quote, i + 1)
    else (enter delim_space_or_tag_end, i)

unfoldable pub t_before_value : Context → Text → Step
t_before_value c s = let i = eat_white_space s in t_before_value_at c (length s) i (drop i s)

-- `bytes.Index(s, p)`, as `index p s`.
unfoldable pub index : Text → Text → Option ℕ
index p [] = if has_prefix p [] then some 0 else none
index p (x ∷ xs) =
    let more = one_more (index p xs) in if has_prefix p (x ∷ xs) then some 0 else more

-- The end of a comment, found or not, in a text of length `n`.
unfoldable pub t_html_cmt_to : Context → ℕ → Option ℕ → Step
t_html_cmt_to c n none = (c, n)
t_html_cmt_to c n (some i) = (zero_context, i + 3)

unfoldable pub t_html_cmt : Context → Text → Step
t_html_cmt c s = t_html_cmt_to c (length s) (index (codes "-->") s)

-- The text of `elementNone` is empty, and no transition reads it.
unfoldable pub special_tag_end_markers : Element → Text
special_tag_end_markers element_none = []
special_tag_end_markers element_script = codes "</script"
special_tag_end_markers element_style = codes "</style"
special_tag_end_markers element_textarea = codes "</textarea"
special_tag_end_markers element_title = codes "</title"

abbrev pub is_none : Element → Bool
is_none element_none = true
is_none _ = false

-- The end tag, found or not, in a text of length `n`.
unfoldable pub special_tag_end_to : Context → ℕ → Option ℕ → Step
special_tag_end_to c n none = (c, n)
special_tag_end_to c n (some i) = (zero_context, i)

-- `tSpecialTagEnd`; `to_lower` is `strings.ToLower`, and the index is one into what it returns.
unfoldable pub t_special_tag_end : (Text → Text) → Context → Text → Step
t_special_tag_end to_lower c s =
    if is_none c.element
    then (c, length s)
    else special_tag_end_to c (length s) (index (special_tag_end_markers c.element) (to_lower s))

unfoldable pub t_attr : Context → Text → Step
t_attr c s = (c, length s)

-- `bytes.IndexAny(s, chars) >= 0` for ASCII characters.
unfoldable pub has_any : Text → Text → Bool
has_any chars [] = false
has_any chars (x ∷ xs) = if has_rune chars x then true else has_any chars xs

abbrev pub not_in_url : UrlPart → Bool
not_in_url url_part_none = true
not_in_url _ = false

unfoldable pub t_url : Context → Text → Step
t_url c s = (
  if has_any (codes "#?") s
      then record c { url_part = url_part_query_or_frag }
      else if not (length s == eat_white_space s) && not_in_url c.url_part
      then record c { url_part = url_part_pre_query }
      else c,
  length s,
)

unfoldable pub t_error : Context → Text → Step
t_error c s = (c, length s)
