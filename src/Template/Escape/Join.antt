-- ===== src/Template/Escape/Join.antt =====
-- template/escape/escape.go and context.go: the context behind a branch of a template.
pub mod Total
use sadbox.Prelude.{
  ℕ, zero, suc, ◌+◌, Bool, true, false, ◌&&◌, Option, none, some, ◌==◌, if◌then◌else◌,
}
use sadbox.Template.Escape.Context.{
  State, state_text, state_tag, state_attr_name, state_after_name, state_before_value,
  state_html_cmt, state_rcdata, state_attr, state_url, state_js, state_js_dq_str, state_js_sq_str,
  state_js_regexp, state_js_block_cmt, state_js_line_cmt, state_css, state_css_dq_str,
  state_css_sq_str, state_css_dq_url, state_css_sq_url, state_css_url, state_css_block_cmt,
  state_css_line_cmt, state_error, Delim, delim_none, delim_double_quote, delim_single_quote,
  delim_space_or_tag_end, UrlPart, url_part_none, url_part_pre_query, url_part_query_or_frag,
  url_part_unknown, JsCtx, js_ctx_regexp, js_ctx_div_op, js_ctx_unknown, Attr, attr_none,
  attr_script, attr_style, attr_url, Element, element_none, element_script, element_style,
  element_textarea, element_title, ErrorCode, no_error, err_ambig_context, err_bad_html,
  err_branch_end, err_end_context, err_no_such_template, err_output_context, err_partial_charset,
  err_partial_escape, err_range_loop_reentry, err_slash_ambig, Context,
}
use sadbox.Template.Escape.Html.{error_context, attr_start_states}
use sadbox.Template.Escape.Text.{Outcome, done, panics, out_of_fuel}

-- The numbers that `iota` gives the constants.
abbrev pub state_number : State → ℕ
state_number state_text = 0
state_number state_tag = 1
state_number state_attr_name = 2
state_number state_after_name = 3
state_number state_before_value = 4
state_number state_html_cmt = 5
state_number state_rcdata = 6
state_number state_attr = 7
state_number state_url = 8
state_number state_js = 9
state_number state_js_dq_str = 10
state_number state_js_sq_str = 11
state_number state_js_regexp = 12
state_number state_js_block_cmt = 13
state_number state_js_line_cmt = 14
state_number state_css = 15
state_number state_css_dq_str = 16
state_number state_css_sq_str = 17
state_number state_css_dq_url = 18
state_number state_css_sq_url = 19
state_number state_css_url = 20
state_number state_css_block_cmt = 21
state_number state_css_line_cmt = 22
state_number state_error = 23

abbrev delim_number : Delim → ℕ
delim_number delim_none = 0
delim_number delim_double_quote = 1
delim_number delim_single_quote = 2
delim_number delim_space_or_tag_end = 3

abbrev url_part_number : UrlPart → ℕ
url_part_number url_part_none = 0
url_part_number url_part_pre_query = 1
url_part_number url_part_query_or_frag = 2
url_part_number url_part_unknown = 3

abbrev js_ctx_number : JsCtx → ℕ
js_ctx_number js_ctx_regexp = 0
js_ctx_number js_ctx_div_op = 1
js_ctx_number js_ctx_unknown = 2

abbrev attr_number : Attr → ℕ
attr_number attr_none = 0
attr_number attr_script = 1
attr_number attr_style = 2
attr_number attr_url = 3

abbrev element_number : Element → ℕ
element_number element_none = 0
element_number element_script = 1
element_number element_style = 2
element_number element_textarea = 3
element_number element_title = 4

abbrev code_number : ErrorCode → ℕ
code_number no_error = 0
code_number err_ambig_context = 1
code_number err_bad_html = 2
code_number err_branch_end = 3
code_number err_end_context = 4
code_number err_no_such_template = 5
code_number err_output_context = 6
code_number err_partial_charset = 7
code_number err_partial_escape = 8
code_number err_range_loop_reentry = 9
code_number err_slash_ambig = 10

-- An error that is there has a number above 0. The source compares the pointers of errors; contexts
-- that are no errors have none.
abbrev err_number : Option ErrorCode → ℕ
err_number none = 0
err_number (some k) = code_number k + 1

-- `context.eq`.
unfoldable pub eq : Context → Context → Bool
eq c d =
    state_number c.state == state_number d.state
    && delim_number c.delim == delim_number d.delim
    && url_part_number c.url_part == url_part_number d.url_part
    && js_ctx_number c.js_ctx == js_ctx_number d.js_ctx
    && attr_number c.attr == attr_number d.attr
    && element_number c.element == element_number d.element
    && err_number c.err == err_number d.err

unfoldable pub nudge_in : State → Context → Context
nudge_in state_tag c = record c { state = state_attr_name }
nudge_in state_before_value c = record c {
  state = attr_start_states c.attr;
  delim = delim_space_or_tag_end;
  attr = attr_none;
}
nudge_in state_after_name c = record c { state = state_attr_name; attr = attr_none }
nudge_in _ c = c

unfoldable pub nudge : Context → Context
nudge c = nudge_in c.state c

abbrev pub is_error : State → Bool
is_error state_error = true
is_error _ = false

-- The branches end in different contexts.
abbrev pub branch_end : Outcome Context
branch_end = done (error_context err_branch_end)

-- The joined nudged contexts, unless that is an error.
abbrev pub or_branch_end : Outcome Context → Outcome Context
or_branch_end (done e) = if is_error e.state then branch_end else done e
or_branch_end panics = panics
or_branch_end out_of_fuel = out_of_fuel

-- `join`; the first argument bounds the depth of its recursion.
unfoldable pub join : ℕ → Context → Context → Outcome Context
join zero a b = out_of_fuel
join (suc f) a b =
    let nudged = or_branch_end (join f (nudge a) (nudge b)) in
    if is_error a.state
    then done a
    else if is_error b.state
    then done b
    else if eq a b
    then done a
    else if eq (record a { url_part = b.url_part }) b
    then done (record a { url_part = url_part_unknown })
    else if eq (record a { js_ctx = b.js_ctx }) b
    then done (record a { js_ctx = js_ctx_unknown })
    else if eq (nudge a) a && eq (nudge b) b
    then branch_end
    else nudged
