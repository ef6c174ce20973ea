-- ===== src/Template/Escape/Transition.antt =====
-- template/escape/transition.go: the table of the transitions.
use sadbox.Prelude.{Option, some, Text}
use sadbox.Template.Escape.Context.{
  State, state_text, state_tag, state_attr_name, state_after_name, state_before_value,
  state_html_cmt, state_rcdata, state_attr, state_url, state_js, state_js_dq_str, state_js_sq_str,
  state_js_regexp, state_js_block_cmt, state_js_line_cmt, state_css, state_css_dq_str,
  state_css_sq_str, state_css_dq_url, state_css_sq_url, state_css_url, state_css_block_cmt,
  state_css_line_cmt, state_error, Context,
}
use sadbox.Template.Escape.Css.{t_css, t_css_str}
use sadbox.Template.Escape.Html.{
  Step, t_text, t_tag, t_attr_name, t_after_name, t_before_value, t_html_cmt, t_special_tag_end,
  t_attr, t_url, t_error,
}
use sadbox.Template.Escape.Script.{t_js, t_js_delimited, t_block_cmt, t_line_cmt}

-- `transitionFunc`; `to_lower` is `strings.ToLower`, and `none` is a panic.
unfoldable pub transition_func : (Text → Text) → State → Context → Text → Option Step
transition_func to_lower state_text c s = some (t_text c s)
transition_func to_lower state_tag c s = some (t_tag to_lower c s)
transition_func to_lower state_attr_name c s = some (t_attr_name c s)
transition_func to_lower state_after_name c s = some (t_after_name c s)
transition_func to_lower state_before_value c s = some (t_before_value c s)
transition_func to_lower state_html_cmt c s = some (t_html_cmt c s)
transition_func to_lower state_rcdata c s = some (t_special_tag_end to_lower c s)
transition_func to_lower state_attr c s = some (t_attr c s)
transition_func to_lower state_url c s = some (t_url c s)
transition_func to_lower state_js c s = some (t_js c s)
transition_func to_lower state_js_dq_str c s = some (t_js_delimited c s)
transition_func to_lower state_js_sq_str c s = some (t_js_delimited c s)
transition_func to_lower state_js_regexp c s = some (t_js_delimited c s)
transition_func to_lower state_js_block_cmt c s = t_block_cmt c s
transition_func to_lower state_js_line_cmt c s = t_line_cmt c s
transition_func to_lower state_css c s = some (t_css c s)
transition_func to_lower state_css_dq_str c s = t_css_str c s
transition_func to_lower state_css_sq_str c s = t_css_str c s
transition_func to_lower state_css_dq_url c s = t_css_str c s
transition_func to_lower state_css_sq_url c s = t_css_str c s
transition_func to_lower state_css_url c s = t_css_str c s
transition_func to_lower state_css_block_cmt c s = t_block_cmt c s
transition_func to_lower state_css_line_cmt c s = t_line_cmt c s
transition_func to_lower state_error c s = some (t_error c s)
