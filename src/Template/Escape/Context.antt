-- ===== src/Template/Escape/Context.antt =====
-- template/escape/context.go: the state that an HTML parser is in between two nodes of a template.
use sadbox.Prelude.{Bool, true, false, Option, none}

pub data State : Type 0 where
  state_text state_tag state_attr_name state_after_name state_before_value : State
  state_html_cmt state_rcdata state_attr state_url : State
  state_js state_js_dq_str state_js_sq_str state_js_regexp : State
  state_js_block_cmt state_js_line_cmt : State
  state_css state_css_dq_str state_css_sq_str state_css_dq_url state_css_sq_url state_css_url :
      State
  state_css_block_cmt state_css_line_cmt state_error : State

pub data Delim : Type 0 where
  delim_none delim_double_quote delim_single_quote delim_space_or_tag_end : Delim

pub data UrlPart : Type 0 where
  url_part_none url_part_pre_query url_part_query_or_frag url_part_unknown : UrlPart

pub data JsCtx : Type 0 where
  js_ctx_regexp js_ctx_div_op js_ctx_unknown : JsCtx

pub data Element : Type 0 where
  element_none element_script element_style element_textarea element_title : Element

pub data Attr : Type 0 where
  attr_none attr_script attr_style attr_url : Attr

-- error.go: the codes of errors, of which the first is `OK`. An error is its code; its name, line and
-- text are left out.
pub data ErrorCode : Type 0 where
  no_error err_ambig_context err_bad_html err_branch_end err_end_context err_no_such_template :
      ErrorCode
  err_output_context err_partial_charset err_partial_escape err_range_loop_reentry : ErrorCode
  err_slash_ambig : ErrorCode

pub record Context : Type 0 where
  pub state : State
  pub delim : Delim
  pub url_part : UrlPart
  pub js_ctx : JsCtx
  pub attr : Attr
  pub element : Element
  pub err : Option ErrorCode

-- `context{}`.
abbrev pub zero_context : Context
zero_context = record {
  state = state_text;
  delim = delim_none;
  url_part = url_part_none;
  js_ctx = js_ctx_regexp;
  attr = attr_none;
  element = element_none;
  err = none;
}

unfoldable pub is_comment : State → Bool
is_comment state_html_cmt = true
is_comment state_js_block_cmt = true
is_comment state_js_line_cmt = true
is_comment state_css_block_cmt = true
is_comment state_css_line_cmt = true
is_comment _ = false

unfoldable pub is_in_tag : State → Bool
is_in_tag state_tag = true
is_in_tag state_attr_name = true
is_in_tag state_after_name = true
is_in_tag state_before_value = true
is_in_tag state_attr = true
is_in_tag _ = false
