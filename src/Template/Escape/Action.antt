-- ===== src/Template/Escape/Action.antt =====
-- template/escape/escape.go: the escapers of an action, by the context that it stands in.
pub mod Guarded
use sadbox.Prelude.{
  Bool, true, false, Option, none, some, List, [], ◌∷◌, ◌++◌, Text, codes, if◌then◌else◌,
}
use sadbox.Template.Escape.Context.{
  State, state_text, state_tag, state_attr_name, state_rcdata, state_attr, state_url, state_js,
  state_js_dq_str, state_js_sq_str, state_js_regexp, state_css, state_css_dq_str, state_css_sq_str,
  state_css_dq_url, state_css_sq_url, state_css_url, state_error, Delim, delim_none,
  delim_double_quote, delim_single_quote, delim_space_or_tag_end, UrlPart, url_part_none,
  url_part_pre_query, url_part_query_or_frag, url_part_unknown, js_ctx_div_op, err_ambig_context,
  Context, is_comment,
}
use sadbox.Template.Escape.Html.{error_context}
use sadbox.Template.Escape.Join.{nudge}

-- The keys of `FuncMap`.
abbrev pub func_map : List Text
func_map =
    codes "html_template_attrescaper"
    ∷ codes "html_template_commentescaper"
    ∷ codes "html_template_cssescaper"
    ∷ codes "html_template_cssvaluefilter"
    ∷ codes "html_template_htmlnamefilter"
    ∷ codes "html_template_htmlescaper"
    ∷ codes "html_template_jsregexpescaper"
    ∷ codes "html_template_jsstrescaper"
    ∷ codes "html_template_jsvalescaper"
    ∷ codes "html_template_nospaceescaper"
    ∷ codes "html_template_rcdataescaper"
    ∷ codes "html_template_urlescaper"
    ∷ codes "html_template_urlfilter"
    ∷ codes "html_template_urlnormalizer"
    ∷ []

-- An action's context and, unless `escapeAction` returns before its end, the escapers that it records.
abbrev pub Edit : Type 0
Edit = Context × Option (List Text)

abbrev pub pre_query_escaper : State → Text
pre_query_escaper state_css_dq_str = codes "html_template_cssescaper"
pre_query_escaper state_css_sq_str = codes "html_template_cssescaper"
pre_query_escaper _ = codes "html_template_urlnormalizer"

-- The states that may be URLs. `url_part_none` falls through.
abbrev pub url_escapers : UrlPart → Context → Edit
url_escapers url_part_none c =
    (c, some (codes "html_template_urlfilter" ∷ pre_query_escaper c.state ∷ []))
url_escapers url_part_pre_query c = (c, some (pre_query_escaper c.state ∷ []))
url_escapers url_part_query_or_frag c = (c, some (codes "html_template_urlescaper" ∷ []))
url_escapers url_part_unknown c = (error_context err_ambig_context, none)

abbrev pub one_escaper : Text → Context → Option Edit
one_escaper x c = some (c, some (x ∷ []))

-- The switch on the state. `none` is the panic.
unfoldable pub state_escapers : State → Context → Option Edit
state_escapers state_error c = some (c, none)
state_escapers state_url c = some (url_escapers c.url_part c)
state_escapers state_css_dq_str c = some (url_escapers c.url_part c)
state_escapers state_css_sq_str c = some (url_escapers c.url_part c)
state_escapers state_css_dq_url c = some (url_escapers c.url_part c)
state_escapers state_css_sq_url c = some (url_escapers c.url_part c)
state_escapers state_css_url c = some (url_escapers c.url_part c)
state_escapers state_js c =
    one_escaper (codes "html_template_jsvalescaper") (record c { js_ctx = js_ctx_div_op })
state_escapers state_js_dq_str c = one_escaper (codes "html_template_jsstrescaper") c
state_escapers state_js_sq_str c = one_escaper (codes "html_template_jsstrescaper") c
state_escapers state_js_regexp c = one_escaper (codes "html_template_jsregexpescaper") c
state_escapers state_css c = one_escaper (codes "html_template_cssvaluefilter") c
state_escapers state_text c = one_escaper (codes "html_template_htmlescaper") c
state_escapers state_rcdata c = one_escaper (codes "html_template_rcdataescaper") c
state_escapers state_attr c = some (c, some [])
state_escapers state_attr_name c =
    one_escaper (codes "html_template_htmlnamefilter") (record c { state = state_attr_name })
state_escapers state_tag c =
    one_escaper (codes "html_template_htmlnamefilter") (record c { state = state_attr_name })
state_escapers t c =
    if is_comment t then one_escaper (codes "html_template_commentescaper") c else none

abbrev pub delim_escapers : Delim → List Text
delim_escapers delim_none = []
delim_escapers delim_space_or_tag_end = codes "html_template_nospaceescaper" ∷ []
delim_escapers delim_double_quote = codes "html_template_attrescaper" ∷ []
delim_escapers delim_single_quote = codes "html_template_attrescaper" ∷ []

abbrev pub with_delim : Edit → Edit
with_delim (c, none) = (c, none)
with_delim (c, some s) = (c, some (s ++ delim_escapers c.delim))

-- `escapeAction`, of an action that declares variables or not.
unfoldable pub escape_action : Bool → Context → Option Edit
escape_action true c = some (c, none)
escape_action false c = elim (state_escapers (nudge c).state (nudge c)) [
  | none ↦ none
  | some e ↦ some (with_delim e)
]
