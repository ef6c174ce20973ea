-- ===== src/Template/Escape/Pipeline/Tests.antt =====
-- template/escape/escape.go: runs of the edits of actions, and the theorems at concrete inputs.
use sadbox.Prelude.{
  map, inl, text_eq, if◌then◌else◌, ◌≡◌, refl, true, false, none, some, List, [], ◌∷◌, ◌++◌, Text,
  codes,
}
use sadbox.Template.Escape.Action.{state_escapers, escape_action}
use sadbox.Template.Escape.Context.{state_url, delim_double_quote, Context, zero_context}
use sadbox.Template.Escape.Join.{nudge, nudge_in}
use sadbox.Template.Escape.Pipeline.{
  identifier, operand, Command, new_ident_cmd, equiv_escapers, canonical, esc_fns_eq, index_of_str,
  redundant_funcs, trailing, contained, append_cmd, append_all, merge, ensure_pipeline_contains,
}
use sadbox.Template.Escape.Attr.{content_type_html}
use sadbox.Template.Escape.Scan.{lower}
use sadbox.Template.Escape.Markup.{html_replacer, html_replacement_table}
use sadbox.Template.Escape.Pipeline.Commands.{PipeValue, as_string, run_command}
use sadbox.Template.Escape.Pipeline.Runs.{Holds}
use sadbox.Template.Escape.Pipeline.Merged.{MergedBehind}
use sadbox.Template.Escape.Pipeline.Ensured.{
  ensure_pipeline_contains-MergedBehind, ensure_pipeline_contains-none,
}

-- `html` escapes a value for HTML, and an operand is the HTML `a<b>&amp;`.
abbrev with_html : Command Text → PipeValue → PipeValue
with_html (identifier y ∷ args) (some v) =
    if text_eq y (codes "html")
    then as_string (html_replacer v.0 html_replacement_table true)
    else none
with_html (identifier y ∷ args) none = none
with_html c x = some (codes "a<b>&amp;", content_type_html)

-- `.X`, and the escapers of a URL in an attribute.
abbrev dot_x : Command Text
dot_x = operand (codes ".X") ∷ []

abbrev url_names : List Text
url_names =
    codes "html_template_urlfilter"
    ∷ codes "html_template_urlnormalizer"
    ∷ codes "html_template_attrescaper"
    ∷ []

ensure_pipeline_contains-MergedBehind_example :
    Holds
      (MergedBehind
        (run_command (map lower) with_html)
        (dot_x ∷ [])
        (new_ident_cmd (codes "html") ∷ [])
        url_names)
      (ensure_pipeline_contains ((dot_x ∷ []) ++ (new_ident_cmd (codes "html") ∷ [])) url_names)
ensure_pipeline_contains-MergedBehind_example =
    ensure_pipeline_contains-MergedBehind (map lower) with_html (dot_x ∷ [])
      (new_ident_cmd (codes "html") ∷ []) url_names (refl, tt) (refl, tt) (inl refl, tt)

-- `{{.X | html}}`: the two that are missing go in front of `html`.
test_html :
    ensure_pipeline_contains (dot_x ∷ new_ident_cmd (codes "html") ∷ []) url_names
    ≡ some (
        dot_x
        ∷ new_ident_cmd (codes "html_template_urlfilter")
        ∷ new_ident_cmd (codes "html_template_urlnormalizer")
        ∷ new_ident_cmd (codes "html")
        ∷ [])
unfolding ensure_pipeline_contains trailing contained merge append_all append_cmd index_of_str
    esc_fns_eq canonical equiv_escapers redundant_funcs
test_html = refl

-- The escaper of an attribute is redundant behind that of a string of JavaScript.
test_redundant :
    ensure_pipeline_contains
      (dot_x ∷ [])
      (codes "html_template_jsstrescaper" ∷ codes "html_template_attrescaper" ∷ [])
    ≡ some (dot_x ∷ new_ident_cmd (codes "html_template_jsstrescaper") ∷ [])
unfolding ensure_pipeline_contains trailing contained merge append_all append_cmd index_of_str
    esc_fns_eq canonical equiv_escapers redundant_funcs
test_redundant = refl

-- `{{.X | .Method | html}}`
ensure_pipeline_contains-none_example :
    ensure_pipeline_contains
      (dot_x ∷ (operand (codes ".Method") ∷ []) ∷ new_ident_cmd (codes "html") ∷ [])
      (codes "html_template_htmlescaper" ∷ [])
    ≡ none
ensure_pipeline_contains-none_example =
    ensure_pipeline_contains-none dot_x (operand (codes ".Method") ∷ [])
      (new_ident_cmd (codes "html") ∷ []) (codes "html_template_htmlescaper") [] refl refl
      (refl, tt)

-- Behind `<a href="`, and behind `<a href=`.
abbrev quoted_url : Context
quoted_url = record zero_context { state = state_url; delim = delim_double_quote }

test_quoted : escape_action false quoted_url ≡ some (quoted_url, some url_names)
unfolding escape_action state_escapers nudge nudge_in
test_quoted = refl
