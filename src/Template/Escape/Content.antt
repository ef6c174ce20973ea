-- ===== src/Template/Escape/Content.antt =====
-- template/escape/content.go: the arguments of an escaper. `V` is a value that is no text, and `sprint` is
-- `fmt.Sprint` with `indirectToStringerOrError`, which rest on reflection. An argument stands for what its
-- pointers lead to.
use sadbox.Prelude.{List, [], ◌∷◌, Text}
use sadbox.Template.Escape.Attr.{
  ContentType, content_type_plain, content_type_css, content_type_html, content_type_html_attr,
  content_type_js, content_type_js_str, content_type_url,
}

pub data Arg (V : Type 0) : Type 0 where
  string_arg css_arg html_arg html_attr_arg js_arg js_str_arg url_arg : Text → Arg V
  value_arg : V → Arg V

module _ {V : Type 0} (sprint : List (Arg V) → Text) where
  unfoldable pub stringify : List (Arg V) → Text × ContentType
  stringify (string_arg s ∷ []) = (s, content_type_plain)
  stringify (css_arg s ∷ []) = (s, content_type_css)
  stringify (html_arg s ∷ []) = (s, content_type_html)
  stringify (html_attr_arg s ∷ []) = (s, content_type_html_attr)
  stringify (js_arg s ∷ []) = (s, content_type_js)
  stringify (js_str_arg s ∷ []) = (s, content_type_js_str)
  stringify (url_arg s ∷ []) = (s, content_type_url)
  stringify args = (sprint args, content_type_plain)
