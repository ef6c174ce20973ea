-- ===== src/Template/Escape/Pipeline/Commands.antt =====
-- template/escape/escape.go: what the functions of `FuncMap` that `redundantFuncs` names do in a pipeline.
use sadbox.Prelude.{
  ℕ, ◌%◌, map, true, false, Option, none, some, [], ◌∷◌, Text, codes, text_eq, if◌then◌else◌,
}
use sadbox.Template.Escape.Attr.{ContentType, content_type_plain}
use sadbox.Template.Escape.Markup.{html_of}
use sadbox.Template.Escape.Percent.{url_processor}
use sadbox.Template.Escape.Pipeline.{Command, identifier}
use sadbox.Template.Escape.Strings.{
  js_str_of, js_regexp_replacement_table, or_group, replace, css_escaped,
}
use sadbox.Template.Escape.Strip.{html_nospace_of, attr_of_text}
use sadbox.Template.Escape.Text.{Outcome, done, panics, out_of_fuel}

-- The value of a pipeline, as `stringify` sees it; `none` is a panic.
abbrev pub PipeValue : Type 0
PipeValue = Option (Text × ContentType)

-- A function of `FuncMap` returns a string.
abbrev pub as_string : Option Text → PipeValue
as_string none = none
as_string (some t) = some (t, content_type_plain)

abbrev pub returned : Outcome Text → Option Text
returned (done t) = some t
returned panics = none
returned out_of_fuel = none

abbrev pub grouped : Option Text → Option Text
grouped none = none
grouped (some t) = some (or_group t)

-- The texts of the model are of bytes; a number beyond is taken as one.
abbrev pub as_byte : ℕ → ℕ
as_byte b = b % 256

-- The functions of `FuncMap` that `redundantFuncs` names, of what `stringify` returns; `other` is the value
-- for any other name.
abbrev pub func_named : (Text → Text) → PipeValue → Text → Text × ContentType → PipeValue
func_named to_lower other y v =
    if text_eq y (codes "html_template_commentescaper")
    then as_string (some [])
    else if text_eq y (codes "html_template_attrescaper")
    then as_string (returned (attr_of_text to_lower v))
    else if text_eq y (codes "html_template_nospaceescaper")
    then as_string (returned (html_nospace_of to_lower v))
    else if text_eq y (codes "html_template_htmlescaper")
    then as_string (html_of v)
    else if text_eq y (codes "html_template_cssescaper")
    then as_string (css_escaped v.0)
    else if text_eq y (codes "html_template_jsregexpescaper")
    then as_string (grouped (replace v.0 js_regexp_replacement_table))
    else if text_eq y (codes "html_template_jsstrescaper")
    then as_string (js_str_of v)
    else if text_eq y (codes "html_template_urlescaper")
    then as_string (some (url_processor false (map as_byte v.0, v.1)))
    else if text_eq y (codes "html_template_urlnormalizer")
    then as_string (some (url_processor true v))
    else other

module _ {V : Type 0} (to_lower : Text → Text) (other : Command V → PipeValue → PipeValue) where
  abbrev pub call : Text → PipeValue → PipeValue
  call y none = none
  call y (some v) = func_named to_lower (other (identifier y ∷ []) (some v)) y v

  -- What a command makes of the value of the pipeline. `other` is what the commands with arguments, those
  -- that are no identifiers, and any other functions make of it.
  abbrev pub run_command : Command V → PipeValue → PipeValue
  run_command (identifier y ∷ []) x = call y x
  run_command c x = other c x
