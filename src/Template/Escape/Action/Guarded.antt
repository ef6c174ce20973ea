-- ===== src/Template/Escape/Action/Guarded.antt =====
-- template/escape/escape.go: every context has its escapers.
use sadbox.Prelude.{
  Option, if◌then◌else◌, ◌≡◌, Bool, true, false, none, some, List, [], ◌∷◌, ◌++◌, Text, codes,
}
use sadbox.Template.Escape.Action.{Edit}
use sadbox.Template.Escape.Context.{
  State, state_js, state_js_dq_str, state_js_sq_str, state_js_regexp, state_css, state_after_name,
  state_before_value, state_url, state_css_dq_str, state_css_sq_str, state_css_dq_url,
  state_css_sq_url, state_css_url, Delim, delim_none, delim_double_quote, delim_single_quote,
  delim_space_or_tag_end, UrlPart, url_part_none, url_part_query_or_frag, Context,
}
use sadbox.Template.Escape.Join.{is_error}
use sadbox.Template.Escape.Pipeline.Runs.{AreKnown}

-- The states whose URLs begin where the action stands need a filter of the scheme.
abbrev may_be_url : State → Bool
may_be_url state_url = true
may_be_url state_css_dq_str = true
may_be_url state_css_sq_str = true
may_be_url state_css_dq_url = true
may_be_url state_css_sq_url = true
may_be_url state_css_url = true
may_be_url _ = false

-- What has to come first for the part of a URL, and in a language of its own.
abbrev url_first : UrlPart → Option Text
url_first url_part_none = some (codes "html_template_urlfilter")
url_first url_part_query_or_frag = some (codes "html_template_urlescaper")
url_first _ = none

abbrev own_first : State → Option Text
own_first state_js = some (codes "html_template_jsvalescaper")
own_first state_js_dq_str = some (codes "html_template_jsstrescaper")
own_first state_js_sq_str = some (codes "html_template_jsstrescaper")
own_first state_js_regexp = some (codes "html_template_jsregexpescaper")
own_first state_css = some (codes "html_template_cssvaluefilter")
own_first _ = none

abbrev first_for : State → UrlPart → Option Text
first_for t u = if may_be_url t then url_first u else own_first t

abbrev StartsWith : Option Text → List Text → Type 0
StartsWith none s = Unit
StartsWith (some x) s = (rest : List Text) × (s ≡ x ∷ rest)

abbrev EndsIn : Text → List Text → Type 0
EndsIn x s = (front : List Text) × (s ≡ front ++ (x ∷ []))

-- What has to come last in the value of an attribute.
abbrev IsDelimited : Delim → List Text → Type 0
IsDelimited delim_none s = Unit
IsDelimited delim_double_quote s = EndsIn (codes "html_template_attrescaper") s
IsDelimited delim_single_quote s = EndsIn (codes "html_template_attrescaper") s
IsDelimited delim_space_or_tag_end s = EndsIn (codes "html_template_nospaceescaper") s

abbrev Guards : Context → List Text → Type 0
Guards c s = AreKnown s × IsDelimited c.delim s × StartsWith (first_for c.state c.url_part) s

abbrev pub IsGuarded : Edit → Type 0
IsGuarded (c, none) = is_error c.state ≡ true
IsGuarded (c, some s) = (is_error c.state ≡ false) × Guards c s

abbrev is_settled : State → Bool
is_settled state_after_name = false
is_settled state_before_value = false
is_settled _ = true

-- The same in front of the delimiter's escapers.
abbrev BeforeDelim : Edit → Type 0
BeforeDelim (c, none) = is_error c.state ≡ true
BeforeDelim (c, some s) =
    (is_error c.state ≡ false) × AreKnown s × StartsWith (first_for c.state c.url_part) s
