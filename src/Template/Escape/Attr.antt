-- ===== src/Template/Escape/Attr.antt =====
-- template/escape/attr.go: what kind of text the value of an attribute is. A text is the list of its
-- bytes. `strings.ToLower`, which maps runes by the tables of Unicode, is a parameter.
use sadbox.Prelude.{
  Bool, true, false, ◌&&◌, ◌||◌, Option, none, some, List, [], ◌∷◌, Text, codes, ◌==◌,
  if◌then◌else◌, drop, text_eq, text_lookup,
}

-- content.go: the types of content.
pub data ContentType : Type 0 where
  content_type_plain content_type_css content_type_html content_type_html_attr : ContentType
  content_type_js content_type_js_str content_type_url content_type_unsafe : ContentType

abbrev pub attr_type_map : List (Text × ContentType)
attr_type_map =
    (codes "accept", content_type_plain)
    ∷ (codes "accept-charset", content_type_unsafe)
    ∷ (codes "action", content_type_url)
    ∷ (codes "alt", content_type_plain)
    ∷ (codes "archive", content_type_url)
    ∷ (codes "async", content_type_unsafe)
    ∷ (codes "autocomplete", content_type_plain)
    ∷ (codes "autofocus", content_type_plain)
    ∷ (codes "autoplay", content_type_plain)
    ∷ (codes "background", content_type_url)
    ∷ (codes "border", content_type_plain)
    ∷ (codes "checked", content_type_plain)
    ∷ (codes "cite", content_type_url)
    ∷ (codes "challenge", content_type_unsafe)
    ∷ (codes "charset", content_type_unsafe)
    ∷ (codes "class", content_type_plain)
    ∷ (codes "classid", content_type_url)
    ∷ (codes "codebase", content_type_url)
    ∷ (codes "cols", content_type_plain)
    ∷ (codes "colspan", content_type_plain)
    ∷ (codes "content", content_type_unsafe)
    ∷ (codes "contenteditable", content_type_plain)
    ∷ (codes "contextmenu", content_type_plain)
    ∷ (codes "controls", content_type_plain)
    ∷ (codes "coords", content_type_plain)
    ∷ (codes "crossorigin", content_type_unsafe)
    ∷ (codes "data", content_type_url)
    ∷ (codes "datetime", content_type_plain)
    ∷ (codes "default", content_type_plain)
    ∷ (codes "defer", content_type_unsafe)
    ∷ (codes "dir", content_type_plain)
    ∷ (codes "dirname", content_type_plain)
    ∷ (codes "disabled", content_type_plain)
    ∷ (codes "draggable", content_type_plain)
    ∷ (codes "dropzone", content_type_plain)
    ∷ (codes "enctype", content_type_unsafe)
    ∷ (codes "for", content_type_plain)
    ∷ (codes "form", content_type_unsafe)
    ∷ (codes "formaction", content_type_url)
    ∷ (codes "formenctype", content_type_unsafe)
    ∷ (codes "formmethod", content_type_unsafe)
    ∷ (codes "formnovalidate", content_type_unsafe)
    ∷ (codes "formtarget", content_type_plain)
    ∷ (codes "headers", content_type_plain)
    ∷ (codes "height", content_type_plain)
    ∷ (codes "hidden", content_type_plain)
    ∷ (codes "high", content_type_plain)
    ∷ (codes "href", content_type_url)
    ∷ (codes "hreflang", content_type_plain)
    ∷ (codes "http-equiv", content_type_unsafe)
    ∷ (codes "icon", content_type_url)
    ∷ (codes "id", content_type_plain)
    ∷ (codes "ismap", content_type_plain)
    ∷ (codes "keytype", content_type_unsafe)
    ∷ (codes "kind", content_type_plain)
    ∷ (codes "label", content_type_plain)
    ∷ (codes "lang", content_type_plain)
    ∷ (codes "language", content_type_unsafe)
    ∷ (codes "list", content_type_plain)
    ∷ (codes "longdesc", content_type_url)
    ∷ (codes "loop", content_type_plain)
    ∷ (codes "low", content_type_plain)
    ∷ (codes "manifest", content_type_url)
    ∷ (codes "max", content_type_plain)
    ∷ (codes "maxlength", content_type_plain)
    ∷ (codes "media", content_type_plain)
    ∷ (codes "mediagroup", content_type_plain)
    ∷ (codes "method", content_type_unsafe)
    ∷ (codes "min", content_type_plain)
    ∷ (codes "multiple", content_type_plain)
    ∷ (codes "name", content_type_plain)
    ∷ (codes "novalidate", content_type_unsafe)
    ∷ (codes "open", content_type_plain)
    ∷ (codes "optimum", content_type_plain)
    ∷ (codes "pattern", content_type_unsafe)
    ∷ (codes "placeholder", content_type_plain)
    ∷ (codes "poster", content_type_url)
    ∷ (codes "profile", content_type_url)
    ∷ (codes "preload", content_type_plain)
    ∷ (codes "pubdate", content_type_plain)
    ∷ (codes "radiogroup", content_type_plain)
    ∷ (codes "readonly", content_type_plain)
    ∷ (codes "rel", content_type_unsafe)
    ∷ (codes "required", content_type_plain)
    ∷ (codes "reversed", content_type_plain)
    ∷ (codes "rows", content_type_plain)
    ∷ (codes "rowspan", content_type_plain)
    ∷ (codes "sandbox", content_type_unsafe)
    ∷ (codes "spellcheck", content_type_plain)
    ∷ (codes "scope", content_type_plain)
    ∷ (codes "scoped", content_type_plain)
    ∷ (codes "seamless", content_type_plain)
    ∷ (codes "selected", content_type_plain)
    ∷ (codes "shape", content_type_plain)
    ∷ (codes "size", content_type_plain)
    ∷ (codes "sizes", content_type_plain)
    ∷ (codes "span", content_type_plain)
    ∷ (codes "src", content_type_url)
    ∷ (codes "srcdoc", content_type_html)
    ∷ (codes "srclang", content_type_plain)
    ∷ (codes "start", content_type_plain)
    ∷ (codes "step", content_type_plain)
    ∷ (codes "style", content_type_css)
    ∷ (codes "tabindex", content_type_plain)
    ∷ (codes "target", content_type_plain)
    ∷ (codes "title", content_type_plain)
    ∷ (codes "type", content_type_unsafe)
    ∷ (codes "usemap", content_type_url)
    ∷ (codes "value", content_type_unsafe)
    ∷ (codes "width", content_type_plain)
    ∷ (codes "wrap", content_type_plain)
    ∷ (codes "xmlns", content_type_url)
    ∷ []

-- `strings.HasPrefix(s, p)`, as `has_prefix p s`.
unfoldable pub has_prefix : Text → Text → Bool
has_prefix [] s = true
has_prefix (x ∷ xs) [] = false
has_prefix (x ∷ xs) (y ∷ ys) = x == y && has_prefix xs ys

-- `strings.Contains(s, p)`, as `contains p s`.
unfoldable pub contains : Text → Text → Bool
contains p [] = has_prefix p []
contains p (y ∷ ys) = has_prefix p (y ∷ ys) || contains p ys

-- The texts in front of and behind the first colon, if there is one.
unfoldable pub colon_split : Text → Option (Text × Text)
colon_split [] = none
colon_split (x ∷ xs) =
    let rest : Option (Text × Text) = elim (colon_split xs) [
      | none ↦ none
      | some (front, behind) ↦ some (x ∷ front, behind)
    ] in
    if x == b':' then some ([], xs) else rest

-- The table, then the heuristics.
unfoldable pub attr_type_of : Text → ContentType
attr_type_of name = elim (text_lookup attr_type_map name) [
  | some t ↦ t
  | none ↦
      if has_prefix (codes "on") name
      then content_type_js
      else if contains (codes "src") name
          || contains (codes "uri") name
          || contains (codes "url") name
      then content_type_url
      else content_type_plain
]

unfoldable pub attr_type : (Text → Text) → Text → ContentType
attr_type to_lower name =
    let lower = to_lower name in
    let spaced : ContentType = elim (colon_split lower) [
      | none ↦ attr_type_of lower
      | some (front, behind) ↦
          if text_eq front (codes "xmlns") then content_type_url else attr_type_of behind
    ] in
    if has_prefix (codes "data-") lower then attr_type_of (drop 5 lower) else spaced
