-- ===== src/Template/Escape/Percent.antt =====
-- template/escape/url.go: the escapers of URLs. A text is the list of its bytes.
pub mod RoundTrip
use sadbox.Prelude.{
  ℕ, ◌/◌, ◌%◌, Bool, true, false, not, ◌&&◌, ◌||◌, Option, none, some, List, [], ◌∷◌, ◌++◌, Text,
  codes, ◌==◌, if◌then◌else◌, has_rune, text_eq,
}
use sadbox.Template.Escape.Attr.{ContentType, content_type_url, colon_split}
use sadbox.Template.Escape.Content.{Arg, stringify}
use sadbox.Template.Escape.Css.{is_hex}
use sadbox.Template.Escape.Markup.{filter_failsafe, lower_hex_digit}
use sadbox.Template.Escape.Script.{in_range}

-- Bytes that are kept when a URL is normalized, and bytes that are always kept.
unfoldable pub reserved : ℕ → Bool
reserved c =
    c == b'!'
    || c == b'#'
    || c == b'$'
    || c == b'&'
    || c == b'*'
    || c == b'+'
    || c == b','
    || c == b'/'
    || c == b':'
    || c == b';'
    || c == b'='
    || c == b'?'
    || c == b'@'
    || c == b'['
    || c == b']'

unfoldable pub unreserved : ℕ → Bool
unreserved c =
    c == b'-'
    || c == b'.'
    || c == b'_'
    || c == b'~'
    || in_range b'a' b'z' c
    || in_range b'A' b'Z' c
    || in_range b'0' b'9' c

abbrev pub hex_pair : Text → Bool
hex_pair (a ∷ b ∷ s) = is_hex a && is_hex b
hex_pair s = false

-- Whether a byte stays, with the bytes behind it.
unfoldable pub unescaped : Bool → ℕ → Text → Bool
unescaped norm c s =
    if reserved c then norm else if c == b'%' then norm && hex_pair s else unreserved c

-- `%%%02x` of a byte.
unfoldable pub percent : ℕ → Text
percent c = b'%' ∷ lower_hex_digit (c / 16) ∷ lower_hex_digit (c % 16) ∷ []

-- The loop of `urlProcessor`.
unfoldable pub process : Bool → Text → Text
process norm [] = []
process norm (c ∷ s) =
    let rest = process norm s in if unescaped norm c s then c ∷ rest else percent c ++ rest

abbrev pub is_url : ContentType → Bool
is_url content_type_url = true
is_url t = false

unfoldable pub url_processor : Bool → Text × ContentType → Text
url_processor norm (s, t) = process (is_url t || norm) s

-- `strings.ToLower` is a parameter.
abbrev pub safe_protocol : Text → Bool
safe_protocol p =
    text_eq p (codes "http") || text_eq p (codes "https") || text_eq p (codes "mailto")

abbrev pub filtered : (Text → Text) → Option (Text × Text) → Text → Text
filtered to_lower none s = s
filtered to_lower (some (p, q)) s =
    if not (has_rune p b'/') && not (safe_protocol (to_lower p)) then b'#' ∷ filter_failsafe else s

unfoldable pub url_filter_of : (Text → Text) → Text × ContentType → Text
url_filter_of to_lower (s, content_type_url) = s
url_filter_of to_lower (s, t) = filtered to_lower (colon_split s) s

module _ {V : Type 0} (sprint : List (Arg V) → Text) where
  unfoldable pub url_filter : (Text → Text) → List (Arg V) → Text
  url_filter to_lower args = url_filter_of to_lower (stringify sprint args)

  unfoldable pub url_escaper : List (Arg V) → Text
  url_escaper args = url_processor false (stringify sprint args)

  unfoldable pub url_normalizer : List (Arg V) → Text
  url_normalizer args = url_processor true (stringify sprint args)
