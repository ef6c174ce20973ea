-- ===== src/Http/Auth.antt =====
-- http/auth/auth.go: the header `Authorization`. The header of a request is the list of its fields, each
-- with its values; a text is the list of its bytes.
pub mod Base64
pub mod Encoded
mod Tests
use sadbox.Prelude.{
  ◌⊎◌, inl, inr, Option, none, some, List, [], ◌∷◌, Text, codes, text_lookup, text_eq,
  if◌then◌else◌,
}
use sadbox.Gettext.Bytes.{cut_at, split_at, runes}
use sadbox.Http.Parser.{Pairs, parse_pairs}
use sadbox.Http.Auth.Base64.{decode_base64}

pub data AuthError : Type 0 where
  header_not_set header_malformed basic_invalid basic_malformed digest_invalid : AuthError

abbrev pub Header : Type 0
Header = List (Text × List Text)

-- The scheme and the credentials, at the first space.
abbrev pub parts_of : Option (Text × Text) → AuthError ⊎ (Text × Text)
parts_of none = inl header_malformed
parts_of (some p) = inr p

unfoldable pub parse_authorization : Text → AuthError ⊎ (Text × Text)
parse_authorization value = parts_of (cut_at b' ' value)

abbrev pub parse_values : Option (List Text) → AuthError ⊎ (Text × Text)
parse_values none = inl header_not_set
parse_values (some []) = inl header_not_set
parse_values (some (h ∷ hs)) = parse_authorization h

unfoldable pub parse_request : Header → AuthError ⊎ (Text × Text)
parse_request header = parse_values (text_lookup header (codes "Authorization"))

pub record Basic : Type 0 where
  pub username : Text
  pub password : Text

abbrev pub basic_parts : List Text → AuthError ⊎ Basic
basic_parts (u ∷ p ∷ []) = inr (record { username = u; password = p })
basic_parts parts = inl basic_malformed

abbrev pub basic_of : Option Text → AuthError ⊎ Basic
basic_of none = inl basic_malformed
basic_of (some b) = basic_parts (split_at b':' b)

unfoldable pub new_basic : Text → AuthError ⊎ Basic
new_basic credentials = basic_of (decode_base64 credentials)

abbrev pub if_basic : AuthError ⊎ (Text × Text) → AuthError ⊎ Basic
if_basic (inl e) = inl e
if_basic (inr (scheme, credentials)) =
    if text_eq scheme (codes "Basic") then new_basic credentials else inl basic_invalid

unfoldable pub new_basic_from_request : Header → AuthError ⊎ Basic
new_basic_from_request header = if_basic (parse_request header)

-- `NewDigest`; `none` is the panic of `ParsePairs`, which goes over the runes of the credentials. The texts
-- of the map are runes.
unfoldable pub new_digest : Text → Option Pairs
new_digest credentials = parse_pairs (runes credentials)

abbrev pub made : Option Pairs → Option (AuthError ⊎ Pairs)
made none = none
made (some m) = some (inr m)

abbrev pub if_digest : AuthError ⊎ (Text × Text) → Option (AuthError ⊎ Pairs)
if_digest (inl e) = some (inl e)
if_digest (inr (scheme, credentials)) =
    if text_eq scheme (codes "Digest")
    then made (new_digest credentials)
    else some (inl digest_invalid)

unfoldable pub new_digest_from_request : Header → Option (AuthError ⊎ Pairs)
new_digest_from_request header = if_digest (parse_request header)
