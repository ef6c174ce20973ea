-- ===== src/Http/Auth/Tests.antt =====
-- http/auth: headers on which the definitions are run.
use sadbox.Prelude.{inl, inr, ◌≡◌, refl, none, some, [], ◌∷◌, ◌++◌, codes, text_lookup}
use sadbox.Gettext.Bytes.{cut_at}
use sadbox.Http.Auth.{
  header_not_set, digest_invalid, Header, parse_request, parse_authorization,
  new_basic_from_request, new_digest_from_request,
}
use sadbox.Http.Auth.Base64.{base64_value, without_newlines, decode_quanta, decode_base64}
use sadbox.Http.Auth.Encoded.{base64_digit, encode_base64, new_basic_from_request-encode_base64}

-- The example of RFC 2617.
abbrev aladdin : Header
aladdin =
    (codes "Accept", codes "*/*" ∷ [])
    ∷ (codes "Authorization", codes "Basic QWxhZGRpbjpvcGVuIHNlc2FtZQ==" ∷ [])
    ∷ []

aladdin_encoded :
    text_lookup aladdin (codes "Authorization")
    ≡ some ((codes "Basic " ++ encode_base64 (codes "Aladdin:open sesame")) ∷ [])
unfolding encode_base64 base64_digit
aladdin_encoded = refl

new_basic_from_request-encode_base64_example :
    new_basic_from_request aladdin
    ≡ inr (record { username = codes "Aladdin"; password = codes "open sesame" })
new_basic_from_request-encode_base64_example =
    new_basic_from_request-encode_base64 (codes "Aladdin") (codes "open sesame") [] aladdin
      aladdin_encoded refl refl

test_not_set : new_basic_from_request [] ≡ inl header_not_set
unfolding new_basic_from_request parse_request
test_not_set = refl

test_digest : new_digest_from_request aladdin ≡ some (inl digest_invalid)
unfolding new_digest_from_request parse_request parse_authorization cut_at
test_digest = refl

test_padding : decode_base64 (codes "QQ=A") ≡ none
unfolding decode_base64 decode_quanta without_newlines base64_value
test_padding = refl
