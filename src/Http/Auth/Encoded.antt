-- ===== src/Http/Auth/Encoded.antt =====
-- http/auth/auth.go: the credentials that a client encodes. The encoding is no code of the program.
use sadbox.Prelude.{
  Bool-cases, ◌⊎◌, inl, inr, ℕ, ◌+◌, ◌-◌, ◌*◌, ◌/◌, ◌%◌, ◌<◌, ◌≡◌, refl, ap, Bool, true, false,
  ◌&&◌, ◌||◌, if_elim, some, List, [], ◌∷◌, ◌++◌, Text, codes, arith, ◌==◌, ltb, has_rune,
  if◌then◌else◌, text_lookup,
}
use sadbox.Gettext.Bytes.{cut_at, split_at}
use sadbox.Gettext.Bytes.Separators.{split_plain, split_at-append}
use sadbox.Http.Auth.{
  AuthError, basic_malformed, Header, parse_request, parse_authorization, Basic, new_basic,
  new_basic_from_request, basic_parts,
}
use sadbox.Http.Auth.Base64.{
  base64_value, without_newlines, first_byte, second_byte, third_byte, decode_quanta, decode_base64,
}

-- A digit of the alphabet of RFC 4648.
unfoldable pub base64_digit : ℕ → ℕ
base64_digit v =
    if ltb v 26
    then b'A' + v
    else if ltb v 52
    then b'a' + (v - 26)
    else if ltb v 62
    then b'0' + (v - 52)
    else if v == 62
    then b'+'
    else b'/'

unfoldable pub encode_base64 : Text → Text
encode_base64 [] = []
encode_base64 (x ∷ []) = base64_digit (x / 4) ∷ base64_digit (x % 4 * 16) ∷ b'=' ∷ b'=' ∷ []
encode_base64 (x ∷ y ∷ []) =
    base64_digit (x / 4)
    ∷ base64_digit (x % 4 * 16 + y / 16)
    ∷ base64_digit (y % 16 * 4)
    ∷ b'='
    ∷ []
encode_base64 (x ∷ y ∷ z ∷ s) =
    base64_digit (x / 4)
    ∷ base64_digit (x % 4 * 16 + y / 16)
    ∷ base64_digit (y % 16 * 4 + z / 64)
    ∷ base64_digit (z % 64)
    ∷ encode_base64 s

base64_digit_lem : (v : ℕ) → v < 64 → base64_value (base64_digit v) ≡ some v
unfolding base64_digit base64_value
base64_digit_lem v h = ground arith

-- No digit is a line end or an equals sign.
base64_digit_plain :
    (v : ℕ)
    → v < 64
    → ((base64_digit v == b'\n') || (base64_digit v == b'\r') ≡ false)
      × ((base64_digit v == b'=') ≡ false)
unfolding base64_digit
base64_digit_plain v h = (ground arith, ground arith)

abbrev pub bytes : Text → Bool
bytes [] = true
bytes (x ∷ s) = ltb x 256 && bytes s

digit-without_newlines :
    (v : ℕ) (s : Text)
    → v < 64
    → without_newlines (base64_digit v ∷ s) ≡ base64_digit v ∷ without_newlines s
unfolding without_newlines
digit-without_newlines v s h = rw (base64_digit_plain v h).0 refl

encode_base64-without_newlines :
    (s : Text) → bytes s ≡ true → without_newlines (encode_base64 s) ≡ encode_base64 s
unfolding encode_base64 without_newlines
encode_base64-without_newlines [] h = refl
encode_base64-without_newlines (x ∷ []) h =
    rw
      (
        digit-without_newlines (x / 4) _ (ground arith),
        digit-without_newlines (x % 4 * 16) _ (omega arith),
      )
      refl
encode_base64-without_newlines (x ∷ y ∷ []) h =
    rw
      (
        digit-without_newlines (x / 4) _ (ground arith),
        digit-without_newlines (x % 4 * 16 + y / 16) _ (ground arith),
        digit-without_newlines (y % 16 * 4) _ (omega arith),
      )
      refl
encode_base64-without_newlines (x ∷ y ∷ z ∷ s) h =
    rw
      (
        digit-without_newlines (x / 4) _ (ground arith),
        digit-without_newlines (x % 4 * 16 + y / 16) _ (ground arith),
        digit-without_newlines (y % 16 * 4 + z / 64) _ (ground arith),
        digit-without_newlines (z % 64) _ (omega arith),
        encode_base64-without_newlines s (ground arith),
      )
      refl

first_byte_lem : (x y : ℕ) → y < 256 → first_byte (x / 4) (x % 4 * 16 + y / 16) ≡ x
first_byte_lem x y h = omega arith

second_byte_lem :
    (x y z : ℕ) → y < 256 → z < 256 → second_byte (x % 4 * 16 + y / 16) (y % 16 * 4 + z / 64) ≡ y
second_byte_lem x y z h k = omega arith

last_byte_lem : (x y : ℕ) → y < 256 → second_byte (x % 4 * 16 + y / 16) (y % 16 * 4) ≡ y
last_byte_lem x y h = omega arith

third_byte_lem : (y z : ℕ) → z < 256 → third_byte (y % 16 * 4 + z / 64) (z % 64) ≡ z
third_byte_lem y z h = omega arith

decode_quanta-encode_base64 : (s : Text) → bytes s ≡ true → decode_quanta (encode_base64 s) ≡ some s
unfolding encode_base64 decode_quanta
decode_quanta-encode_base64 [] h = refl
decode_quanta-encode_base64 (x ∷ []) h =
    rw (base64_digit_lem (x / 4) (ground arith), base64_digit_lem (x % 4 * 16) (omega arith))
      (ap (λ n. some (n ∷ [])) (omega arith))
decode_quanta-encode_base64 (x ∷ y ∷ []) h =
    rw
      (
        base64_digit_lem (x / 4) (ground arith),
        base64_digit_lem (x % 4 * 16 + y / 16) (ground arith),
        base64_digit_lem (y % 16 * 4) (omega arith),
        (base64_digit_plain (y % 16 * 4) (omega arith)).1,
        first_byte_lem x y (ground arith),
        last_byte_lem x y (ground arith),
      )
      refl
decode_quanta-encode_base64 (x ∷ y ∷ z ∷ s) h =
    rw
      (
        base64_digit_lem (x / 4) (ground arith),
        base64_digit_lem (x % 4 * 16 + y / 16) (ground arith),
        base64_digit_lem (y % 16 * 4 + z / 64) (ground arith),
        base64_digit_lem (z % 64) (omega arith),
        (base64_digit_plain (z % 64) (omega arith)).1,
        decode_quanta-encode_base64 s (ground arith),
        first_byte_lem x y (ground arith),
        second_byte_lem x y z (ground arith) (ground arith),
        third_byte_lem y z (ground arith),
      )
      refl

decode_base64-encode_base64 : (s : Text) → bytes s ≡ true → decode_base64 (encode_base64 s) ≡ some s
unfolding decode_base64
decode_base64-encode_base64 s h =
    rw (encode_base64-without_newlines s h) (decode_quanta-encode_base64 s h)

abbrev AtLeastTwo : List Text → Type 0
AtLeastTwo t = (a : Text) × (b : Text) × (l : List Text) × (t ≡ a ∷ b ∷ l)

split_some : (s : Text) → (b : Text) × (l : List Text) × (split_at b':' s ≡ b ∷ l)
unfolding split_at
split_some [] = ([], [], refl)
split_some (c ∷ s) =
    if_elim (λ t. (b : Text) × (l : List Text) × (t ≡ b ∷ l)) (c == b':')
      (λ _. ([], split_at b':' s, refl))
      (λ _. let (b, l, e) = split_some s in (c ∷ b, l, rw e refl))

-- Another colon gives a part too many.
split_further : (s : Text) → has_rune s b':' ≡ true → AtLeastTwo (split_at b':' s)
unfolding split_at
split_further [] h = cc
split_further (c ∷ s) h =
    if_elim AtLeastTwo (c == b':') (λ _. let (b, l, e) = split_some s in ([], b, l, rw e refl))
      (λ k. let (a, b, l, e) = split_further s (ground arith) in (c ∷ a, b, l, rw e refl))

module _ (user password : Text) where
  abbrev pub answer : AuthError ⊎ Basic
  answer =
      if has_rune password b':'
      then inl basic_malformed
      else inr (record { username = user; password = password })

  basic_parts-split_at :
      has_rune user b':' ≡ false → basic_parts (split_at b':' (user ++ (b':' ∷ password))) ≡ answer
  basic_parts-split_at h =
      rw (split_at-append b':' user password h) (elim (Bool-cases (has_rune password b':')) [
        | inl k ↦ let (a, b, l, e) = split_further password k in rw (e, k) refl
        | inr k ↦ rw (split_plain b':' password k, k) refl
      ])

  -- A request whose first `Authorization` field has the basic scheme and, encoded in Base64, a user without
  -- a colon, a colon and a password: the user and the password come back if the password has no colon, and
  -- else the header is called malformed.
  pub new_basic_from_request-encode_base64 :
      (others : List Text) (header : Header)
      → text_lookup header (codes "Authorization")
        ≡ some ((codes "Basic " ++ encode_base64 (user ++ (b':' ∷ password))) ∷ others)
      → bytes (user ++ (b':' ∷ password)) ≡ true
      → has_rune user b':' ≡ false
      → new_basic_from_request header ≡ answer
  unfolding new_basic_from_request parse_request parse_authorization new_basic cut_at
  new_basic_from_request-encode_base64 others header e h k =
      rw (e, decode_base64-encode_base64 (user ++ (b':' ∷ password)) h) (basic_parts-split_at k)
