-- ===== src/Template/Escape/Percent/RoundTrip.antt =====
-- template/escape/url.go: decoding takes back what escaping did.
use sadbox.Prelude.{
  Bool-cases, inl, inr, ℕ, ◌/◌, ◌%◌, ◌<◌, ◌≡◌, refl, ap, Bool, true, false, ◌&&◌, if_elim,
  if◌then◌else◌, [], ◌∷◌, ◌++◌, Text, arith, ◌==◌, ltb,
}
use sadbox.Template.Escape.Css.{is_hex, hex_decode, hex_digit_value}
use sadbox.Template.Escape.Markup.{lower_hex_digit}
use sadbox.Template.Escape.Replace.Safe.{all}
use sadbox.Template.Escape.Percent.{
  reserved, unreserved, hex_pair, unescaped, percent, process, url_processor,
}
use sadbox.Template.Escape.Attr.{content_type_url, content_type_plain}

-- What a reader of a URL makes of it: a percent sign in front of two hexadecimal digits is the byte that
-- they spell, and every other byte is itself.
unfoldable pub decoded : Text → Text
decoded [] = []
decoded (c ∷ []) = c ∷ []
decoded (c ∷ a ∷ []) = c ∷ a ∷ []
decoded (c ∷ a ∷ b ∷ s) =
    let one = decoded (a ∷ b ∷ s) in
    let three = decoded s in
    if (c == b'%') && (is_hex a && is_hex b) then hex_decode 0 (a ∷ b ∷ []) ∷ three else c ∷ one

decoded_other : (c : ℕ) (s : Text) → (c == b'%') ≡ false → decoded (c ∷ s) ≡ c ∷ decoded s
unfolding decoded
decoded_other c [] h = refl
decoded_other c (a ∷ []) h = refl
decoded_other c (a ∷ b ∷ s) h = rw h refl

lower_hex_digit_lem :
    (d : ℕ)
    → d < 16
    → (is_hex (lower_hex_digit d) ≡ true) × (hex_digit_value (lower_hex_digit d) ≡ d)
unfolding lower_hex_digit is_hex hex_digit_value
lower_hex_digit_lem d h = (ground arith, ground arith)

decoded-percent : (c : ℕ) (s : Text) → c < 256 → decoded (percent c ++ s) ≡ c ∷ decoded s
unfolding decoded percent hex_decode
decoded-percent c s h =
    let (a, p) = lower_hex_digit_lem (c / 16) (omega arith) in
    let (b, q) = lower_hex_digit_lem (c % 16) (omega arith) in
    rw (a, b, p, q) (ap (λ x. x ∷ decoded s) (omega arith))

hex-unescaped : (norm : Bool) (c : ℕ) (s : Text) → is_hex c ≡ true → unescaped norm c s ≡ true
unfolding unescaped reserved unreserved is_hex
hex-unescaped norm c s h = ground arith

process_hex :
    (norm : Bool) (c : ℕ) (s : Text) → is_hex c ≡ true → process norm (c ∷ s) ≡ c ∷ process norm s
unfolding process
process_hex norm c s h = rw (hex-unescaped norm c s h) refl

-- All are bytes.
abbrev pub bytes : Text → Bool
bytes s = all (λ c. ltb c 256) s

no_percent_in : (c : ℕ) (s : Text) → unescaped false c s ≡ true → (c == b'%') ≡ false
unfolding unescaped
no_percent_in c s h = ground arith

decoded-process-false : (s : Text) → bytes s ≡ true → decoded (process false s) ≡ s
unfolding process decoded
decoded-process-false [] h = refl
decoded-process-false (c ∷ s) h =
    let r : (decoded (process false s) ≡ s) = decoded-process-false s (ground arith) in
    if_elim (λ t. decoded t ≡ c ∷ s) (unescaped false c s)
      (λ k. rw (decoded_other c (process false s) (no_percent_in c s k), r) refl)
      (λ k. rw (decoded-percent c (process false s) (ground arith), r) refl)

decoded-apart :
    (c : ℕ) (s : Text) → (c == b'%') && hex_pair s ≡ false → decoded (c ∷ s) ≡ c ∷ decoded s
unfolding decoded
decoded-apart c [] h = refl
decoded-apart c (a ∷ []) h = refl
decoded-apart c (a ∷ b ∷ s) h =
    if_elim (λ t. t ≡ c ∷ decoded (a ∷ b ∷ s)) ((c == b'%') && (is_hex a && is_hex b))
      (λ k. absurd (ground (arith, h, k))) (λ k. refl)

no_percent :
    (c : ℕ) (s : Text)
    → (c == b'%') && hex_pair s ≡ false
    → unescaped true c s ≡ true
    → (c == b'%') ≡ false
unfolding unescaped reserved
no_percent c s k e = ground arith

-- A byte that is no percent sign in front of two digits.
apart :
    (c : ℕ) (s : Text)
    → c < 256
    → (c == b'%') && hex_pair s ≡ false
    → decoded (process true s) ≡ decoded s
    → decoded (process true (c ∷ s)) ≡ decoded (c ∷ s)
unfolding process
apart c s h k r = rw (decoded-apart c s k) (
    if_elim (λ t. decoded t ≡ c ∷ decoded s) (unescaped true c s)
      (λ e. rw (decoded_other c (process true s) (no_percent c s k e), r) refl)
      (λ e. rw (decoded-percent c (process true s) h, r) refl))

pair-unescaped :
    (c a b : ℕ) (s : Text)
    → (c == b'%') && (is_hex a && is_hex b) ≡ true
    → unescaped true c (a ∷ b ∷ s) ≡ true
unfolding unescaped reserved
pair-unescaped c a b s h = ground arith

process_kept :
    (norm : Bool) (c : ℕ) (s : Text)
    → unescaped norm c s ≡ true
    → process norm (c ∷ s) ≡ c ∷ process norm s
unfolding process
process_kept norm c s h = rw h refl

decoded-pair :
    (c a b : ℕ) (s : Text)
    → (c == b'%') && (is_hex a && is_hex b) ≡ true
    → decoded (c ∷ a ∷ b ∷ s) ≡ hex_decode 0 (a ∷ b ∷ []) ∷ decoded s
unfolding decoded
decoded-pair c a b s h =
    if_elim (λ t. t ≡ hex_decode 0 (a ∷ b ∷ []) ∷ decoded s) ((c == b'%') && (is_hex a && is_hex b))
      (λ k. refl) (λ k. absurd (ground (arith, h, k)))

paired :
    (c a b : ℕ) (s : Text)
    → (c == b'%') && (is_hex a && is_hex b) ≡ true
    → decoded (process true s) ≡ decoded s
    → decoded (process true (c ∷ a ∷ b ∷ s)) ≡ decoded (c ∷ a ∷ b ∷ s)
paired c a b s h r =
    rw
      (
        process_kept true c (a ∷ b ∷ s) (pair-unescaped c a b s h),
        process_hex true a (b ∷ s) (ground arith),
        process_hex true b s (ground arith),
        decoded-pair c a b (process true s) h,
        decoded-pair c a b s h,
        r,
      )
      refl

decoded-process-true : (s : Text) → bytes s ≡ true → decoded (process true s) ≡ decoded s
unfolding process decoded
decoded-process-true [] h = refl
decoded-process-true (c ∷ []) h = apart c [] (ground arith) (ground arith) refl
decoded-process-true (c ∷ a ∷ []) h =
    apart c (a ∷ []) (ground arith) (ground arith) (decoded-process-true (a ∷ []) (ground arith))
decoded-process-true (c ∷ a ∷ b ∷ s) h = elim (Bool-cases ((c == b'%') && (is_hex a && is_hex b))) [
  | inl e ↦ paired c a b s e (decoded-process-true s (ground arith))
  | inr e ↦ apart c (a ∷ b ∷ s) (ground arith) e (decoded-process-true (a ∷ b ∷ s) (ground arith))
]

-- For every text of bytes: decoding what is escaped gives the text back, and decoding what is normalized
-- gives what decoding the text gives. A URL that the author vouches for is normalized by both.
pub decoded-url_processor :
    (s : Text)
    → bytes s ≡ true
    → (decoded (url_processor false (s, content_type_plain)) ≡ s)
      × ((norm : Bool) → decoded (url_processor norm (s, content_type_url)) ≡ decoded s)
      × (decoded (url_processor true (s, content_type_plain)) ≡ decoded s)
unfolding url_processor
decoded-url_processor s h =
    (decoded-process-false s h, (λ norm. decoded-process-true s h), decoded-process-true s h)
