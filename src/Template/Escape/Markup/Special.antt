-- ===== src/Template/Escape/Markup/Special.antt =====
-- template/escape/html.go: what is replaced for an attribute value without quotes has no special byte left.
use sadbox.Prelude.{
  inl, ℕ, ◌/◌, ◌%◌, ◌≤◌, ◌<◌, ◌≡◌, refl, Bool, true, false, not, ◌||◌, Option, none, some, [], ◌∷◌,
  Text, arith, has_rune, ltb, if◌then◌else◌, if_elim, length,
}
use sadbox.Template.Escape.Replace.{rune_len, range_runes}
use sadbox.Template.Escape.Replace.Safe.{
  all, Covers, Each, Each-map, Returned, replace_text-Returned,
}
use sadbox.Template.Escape.Replace.Decoding.{range_runes-Decoded}
use sadbox.Template.Escape.Script.{in_range}
use sadbox.Template.Escape.Markup.Entries.{values, table_entry-values}
use sadbox.Template.Escape.Markup.{
  Table, table_entry, table_length, html_nospace_replacement_table,
  html_nospace_norm_replacement_table, lower_hex_digit, hex_reference, html_replacement,
  html_replacer,
}

-- The bytes that end an attribute value without quotes or mean something in it, but for `&`.
unfoldable pub special : Text
special = 0 ∷ 9 ∷ 10 ∷ 11 ∷ 12 ∷ 13 ∷ b' ' ∷ b'"' ∷ b'\'' ∷ b'+' ∷ b'<' ∷ b'=' ∷ b'>' ∷ b'`' ∷ []

abbrev pub ordinary : ℕ → Bool
ordinary r = not (has_rune special r)

abbrev pub nospace_table : Bool → Table
nospace_table norm =
    if norm then html_nospace_norm_replacement_table else html_nospace_replacement_table

hex_digit-ordinary : (d : ℕ) → d < 16 → ordinary (lower_hex_digit d) ≡ true
unfolding lower_hex_digit special
hex_digit-ordinary d h = ground arith

hex_reference-ordinary : (r : ℕ) → r < 0x10000 → all ordinary (hex_reference r) ≡ true
unfolding hex_reference special
hex_reference-ordinary r h =
    let a = hex_digit-ordinary (r / 4096) (omega arith) in
    let b = hex_digit-ordinary (r / 256 % 16) (omega arith) in
    let c = hex_digit-ordinary (r / 16 % 16) (omega arith) in
    let d = hex_digit-ordinary (r % 16) (omega arith) in ground arith

entries-ordinary : (norm : Bool) → values ordinary (nospace_table norm) ≡ true
unfolding special
entries-ordinary true = refl
entries-ordinary false = refl

table_length-nospace : (norm : Bool) → table_length (nospace_table norm) ≡ 97
table_length-nospace true = refl
table_length-nospace false = refl

missing : (norm : Bool) (r : ℕ) → table_entry (nospace_table norm) r ≡ none → ordinary r ≡ true
unfolding special
missing true r h = ground arith
missing false r h = ground arith

ordinary_high : (r : ℕ) → 97 ≤ r → ordinary r ≡ true
unfolding special
ordinary_high r h = ground arith

module _ (norm : Bool) where
  replacement : ℕ → Text → Option Text
  replacement r s = html_replacement (nospace_table norm) false r

  replaced : (r : ℕ) (s t : Text) → replacement r s ≡ some t → all ordinary t ≡ true
  unfolding replacement
  replaced r s t e =
      if_elim (λ o. o ≡ some t → all ordinary t ≡ true) (ltb r (table_length (nospace_table norm)))
        (λ _ q. table_entry-values ordinary (nospace_table norm) r t (entries-ordinary norm) q)
        (λ _.
          if_elim (λ o. o ≡ some t → all ordinary t ≡ true)
            (in_range 0xfdd0 0xfdef r || in_range 0xfff0 0xffff r)
            (λ h q.
              let k : hex_reference r ≡ t = cc in
              rw (← k) (hex_reference-ordinary r (ground arith)))
            (λ _ q. cc))
        e

  kept : (r : ℕ) (s : Text) → replacement r s ≡ none → r < 0x80 → ordinary r ≡ true
  unfolding replacement
  kept r s e h =
      if_elim (λ o. o ≡ none → ordinary r ≡ true) (ltb r (table_length (nospace_table norm)))
        (λ _ q. missing norm r q)
        (λ k _. ordinary_high r (let q = table_length-nospace norm in ground arith)) e

  covers : Covers ordinary replacement
  covers = record { replaced = replaced; kept = kept; high = λ r h. ordinary_high r (omega arith) }

-- Every rune has the bytes that encode it.
abbrev pub ValidUtf8 : Text → Type 0
ValidUtf8 s = Each (λ x. length x.1 ≡ rune_len x.0) (range_runes (length s) s)

-- On valid UTF-8, replacing by either table of the values without quotes does not panic, and the text that
-- it returns has no NUL, white space, quotation mark, plus sign, angle bracket, equals sign or back quote.
pub html_replacer-Returned :
    (norm : Bool) (s : Text)
    → ValidUtf8 s
    → Returned ordinary (html_replacer s (nospace_table norm) false)
unfolding html_replacer replacement
html_replacer-Returned norm s v =
    replace_text-Returned ordinary (replacement norm) (covers norm) s
      (range_runes-Decoded (length s) s) (Each-map (λ x h. inl h) _ v)
