-- ===== src/Template/Escape/Strings/Special.antt =====
-- template/escape/js.go and css.go: what is escaped can stand between quotes.
use sadbox.Prelude.{
  ◌⊎◌, inl, inr, ℕ, ◌≤◌, ◌≡◌, refl, Bool, true, false, not, Option, none, some, [], ◌∷◌, ◌++◌, Text,
  codes, arith, has_rune, ◌==◌, if_elim, length,
}
use sadbox.Template.Escape.Replace.{rune_len, replace_text}
use sadbox.Template.Escape.Replace.Safe.{
  all, all-append, Covers, Decoded, ascii, several, broken, Each-map, Returned,
  replace_text-Returned,
}
use sadbox.Template.Escape.Replace.Decoding.{range_runes-Decoded}
use sadbox.Template.Escape.Markup.{Table, table_entry}
use sadbox.Template.Escape.Markup.Entries.{values, table_entry-values, same_values}
use sadbox.Template.Escape.Strings.{
  js_str_replacement_table, js_str_norm_replacement_table, js_regexp_replacement_table,
  line_separator, or_separator, js_replacement, replace, css_replacement_table, needs_space, spaced,
  css_replacement, css_escaped,
}

module _ (repl : ℕ → Text → Option Text) (h : (s : Text) → repl 0xfffd s ≡ none) where
  Decoded-Fits :
      (x : ℕ × Text) → Decoded x → (length x.1 ≡ rune_len x.0) ⊎ ((s : Text) → repl x.0 s ≡ none)
  unfolding rune_len
  Decoded-Fits x (ascii k) = inl (ground arith)
  Decoded-Fits x (several k l m) = inl m
  Decoded-Fits x (broken k) = inr h

  -- A replacement that leaves U+FFFD alone never panics.
  pub always-Returned :
      (ok : ℕ → Bool) → Covers ok repl → (s : Text) → Returned ok (replace_text repl s)
  always-Returned ok c s =
      let d = range_runes-Decoded (length s) s in
      replace_text-Returned ok repl c s d (Each-map Decoded-Fits _ d)

-- Line terminators and the other controls with an escape, quotation marks, and what means something in HTML.
unfoldable pub js_special : Text
js_special = 0 ∷ 9 ∷ 10 ∷ 11 ∷ 12 ∷ 13 ∷ b'"' ∷ b'&' ∷ b'\'' ∷ b'+' ∷ b'<' ∷ b'>' ∷ []

abbrev pub js_ordinary : ℕ → Bool
js_ordinary r = not (has_rune js_special r)

unfoldable pub css_special : Text
css_special =
    0 ∷ 9 ∷ 10 ∷ 12 ∷ 13 ∷ b'"' ∷ b'&' ∷ b'\'' ∷ b'(' ∷ b')' ∷ b'+' ∷ b'/' ∷ b':' ∷ b';' ∷ b'<'
    ∷ b'>' ∷ b'{' ∷ b'}' ∷ []

abbrev pub css_ordinary : ℕ → Bool
css_ordinary r = not (has_rune css_special r)

module _ (table : Table) (h : values js_ordinary table ≡ true)
    (g : (r : ℕ) → table_entry table r ≡ none → js_ordinary r ≡ true) where
  js-separator : (r : ℕ) (t : Text) → line_separator r ≡ some t → all js_ordinary t ≡ true
  unfolding js_special
  js-separator r t e =
      if_elim (λ o. o ≡ some t → all js_ordinary t ≡ true) (r == 0x2028)
        (λ _ e. same_values js_ordinary (codes "\\u2028") t refl e)
        (λ _.
          if_elim (λ o. o ≡ some t → all js_ordinary t ≡ true) (r == 0x2029)
            (λ _ e. same_values js_ordinary (codes "\\u2029") t refl e) (λ _ e. cc))
        e

  js-replaced :
      (o : Option Text) (r : ℕ) (t : Text)
      → table_entry table r ≡ o
      → or_separator o r ≡ some t
      → all js_ordinary t ≡ true
  js-replaced (some u) r t p e =
      same_values js_ordinary u t (table_entry-values js_ordinary table r u h p) e
  js-replaced none r t p e = js-separator r t e

  js-kept :
      (o : Option Text) (r : ℕ)
      → table_entry table r ≡ o
      → or_separator o r ≡ none
      → js_ordinary r ≡ true
  js-kept (some u) r p e = cc
  js-kept none r p e = g r p

  js-high : (r : ℕ) → 0x80 ≤ r → js_ordinary r ≡ true
  unfolding js_special
  js-high r k = ground arith

  js-Covers : Covers js_ordinary (λ r s. js_replacement table r)
  js-Covers = record {
    replaced = λ r s t e. js-replaced (table_entry table r) r t refl e;
    kept = λ r s e k. js-kept (table_entry table r) r refl e;
    high = js-high;
  }

  replace-Returned :
      ((s : Text) → js_replacement table 0xfffd ≡ none)
      → (s : Text) → Returned js_ordinary (replace s table)
  unfolding replace
  replace-Returned q s = always-Returned (λ r s. js_replacement table r) q js_ordinary js-Covers s

css-replaced :
    (o : Option Text) (b : Bool) (r : ℕ) (t : Text)
    → table_entry css_replacement_table r ≡ o
    → spaced o b ≡ some t
    → all css_ordinary t ≡ true
unfolding css_special
css-replaced none b r t p e = cc
css-replaced (some u) true r t p e =
    same_values css_ordinary (u ++ codes " ") t
      (all-append css_ordinary u (codes " ")
        (table_entry-values css_ordinary css_replacement_table r u refl p) refl)
      e
css-replaced (some u) false r t p e =
    same_values css_ordinary u t (table_entry-values css_ordinary css_replacement_table r u refl p)
      e

css-kept :
    (o : Option Text) (b : Bool) (r : ℕ)
    → table_entry css_replacement_table r ≡ o
    → spaced o b ≡ none
    → css_ordinary r ≡ true
unfolding css_special
css-kept (some u) b r p e = cc
css-kept none b r p e = ground arith

css-high : (r : ℕ) → 0x80 ≤ r → css_ordinary r ≡ true
unfolding css_special
css-high r k = ground arith

css-Covers : Covers css_ordinary css_replacement
css-Covers = record {
  replaced =
      λ r s t e. css-replaced (table_entry css_replacement_table r) (needs_space r s) r t refl e;
  kept = λ r s e k. css-kept (table_entry css_replacement_table r) (needs_space r s) r refl e;
  high = css-high;
}

-- On every text of bytes, valid UTF-8 or not, replacing by a table of the JavaScript escapers and escaping
-- for CSS do not panic. For JavaScript the text that they return has no control byte from tab to carriage
-- return, NUL, quotation mark, ampersand, plus sign or angle bracket; for CSS it has neither those, but for
-- the vertical tab, nor a parenthesis, slash, colon, semicolon or brace.
pub replace-Returned_all :
    (s : Text)
    → Returned js_ordinary (replace s js_str_replacement_table)
      × Returned js_ordinary (replace s js_str_norm_replacement_table)
      × Returned js_ordinary (replace s js_regexp_replacement_table)
      × Returned css_ordinary (css_escaped s)
unfolding js_special css_escaped
replace-Returned_all s = (
  replace-Returned js_str_replacement_table refl (λ r h. ground arith) (λ s. refl) s,
  replace-Returned js_str_norm_replacement_table refl (λ r h. ground arith) (λ s. refl) s,
  replace-Returned js_regexp_replacement_table refl (λ r h. ground arith) (λ s. refl) s,
  always-Returned css_replacement (λ s. refl) css_ordinary css-Covers s,
)
