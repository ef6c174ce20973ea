-- ===== src/Template/Escape/Pipeline/Escapers.antt =====
-- template/escape/escape.go: the functions that `redundantFuncs` names do what its comment says.
use sadbox.Prelude.{
  ℕ, ◌≤◌, ◌<◌, ◌/◌, ◌%◌, map, ap, ◌≡◌, refl, Bool, true, false, not, ◌||◌, Option, none, some, [],
  ◌∷◌, ◌++◌, Text, codes, arith, has_rune, if_elim,
}
use sadbox.Template.Escape.Attr.{ContentType, content_type_js_str}
use sadbox.Template.Escape.Markup.{
  lower_hex_digit, html_replacement, html_replacement_table, html_replacer, html_of,
}
use sadbox.Template.Escape.Css.{is_hex}
use sadbox.Template.Escape.Percent.{
  url_processor, process, unescaped, reserved, unreserved, percent, hex_pair, is_url,
}
use sadbox.Template.Escape.Pipeline.{Command, new_ident_cmd, redundant_funcs, redundant_row}
use sadbox.Template.Escape.Pipeline.Runs.{IsRedundant, redundant_in-elim}
use sadbox.Template.Escape.Replace.{replace_text, replace_runes, range_runes}
use sadbox.Template.Escape.Replace.Kept.{all-weaken, replace_text-kept}
use sadbox.Template.Escape.Replace.Safe.{all, Returned}
use sadbox.Template.Escape.Strings.{
  js_str_of, js_regexp_replacement_table, or_group, replace, css_escaped,
}
use sadbox.Template.Escape.Strings.Special.{
  js_special, js_ordinary, css_special, css_ordinary, replace-Returned_all,
}
use sadbox.Template.Escape.Strip.{html_nospace_of, attr_of_text}
use sadbox.Template.Escape.Text.{done, panics}
use sadbox.Template.Escape.Pipeline.Commands.{
  PipeValue, as_string, returned, grouped, as_byte, run_command,
}

html_safe : ℕ → Bool
html_safe r = not (has_rune (0 ∷ b'"' ∷ b'&' ∷ b'\'' ∷ b'+' ∷ b'<' ∷ b'>' ∷ []) r)

html_replacement-safe :
    (r : ℕ) (s : Text) → html_safe r ≡ true → html_replacement html_replacement_table true r ≡ none
unfolding html_safe
html_replacement-safe r s h = ground arith

html_replacement-high :
    (r : ℕ) (s : Text) → 0x80 ≤ r → html_replacement html_replacement_table true r ≡ none
html_replacement-high r s h = ground arith

html_replacer-safe :
    (t : Text) → all html_safe t ≡ true → html_replacer t html_replacement_table true ≡ some t
unfolding html_replacer
html_replacer-safe =
    replace_text-kept (λ r rest. html_replacement html_replacement_table true r) html_safe
      html_replacement-safe html_replacement-high

js-html_safe : (r : ℕ) → js_ordinary r ≡ true → html_safe r ≡ true
unfolding html_safe js_special
js-html_safe r h = ground arith

css-html_safe : (r : ℕ) → css_ordinary r ≡ true → html_safe r ≡ true
unfolding html_safe css_special
css-html_safe r h = ground arith

Returned-weaken :
    (p q : ℕ → Bool) (o : Option Text)
    → ((r : ℕ) → p r ≡ true → q r ≡ true)
    → Returned p o
    → Returned q o
Returned-weaken p q o f (t, e, h) = (t, e, all-weaken p q f t h)

or_group-all : (t : Text) → all js_ordinary t ≡ true → all js_ordinary (or_group t) ≡ true
unfolding js_special
or_group-all [] h = refl
or_group-all (c ∷ t) h = h

grouped-Returned : (o : Option Text) → Returned js_ordinary o → Returned js_ordinary (grouped o)
grouped-Returned o (t, e, h) = (or_group t, rw e refl, or_group-all t h)

js_str_of-Returned : (v : Text × ContentType) → Returned js_ordinary (js_str_of v)
unfolding js_str_of
js_str_of-Returned (s, content_type_js_str) = (replace-Returned_all s).1
js_str_of-Returned (s, _) = (replace-Returned_all s).0

unescaped-hex : (n : Bool) (c : ℕ) (s : Text) → is_hex c ≡ true → unescaped n c s ≡ true
unfolding is_hex unescaped reserved unreserved
unescaped-hex n c s h = ground arith

hex_pair-process : (n : Bool) (s : Text) → hex_pair s ≡ true → hex_pair (process n s) ≡ true
unfolding process
hex_pair-process n [] h = absurd (cc)
hex_pair-process n (a ∷ []) h = absurd (cc)
hex_pair-process n (a ∷ b ∷ s) h =
    let ha : is_hex a ≡ true = ground arith in
    let hb : is_hex b ≡ true = ground arith in
    rw (process, unescaped-hex n a (b ∷ s) ha, unescaped-hex n b s hb) h

unescaped-kept :
    (n : Bool) (c : ℕ) (s r : Text)
    → (hex_pair s ≡ true → hex_pair r ≡ true)
    → unescaped n c s ≡ true
    → unescaped true c r ≡ true
unfolding unescaped
unescaped-kept n c s r h e = ground arith

process_keeps :
    (c : ℕ) (s : Text)
    → unescaped true c s ≡ true
    → process true s ≡ s
    → process true (c ∷ s) ≡ c ∷ s
unfolding process
process_keeps c s e h = rw (process, e, h) refl

is_hex-lower_hex_digit : (d : ℕ) → d < 16 → is_hex (lower_hex_digit d) ≡ true
unfolding is_hex lower_hex_digit
is_hex-lower_hex_digit d h = ground arith

process-percent :
    (c : ℕ) (s : Text)
    → c < 256
    → process true s ≡ s
    → process true (percent c ++ s) ≡ percent c ++ s
unfolding percent unescaped reserved
process-percent c s h e =
    let a = lower_hex_digit (c / 16) in
    let b = lower_hex_digit (c % 16) in
    let ha = is_hex-lower_hex_digit (c / 16) (omega arith) in
    let hb = is_hex-lower_hex_digit (c % 16) (omega arith) in
    process_keeps b'%' (a ∷ b ∷ s) (rw (ha, hb) refl) (
      process_keeps a (b ∷ s) (unescaped-hex true a (b ∷ s) ha)
        (process_keeps b s (unescaped-hex true b s hb) e))

process-process :
    (n : Bool) (s : Text) → process true (process n (map as_byte s)) ≡ process n (map as_byte s)
unfolding process
process-process n [] = refl
process-process n (x ∷ s) =
    let c = as_byte x in
    let r = map as_byte s in
    let again = process-process n s in
    if_elim {A = Text} (λ u. process true u ≡ u) (unescaped n c r)
      (λ kept.
        process_keeps c (process n r)
          (unescaped-kept n c r (process n r) (hex_pair-process n r) kept) again)
      λ _. process-percent c (process n r) (omega arith) again

replaced-done :
    (o : Option Text) (t : Text)
    → o ≡ some t
    → returned (elim o [ none ↦ panics | some u ↦ done u ]) ≡ some t
replaced-done none t e = absurd (cc)
replaced-done (some u) t e = e

module _ {V : Type 0} (to_lower : Text → Text) (other : Command V → PipeValue → PipeValue) where
  -- The second function does nothing behind the first.
  abbrev Absorbs : Text → Text → Type 0
  Absorbs a b =
      (x : PipeValue)
      → run_command to_lower other (new_ident_cmd b)
          (run_command to_lower other (new_ident_cmd a) x)
        ≡ run_command to_lower other (new_ident_cmd a) x

  attrescaper-absorbed :
      (o : Option Text)
      → Returned html_safe o
      → run_command to_lower other (new_ident_cmd (codes "html_template_attrescaper")) (as_string o)
        ≡ as_string o
  unfolding attr_of_text
  attrescaper-absorbed o (t, e, h) =
      rw e (ap as_string (replaced-done _ t (html_replacer-safe t h)))

  comment-attr : Absorbs (codes "html_template_commentescaper") (codes "html_template_attrescaper")
  comment-attr none = refl
  comment-attr (some v) = attrescaper-absorbed (some []) ([], refl, refl)

  comment-nospace :
      Absorbs (codes "html_template_commentescaper") (codes "html_template_nospaceescaper")
  unfolding html_nospace_of html_replacer replace_text replace_runes range_runes
  comment-nospace none = refl
  comment-nospace (some v) = refl

  comment-html : Absorbs (codes "html_template_commentescaper") (codes "html_template_htmlescaper")
  unfolding html_of html_replacer replace_text replace_runes range_runes
  comment-html none = refl
  comment-html (some v) = refl

  css-attr : Absorbs (codes "html_template_cssescaper") (codes "html_template_attrescaper")
  css-attr none = refl
  css-attr (some (s, t)) = attrescaper-absorbed (css_escaped s) (
      Returned-weaken css_ordinary html_safe (css_escaped s) css-html_safe
        (replace-Returned_all s).3)

  jsregexp-attr :
      Absorbs (codes "html_template_jsregexpescaper") (codes "html_template_attrescaper")
  jsregexp-attr none = refl
  jsregexp-attr (some (s, t)) =
      let o = replace s js_regexp_replacement_table in
      attrescaper-absorbed (grouped o) (
        Returned-weaken js_ordinary html_safe (grouped o) js-html_safe
          (grouped-Returned o (replace-Returned_all s).2))

  jsstr-attr : Absorbs (codes "html_template_jsstrescaper") (codes "html_template_attrescaper")
  jsstr-attr none = refl
  jsstr-attr (some v) =
      attrescaper-absorbed (js_str_of v)
        (Returned-weaken js_ordinary html_safe (js_str_of v) js-html_safe (js_str_of-Returned v))

  url-normalizer : Absorbs (codes "html_template_urlescaper") (codes "html_template_urlnormalizer")
  unfolding url_processor
  url-normalizer none = refl
  url-normalizer (some (s, t)) =
      ap (λ u. as_string (some u)) (process-process (is_url t || false) s)

  -- What the comment on `redundantFuncs` says holds of the functions that it names.
  pub run_command-IsRedundant : IsRedundant (run_command to_lower other)
  unfolding redundant_funcs
  run_command-IsRedundant a b x e =
      redundant_in-elim Absorbs redundant_row a b
        (
          (comment-attr, (comment-nospace, (comment-html, tt))),
          ((css-attr, tt), ((jsregexp-attr, tt), ((jsstr-attr, tt), ((url-normalizer, tt), tt)))),
        )
        e x
