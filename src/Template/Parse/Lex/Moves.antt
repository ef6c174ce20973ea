-- ===== src/Template/Parse/Lex/Moves.antt =====
-- template/parse/lex.go: every state function moves the lexer by the operations that its methods make.
use sadbox.Prelude.{
  ◌==◌, leb, ◌&&◌, ◌||◌, ℕ, ◌≡◌, refl, Bool, true, false, Option, none, some, [], ◌∷◌, Text, codes,
  if◌then◌else◌, if_elim, length,
}
use sadbox.Template.Parse.Lex.Scan.{accept_rune, is_blank, accept, accept_run, quoted_item}
use sadbox.Template.Escape.Attr.{has_prefix}
use sadbox.Template.Parse.Lex.{
  ItemType, item_text, item_char, item_pipe, item_colon_equals, LexError, unclosed_action,
  expected_colon_equals, unrecognized_character, bad_character, StateFn, lex_text, lex_left_delim,
  lex_comment, lex_right_delim, lex_inside_action, lex_identifier, lex_char, lex_number, lex_quote,
  lex_raw_quote, TemplateLexer, advance, Next, Delims,
}
use sadbox.Template.Parse.Lex.Actions.{
  emit_text, emit_text_if, text_end, comment_end, word_end, scan_number, exponent, optional,
  after_fraction, after_mantissa, scan_digits, after_x, after_zero, complex_end, number_or_complex,
  after_dot, first_rune, final_rune, is_rune, is_decimal, is_alpha_numeric, at_terminator,
  inside_rune, call_state, number_end_at, bad_word, inside_at,
}
use sadbox.Template.Parse.Lex.Slices.{
  Moves, stays, advances, emits, ignores, Goes, goes, errs, ends, is_eof,
}
use sadbox.Template.Parse.Lex.Words.{word-open}

-- What a function's answer holds of the lexer.
pub data Leads {A : Type 0} (l : TemplateLexer) : A × TemplateLexer → Type 0 where
  leads : {a : A} {m : TemplateLexer} → Moves l m → Leads l (a, m)

module _ {A : Type 0} (l : TemplateLexer) where
  both : (b : Bool) {x y : A × TemplateLexer} → Leads l x → Leads l y → Leads l (if b then x else y)
  both true p q = p
  both false p q = q

  pub Leads-Moves : {x : A × TemplateLexer} → Leads l x → Moves l x.1
  Leads-Moves (leads p) = p

module _ (l : TemplateLexer) where
  turns : (b : Bool) {x y : Next} → Goes l x → Goes l y → Goes l (if b then x else y)
  turns true p q = p
  turns false p q = q

  emit_text_if-Moves : (s : Text) (m : TemplateLexer) → Moves l m → Moves l (emit_text_if s m)
  emit_text_if-Moves [] m p = p
  emit_text_if-Moves (c ∷ s) m p = emits item_text refl p

  pub emit_text-Moves : (m : TemplateLexer) → Moves l m → Moves l (emit_text m)
  unfolding emit_text
  emit_text-Moves m p = emit_text_if-Moves m.pending m p

  text_end-Goes : (r : ℕ × Bool) → Goes l (text_end r l)
  text_end-Goes (n, true) = goes (emit_text-Moves _ (advances n stays))
  text_end-Goes (n, false) = ends (emit_text-Moves _ (advances n stays))

  comment_end-Goes :
      (right : Text) (r : ℕ × Bool) (m : TemplateLexer) → Moves l m → Goes l (comment_end right r m)
  comment_end-Goes right (n, true) m p = goes (ignores (advances _ p))
  comment_end-Goes right (n, false) m p = errs _ p

  quoted_item-Goes :
      (t : ItemType) (e : LexError) (r : ℕ × Bool) → is_eof t ≡ false → Goes l (quoted_item t e r l)
  quoted_item-Goes t e (n, true) q = goes (emits t q (advances n stays))
  quoted_item-Goes t e (n, false) q = errs e (advances n stays)

  accept-Leads : (valid : Text) (m : TemplateLexer) → Moves l m → Leads l (accept valid m)
  unfolding accept
  accept-Leads valid m p = both l (accept_rune valid m.ahead) (leads (advances 1 p)) (leads p)

  pub accept-Moves : (valid : Text) (m : TemplateLexer) → Moves l m → Moves l (accept valid m).1
  accept-Moves valid m p = Leads-Moves l (accept-Leads valid m p)

  pub accept_run-Moves :
      (valid : Text) (m : TemplateLexer) → Moves l m → Moves l (accept_run valid m)
  unfolding accept_run
  accept_run-Moves valid m p = advances _ p

  pub optional-Moves :
      (r : Bool × TemplateLexer) (f : TemplateLexer → TemplateLexer)
      → ((m : TemplateLexer) → Moves l m → Moves l (f m))
      → Moves l r.1
      → Moves l (optional r f)
  optional-Moves (true, m) f k p = k m p
  optional-Moves (false, m) f k p = p

  pub exponent-Moves : (m : TemplateLexer) → Moves l m → Moves l (exponent m)
  exponent-Moves m p = accept_run-Moves _ _ (accept-Moves _ m p)

  complex_end-Goes : (r : Bool × TemplateLexer) → Moves l r.1 → Goes l (complex_end r)
  complex_end-Goes (true, m) p =
      turns (is_rune (final_rune m.pending) b'i') (goes (emits _ refl p)) (errs _ p)
  complex_end-Goes (false, m) p = errs _ p

  after_dot-Goes : (o : Option ℕ) (m : TemplateLexer) → Moves l m → Goes l (after_dot o m l)
  after_dot-Goes none m p = goes stays
  after_dot-Goes (some r) m p = turns (is_decimal r) (goes stays) (goes p)

  bad_word-Goes :
      (right s : Text) (m : TemplateLexer)
      → at_terminator right s ≡ false
      → Moves l m
      → Goes l (bad_word s m)
  unfolding at_terminator
  bad_word-Goes right [] m h p = cc
  bad_word-Goes right (r ∷ s) m h p = errs (bad_character r) p

  word_end-Goes : (d : Delims) (m : TemplateLexer) → Moves l m → Goes l (word_end d m)
  word_end-Goes d m p =
      if_elim (Goes l) (at_terminator d.right m.ahead) (λ _. goes (emits _ (word-open m.pending) p))
        (λ h. bad_word-Goes d.right m.ahead m h p)

  module _ (is_word : ℕ → Bool) where
    pub number_end-Leads :
        (s : Text) (m : TemplateLexer) → Moves l m → Leads l (number_end_at is_word s m)
    number_end-Leads [] m p = leads p
    number_end-Leads (r ∷ s) m p =
        both l (is_alpha_numeric is_word r) (leads (advances 1 p)) (leads p)

    pub after_fraction-Leads : (m : TemplateLexer) → Moves l m → Leads l (after_fraction is_word m)
    after_fraction-Leads m p =
        let q = optional-Moves _ exponent exponent-Moves (accept-Moves (codes "eE") _ p) in
        number_end-Leads _ _ (accept-Moves (codes "i") _ q)

    pub after_mantissa-Leads :
        (ds : Text) (m : TemplateLexer) → Moves l m → Leads l (after_mantissa is_word ds m)
    after_mantissa-Leads ds m p =
        after_fraction-Leads _
          (optional-Moves _ (accept_run ds) (accept_run-Moves ds) (accept-Moves (codes ".") _ p))

    pub scan_digits-Leads :
        (ds : Text) (m : TemplateLexer) → Moves l m → Leads l (scan_digits is_word ds m)
    scan_digits-Leads ds m p = after_mantissa-Leads ds _ (accept_run-Moves ds m p)

    after_x-Leads : (r : Bool × TemplateLexer) → Moves l r.1 → Leads l (after_x is_word r)
    after_x-Leads (true, m) p = scan_digits-Leads _ m p
    after_x-Leads (false, m) p = scan_digits-Leads _ m p

    pub after_zero-Leads : (r : Bool × TemplateLexer) → Moves l r.1 → Leads l (after_zero is_word r)
    after_zero-Leads (true, m) p = after_x-Leads _ (accept-Moves _ m p)
    after_zero-Leads (false, m) p = scan_digits-Leads _ m p

    pub scan_number-Moves : (m : TemplateLexer) → Moves l m → Moves l (scan_number is_word m).1
    unfolding scan_number
    scan_number-Moves m p =
        Leads-Moves l
          (after_zero-Leads _ (accept-Moves (codes "0") _ (accept-Moves (codes "+-") m p)))

    number_or_complex-Goes :
        (r : Bool × TemplateLexer) → Moves l r.1 → Goes l (number_or_complex is_word r)
    number_or_complex-Goes (true, m) p =
        turns (is_rune (first_rune m.ahead) b'+' || is_rune (first_rune m.ahead) b'-')
          (complex_end-Goes _ (scan_number-Moves m p)) (goes (emits _ refl p))
    number_or_complex-Goes (false, m) p = errs _ p

    inside_rune-Goes : (r : ℕ) → Goes l (inside_rune is_word r (advance 1 l) l)
    unfolding inside_rune
    inside_rune-Goes r = turns (r == 10) (errs unclosed_action one) (
        turns (is_blank r) (goes {s = lex_inside_action} (ignores one)) (
          turns (r == b':')
            (turns (is_rune (first_rune (advance 1 l).ahead) b'=')
              (goes {s = lex_inside_action} (emits item_colon_equals refl (advances 1 one)))
              (errs expected_colon_equals (advances 1 one)))
            (turns (r == b'|') (goes {s = lex_inside_action} (emits item_pipe refl one)) (
              turns (r == b'"') (goes {s = lex_quote} one) (
                turns (r == b'`') (goes {s = lex_raw_quote} one) (
                  turns (r == b'$') (goes {s = lex_identifier} one) (
                    turns (r == b'\'') (goes {s = lex_char} one) (
                      turns (r == b'.')
                        (after_dot-Goes (first_rune (advance 1 l).ahead) (advance 1 l) one)
                        (turns (r == b'+' || r == b'-' || is_decimal r)
                          (goes {s = lex_number} stays)
                          (turns (is_alpha_numeric is_word r) (goes {s = lex_identifier} stays) (
                            turns (leb 32 r && leb r 126)
                              (goes {s = lex_inside_action} (emits item_char refl one))
                              (errs (unrecognized_character r) one))))))))))))
      where
        one : Moves l (advance 1 l)
        one = advances 1 stays

    inside_at-Goes : (s : Text) → Goes l (inside_at is_word s l)
    inside_at-Goes [] = errs _ stays
    inside_at-Goes (r ∷ s) = inside_rune-Goes r

    pub call_state-Goes : (d : Delims) (s : StateFn) → Goes l (call_state is_word d s l)
    unfolding call_state
    call_state-Goes d lex_text = text_end-Goes _
    call_state-Goes d lex_left_delim =
        turns (has_prefix (codes "/*") (advance (length d.left) l).ahead) (goes (advances _ stays))
          (goes (emits _ refl (advances _ stays)))
    call_state-Goes d lex_comment = comment_end-Goes d.right _ _ (advances 2 stays)
    call_state-Goes d lex_right_delim = goes (emits _ refl (advances _ stays))
    call_state-Goes d lex_inside_action =
        turns (has_prefix d.right l.ahead) (goes stays) (inside_at-Goes l.ahead)
    call_state-Goes d lex_identifier = word_end-Goes d _ (advances _ stays)
    call_state-Goes d lex_char = quoted_item-Goes _ _ _ refl
    call_state-Goes d lex_number = number_or_complex-Goes _ (scan_number-Moves l stays)
    call_state-Goes d lex_quote = quoted_item-Goes _ _ _ refl
    call_state-Goes d lex_raw_quote = quoted_item-Goes _ _ _ refl
