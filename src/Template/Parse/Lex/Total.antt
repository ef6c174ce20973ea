-- ===== src/Template/Parse/Lex/Total.antt =====
-- template/parse/lex.go: a run of the lexer ends.
use sadbox.Prelude.{
  ℕ, zero, suc, ◌+◌, ◌*◌, ◌≤◌, ◌<◌, ◌≡◌, refl, Bool, true, ◌||◌, ◌&&◌, Option, none, some, [], ◌∷◌,
  Text, codes, arith, length, ◌==◌, leb,
}
use sadbox.Template.Escape.Attr.{has_prefix}
use sadbox.Template.Parse.Lex.{
  item_char, item_pipe, item_colon_equals, unclosed_action, expected_colon_equals,
  unrecognized_character, StateFn, lex_text, lex_left_delim, lex_comment, lex_right_delim,
  lex_inside_action, lex_identifier, lex_char, lex_number, lex_quote, lex_raw_quote, TemplateLexer,
  advance, emit, ignore, Next, Delims, new_delims, or_default, new_template_lexer,
}
use sadbox.Template.Parse.Lex.Scan.{text_run, is_blank}
use sadbox.Template.Parse.Lex.Actions.{
  is_decimal, is_alpha_numeric, call_state, after_dot, first_rune, inside_rune, inside_at, is_rune,
  run_from, run_lexer,
}
use sadbox.Template.Parse.Lex.Slices.{Moves, stays, advances, emits, ignores}
use sadbox.Template.Parse.Lex.Less.{number_at, Moves-shorter, advance-less}
use sadbox.Template.Parse.Lex.Falls.{
  Falls, falls, stops, either, rank_le, fails, measure, rank, word_at, text_end-Falls,
  left_delim-Falls, right_delim-Falls, comment_end-Falls, quoted_item-Falls, number-Falls,
  identifier-Falls, text_run-found,
}

module _ (is_word : ℕ → Bool) (d : Delims) where
  module _ (l : TemplateLexer) where
    onward :
        (s : StateFn) (m : TemplateLexer)
        → 1 ≤ length l.ahead
        → Moves (advance 1 l) m
        → Falls is_word d (3 * length l.ahead + 1) (some s, m)
    onward s m h p = falls (
        omega
          (arith, rank_le is_word d s m.ahead, Moves-shorter p, advance-less 1 l (omega arith) h))

    here :
        (s : StateFn)
        → rank is_word d s l.ahead ≡ 0
        → Falls is_word d (3 * length l.ahead + 1) (some s, l)
    here s h = falls (omega (arith, h))

    after_dot-Falls :
        (o : Option ℕ)
        → 1 ≤ length l.ahead
        → rank is_word d lex_number l.ahead ≡ 0
        → Falls is_word d (3 * length l.ahead + 1) (after_dot o (advance 1 l) l)
    after_dot-Falls none h e = here lex_number e
    after_dot-Falls (some r) h e =
        either is_word d _ (is_decimal r) (λ _. here lex_number e)
          (λ _. onward lex_identifier _ h stays)

    inside_rune-Falls :
        (r : ℕ)
        → 1 ≤ length l.ahead
        → (r == b'+' || r == b'-' || is_decimal r || r == b'.' ≡ true → number_at l.ahead ≡ true)
        → (is_alpha_numeric is_word r ≡ true → word_at is_word d l.ahead ≡ true)
        → Falls is_word d (3 * length l.ahead + 1) (inside_rune is_word r (advance 1 l) l)
    unfolding inside_rune
    inside_rune-Falls r h n w =
        either is_word d _ (r == 10) (λ _. fails is_word d _ unclosed_action (advance 1 l))
          λ _.
            either is_word d _ (is_blank r)
              (λ _. onward lex_inside_action (ignore (advance 1 l)) h (ignores stays))
              λ _.
                either is_word d _ (r == b':')
                  (λ _.
                    either is_word d _ (is_rune (first_rune (advance 1 l).ahead) b'=')
                      (λ _.
                        onward lex_inside_action (emit item_colon_equals (advance 1 (advance 1 l)))
                          h (emits item_colon_equals refl (advances 1 stays)))
                      (λ _. fails is_word d _ expected_colon_equals (advance 1 (advance 1 l))))
                  λ _.
                    either is_word d _ (r == b'|')
                      (λ _.
                        onward lex_inside_action (emit item_pipe (advance 1 l)) h
                          (emits item_pipe refl stays))
                      λ _.
                        either is_word d _ (r == b'"') (λ _. onward lex_quote (advance 1 l) h stays)
                          λ _.
                            either is_word d _ (r == b'`')
                              (λ _. onward lex_raw_quote (advance 1 l) h stays)
                              λ _.
                                either is_word d _ (r == b'$')
                                  (λ _. onward lex_identifier (advance 1 l) h stays)
                                  λ _.
                                    either is_word d _ (r == b'\'')
                                      (λ _. onward lex_char (advance 1 l) h stays)
                                      λ _.
                                        either is_word d _ (r == b'.')
                                          (λ e.
                                            after_dot-Falls (first_rune (advance 1 l).ahead) h
                                              (rw (n (ground arith)) refl))
                                          λ _.
                                            either is_word d _
                                              (r == b'+' || r == b'-' || is_decimal r)
                                              (λ e. here lex_number (rw (n (ground arith)) refl))
                                              λ _.
                                                either is_word d _ (is_alpha_numeric is_word r)
                                                  (λ e. here lex_identifier (rw (w e) refl))
                                                  λ _.
                                                    either is_word d _ (leb 32 r && leb r 126)
                                                      (λ _.
                                                        onward lex_inside_action
                                                          (emit item_char (advance 1 l)) h
                                                          (emits item_char refl stays))
                                                      λ _.
                                                        fails is_word d _ (unrecognized_character r)
                                                          (advance 1 l)

    inside_at-Falls :
        (s : Text) → l.ahead ≡ s → Falls is_word d (3 * length l.ahead + 1) (inside_at is_word s l)
    unfolding number_at
    inside_at-Falls [] e = fails is_word d _ unclosed_action l
    inside_at-Falls (r ∷ s) e = inside_rune-Falls r (rw e (omega arith)) (λ t. rw e t) (λ t. rw e t)

    inside_action-Falls :
        Falls is_word d
          (measure is_word d lex_inside_action l)
          (call_state is_word d lex_inside_action l)
    unfolding call_state
    inside_action-Falls =
        either is_word d _ (has_prefix d.right l.ahead) (λ e. here lex_right_delim (rw e refl))
          (λ _. inside_at-Falls l.ahead refl)

    call_state-Falls :
        (s : StateFn)
        → 1 ≤ length d.left
        → 1 ≤ length d.right
        → Falls is_word d (measure is_word d s l) (call_state is_word d s l)
    unfolding call_state
    call_state-Falls lex_text a b =
        text_end-Falls is_word d l (text_run d.left l.ahead) (text_run-found d.left l.ahead)
    call_state-Falls lex_left_delim a b = left_delim-Falls is_word d l a
    call_state-Falls lex_comment a b =
        comment_end-Falls is_word d l d.right _ (advance 2 l) (advances 2 stays)
    call_state-Falls lex_right_delim a b = right_delim-Falls is_word d l b
    call_state-Falls lex_inside_action a b = inside_action-Falls
    call_state-Falls lex_identifier a b = identifier-Falls is_word d l
    call_state-Falls lex_char a b = quoted_item-Falls is_word d l _ _ _
    call_state-Falls lex_number a b = number-Falls is_word d l
    call_state-Falls lex_quote a b = quoted_item-Falls is_word d l _ _ _
    call_state-Falls lex_raw_quote a b = quoted_item-Falls is_word d l _ _ _

  abbrev Ends : Option TemplateLexer → Type 0
  Ends o = (m : TemplateLexer) × (o ≡ some m)

  called-Ends :
      (k : ℕ) (f : StateFn → TemplateLexer → Option TemplateLexer) (x : Next)
      → ((s : StateFn) (l : TemplateLexer) → measure is_word d s l < k → Ends (f s l))
      → Falls is_word d k x
      → Ends (elim x.0 [ none ↦ some x.1 | some s ↦ f s x.1 ])
  called-Ends k f x g (stops {l}) = (l, refl)
  called-Ends k f x g (falls {s} {l} h) = g s l h

  run_from-Ends :
      1 ≤ length d.left
      → 1 ≤ length d.right
      → (k : ℕ) (s : StateFn) (l : TemplateLexer) → measure is_word d s l < k
      → Ends (run_from is_word k d s l)
  unfolding run_from
  run_from-Ends a b zero s l h = absurd (omega arith)
  run_from-Ends a b (suc k) s l h =
      called-Ends _ (run_from is_word k d) (call_state is_word d s l)
        (λ s' l' q. run_from-Ends a b k s' l' (omega arith)) (call_state-Falls l s a b)

or_default-some : (s t : Text) → 1 ≤ length t → 1 ≤ length (or_default s t)
or_default-some [] t h = h
or_default-some (c ∷ s) t h = omega arith

new_delims-left : (a b : Text) → 1 ≤ length (new_delims a b).left
unfolding new_delims
new_delims-left a b = or_default-some a (codes "{{") (omega arith)

new_delims-right : (a b : Text) → 1 ≤ length (new_delims a b).right
unfolding new_delims
new_delims-right a b = or_default-some b (codes "}}") (omega arith)

pub run_lexer-some :
    (is_word : ℕ → Bool) (left right input : Text)
    → (m : TemplateLexer) × (run_lexer is_word (new_delims left right) input ≡ some m)
unfolding run_lexer new_template_lexer
run_lexer-some is_word left right input =
    run_from-Ends is_word (new_delims left right) (new_delims-left left right)
      (new_delims-right left right) _ lex_text (new_template_lexer input) (omega arith)
