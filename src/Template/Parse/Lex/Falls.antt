-- ===== src/Template/Parse/Lex/Falls.antt =====
-- template/parse/lex.go: every call of a state function shortens what is ahead, or goes on to a state
-- function that will.
use sadbox.Prelude.{
  ℕ, ◌+◌, ◌*◌, ◌≤◌, ◌<◌, ◌≡◌, refl, Bool, true, false, ◌||◌, if◌then◌else◌, if_elim, none, some, [],
  ◌∷◌, Text, codes, arith, length, length-drop, drop,
}
use sadbox.Template.Escape.Attr.{has_prefix}
use sadbox.Template.Parse.Lex.{
  ItemType, LexError, item_complex, item_number, bad_number_syntax, StateFn, lex_text,
  lex_left_delim, lex_comment, lex_right_delim, lex_inside_action, lex_identifier, lex_char,
  lex_number, lex_quote, lex_raw_quote, TemplateLexer, advance, emit, errorf, Next, Delims,
}
use sadbox.Template.Parse.Lex.Scan.{text_run, quoted_item}
use sadbox.Template.Parse.Lex.Actions.{
  is_alpha_numeric, scan_number, word_run, word_advance, text_end, emit_text, emit_text_if,
  call_state, complex_end, number_or_complex, comment_end, first_rune, bad_word, is_rune,
  final_rune, at_terminator,
}
use sadbox.Template.Parse.Lex.Slices.{Moves, stays, advances, ignores}
use sadbox.Template.Parse.Lex.Moves.{scan_number-Moves}
use sadbox.Template.Parse.Lex.Less.{number_at, Moves-shorter, advance-less, scan_number-less}

-- Whether the loop of `text_run` stopped at the delimiter.
pub text_run-found :
    (left s : Text)
    → (text_run left s).1 ≡ true
    → has_prefix left (drop (text_run left s).0 s) ≡ true
unfolding text_run
text_run-found left [] h = h
text_run-found left (r ∷ rs) h =
    if_elim {A = ℕ × Bool} (λ x. x.1 ≡ true → has_prefix left (drop x.0 (r ∷ rs)) ≡ true)
      (has_prefix left (r ∷ rs)) (λ e _. e) (λ _ k. text_run-found left rs k) h

emit_text_if-ahead : (s : Text) (m : TemplateLexer) → (emit_text_if s m).ahead ≡ m.ahead
unfolding emit
emit_text_if-ahead [] m = refl
emit_text_if-ahead (c ∷ s) m = refl

emit_text-ahead : (m : TemplateLexer) → (emit_text m).ahead ≡ m.ahead
unfolding emit_text
emit_text-ahead m = emit_text_if-ahead m.pending m

abbrev pub unfit : ℕ → Bool → ℕ
unfit n true = 0
unfit n false = n

unfit_le : (n : ℕ) (b : Bool) → unfit n b ≤ n
unfit_le n true = omega arith
unfit_le n false = omega arith

unfit_less :
    (n m a c : ℕ) (b : Bool)
    → m < n
    → m ≤ 2
    → (b ≡ true → a < c)
    → a ≤ c
    → 3 * a + m < 3 * c + unfit n b
unfit_less n m a c true h k p q = let e = p refl in omega arith
unfit_less n m a c false h k p q = omega arith

has_prefix-some : (t s : Text) → 1 ≤ length t → has_prefix t s ≡ true → 1 ≤ length s
unfolding has_prefix
has_prefix-some [] s h e = absurd (omega arith)
has_prefix-some (x ∷ t) [] h e = cc
has_prefix-some (x ∷ t) (y ∷ s) h e = omega arith

module _ (is_word : ℕ → Bool) (d : Delims) where
  abbrev pub word_at : Text → Bool
  word_at [] = false
  word_at (r ∷ rs) = is_alpha_numeric is_word r

  abbrev pub rank : StateFn → Text → ℕ
  rank lex_text s = 1
  rank lex_left_delim s = unfit 3 (has_prefix d.left s)
  rank lex_comment s = 2
  rank lex_right_delim s = unfit 2 (has_prefix d.right s)
  rank lex_inside_action s = 1
  rank lex_identifier s = unfit 2 (word_at s)
  rank lex_char s = 2
  rank lex_number s = unfit 2 (number_at s)
  rank lex_quote s = 2
  rank lex_raw_quote s = 2

  abbrev pub measure : StateFn → TemplateLexer → ℕ
  measure s l = 3 * length l.ahead + rank s l.ahead

  pub data Falls (k : ℕ) : Next → Type 0 where
    stops : {l : TemplateLexer} → Falls k (none, l)
    falls : {s : StateFn} {l : TemplateLexer} → measure s l < k → Falls k (some s, l)

  pub either :
      (k : ℕ) (b : Bool) {x y : Next}
      → (b ≡ true → Falls k x)
      → (b ≡ false → Falls k y)
      → Falls k (if b then x else y)
  either k b p q = if_elim (Falls k) b p q

  pub rank_le : (s : StateFn) (t : Text) → rank s t ≤ 3
  rank_le lex_text t = omega arith
  rank_le lex_left_delim t = unfit_le 3 _
  rank_le lex_comment t = omega arith
  rank_le lex_right_delim t = omega (arith, unfit_le 2 (has_prefix d.right t))
  rank_le lex_inside_action t = omega arith
  rank_le lex_identifier t = omega (arith, unfit_le 2 (word_at t))
  rank_le lex_char t = omega arith
  rank_le lex_number t = omega (arith, unfit_le 2 (number_at t))
  rank_le lex_quote t = omega arith
  rank_le lex_raw_quote t = omega arith

  pub fails : (k : ℕ) (e : LexError) (m : TemplateLexer) → Falls k (errorf e m)
  unfolding errorf
  fails k e m = stops

  module _ (l : TemplateLexer) where
    pub text_end-Falls :
        (r : ℕ × Bool)
        → (r.1 ≡ true → has_prefix d.left (drop r.0 l.ahead) ≡ true)
        → Falls (3 * length l.ahead + 1) (text_end r l)
    unfolding advance
    text_end-Falls (n, true) h =
        falls (rw (emit_text-ahead (advance n l), h refl) (omega (arith, length-drop n l.ahead)))
    text_end-Falls (n, false) h = stops

    pub comment_end-Falls :
        (right : Text) (r : ℕ × Bool) (m : TemplateLexer)
        → Moves l m
        → Falls (3 * length l.ahead + 2) (comment_end right r m)
    comment_end-Falls right (n, true) m p =
        falls (omega (arith, Moves-shorter (ignores (advances _ p))))
    comment_end-Falls right (n, false) m p = fails _ _ _

    pub quoted_item-Falls :
        (t : ItemType) (e : LexError) (r : ℕ × Bool)
        → Falls (3 * length l.ahead + 2) (quoted_item t e r l)
    unfolding emit
    quoted_item-Falls t e (n, true) = falls (omega (arith, Moves-shorter (advances n stays)))
    quoted_item-Falls t e (n, false) = fails _ _ _

    delim_less :
        (t : Text)
        → 1 ≤ length t
        → has_prefix t l.ahead ≡ true
        → length (advance (length t) l).ahead < length l.ahead
    delim_less t h e = advance-less (length t) l h (has_prefix-some t l.ahead h e)

    pub left_delim-Falls :
        1 ≤ length d.left → Falls (measure lex_left_delim l) (call_state is_word d lex_left_delim l)
    unfolding call_state emit
    left_delim-Falls h =
        either _ (has_prefix (codes "/*") (advance (length d.left) l).ahead)
          (λ _. falls (
            unfit_less 3 2 _ _ (has_prefix d.left l.ahead) (omega arith) (omega arith)
              (delim_less d.left h) (Moves-shorter (advances (length d.left) stays))))
          (λ _. falls (
            unfit_less 3 1 _ _ (has_prefix d.left l.ahead) (omega arith) (omega arith)
              (delim_less d.left h) (Moves-shorter (advances (length d.left) stays))))

    pub right_delim-Falls :
        1 ≤ length d.right
        → Falls (measure lex_right_delim l) (call_state is_word d lex_right_delim l)
    unfolding call_state emit
    right_delim-Falls h = falls (
        unfit_less 2 1 _ _ (has_prefix d.right l.ahead) (omega arith) (omega arith)
          (delim_less d.right h) (Moves-shorter (advances (length d.right) stays)))

    complex_end-Falls :
        (k : ℕ) (r : Bool × TemplateLexer) → 3 * length r.1.ahead + 1 < k → Falls k (complex_end r)
    unfolding emit
    complex_end-Falls k (true, m) h =
        either k (is_rune (final_rune m.pending) b'i')
          (λ _. falls {s = lex_inside_action} {l = emit item_complex m} h)
          (λ _. fails k (bad_number_syntax m.pending) m)
    complex_end-Falls k (false, m) h = fails k (bad_number_syntax m.pending) m

    number_or_complex-Falls :
        (k : ℕ) (r : Bool × TemplateLexer)
        → 3 * length r.1.ahead + 1 < k
        → Falls k (number_or_complex is_word r)
    unfolding emit
    number_or_complex-Falls k (true, m) h =
        either k (is_rune (first_rune m.ahead) b'+' || is_rune (first_rune m.ahead) b'-')
          (λ _.
            complex_end-Falls k (scan_number is_word m)
              (omega (arith, Moves-shorter (scan_number-Moves m is_word m stays))))
          (λ _. falls {s = lex_inside_action} {l = emit item_number m} h)
    number_or_complex-Falls k (false, m) h = fails k (bad_number_syntax m.pending) m

    pub number-Falls : Falls (measure lex_number l) (call_state is_word d lex_number l)
    unfolding call_state
    number-Falls = number_or_complex-Falls _ (scan_number is_word l) (
        unfit_less 2 1 _ _ (number_at l.ahead) (omega arith) (omega arith)
          (scan_number-less is_word l) (Moves-shorter (scan_number-Moves l is_word l stays)))

    word_run-some : (b : Bool) (s : Text) → word_at s ≡ true → 1 ≤ word_run is_word b s
    unfolding word_run
    word_run-some b [] h = cc
    word_run-some b (r ∷ rs) h = rw h (omega arith)

    word_at-some : (s : Text) → word_at s ≡ true → 1 ≤ length s
    word_at-some [] h = cc
    word_at-some (r ∷ s) h = omega arith

    bad_word-Falls : (k : ℕ) (s : Text) (m : TemplateLexer) → Falls k (bad_word s m)
    bad_word-Falls k [] m = stops
    bad_word-Falls k (r ∷ s) m = fails k _ m

    word_advance-Moves : Moves l (word_advance is_word l)
    word_advance-Moves = advances _ stays

    word_advance-less :
        word_at l.ahead ≡ true → length (word_advance is_word l).ahead < length l.ahead
    word_advance-less h = advance-less _ l (word_run-some _ l.ahead h) (word_at-some l.ahead h)

    pub identifier-Falls : Falls (measure lex_identifier l) (call_state is_word d lex_identifier l)
    unfolding call_state emit
    identifier-Falls =
        either _ (at_terminator d.right (word_advance is_word l).ahead)
          (λ _. falls (
            unfit_less 2 1 _ _ (word_at l.ahead) (omega arith) (omega arith) word_advance-less
              (Moves-shorter word_advance-Moves)))
          (λ _. bad_word-Falls _ (word_advance is_word l).ahead (word_advance is_word l))
