-- ===== src/Template/Escape/Advance/Scripts.antt =====
-- template/escape/transition.go: the transitions of scripts and comments do not stand still.
use sadbox.Prelude.{
  ℕ, suc, ◌+◌, ◌≤◌, ◌<◌, ◌≡◌, refl, sym, subst, Bool, true, false, ◌||◌, Option, none, some, [],
  ◌∷◌, Text, codes, arith, ◌==◌, if◌then◌else◌, length, take, drop, length-drop, has_rune,
}
use sadbox.Template.Escape.Advance.Tags.{has_prefix_le}
use sadbox.Template.Escape.Advance.{Advances, consumes, leaves, if-Advances, at, Lies, rank}
use sadbox.Template.Escape.Attr.{has_prefix}
use sadbox.Template.Escape.Context.{
  State, state_js, state_css, state_js_block_cmt, state_js_line_cmt, state_css_block_cmt,
  state_css_line_cmt, JsCtx, js_ctx_regexp, js_ctx_div_op, js_ctx_unknown, Context,
}
use sadbox.Template.Escape.Scan.{one_more}
use sadbox.Template.Escape.Html.{Step, index, t_html_cmt_to, t_html_cmt}
use sadbox.Template.Escape.Script.{
  index_any, t_js_slash, t_js_at, t_js_from, t_js, delimited_step, t_js_delimited_loop,
  t_js_delimited, block_cmt_end, block_cmt_to, t_block_cmt, index_js_line, line_end, t_line_cmt,
  next_js_ctx, specials, separator_first,
}

pub if-Lies :
    (b : Bool) (m n : ℕ) (o p : Option ℕ)
    → (b ≡ true → Lies m n o)
    → Lies m n p
    → Lies m n (if b then o else p)
if-Lies true m n o p h g = h refl
if-Lies false m n o p h g = g

Lies-one_more : (m n : ℕ) (o : Option ℕ) → Lies m n o → Lies m (suc n) (one_more o)
Lies-one_more m n none h = tt
Lies-one_more m n (some i) h = omega arith

pub index-Lies : (p s : Text) → Lies (length p) (length s) (index p s)
unfolding index
index-Lies p [] = if-Lies (has_prefix p []) _ _ _ _ (λ e. omega (arith, has_prefix_le p [] e)) tt
index-Lies p (x ∷ xs) =
    if-Lies (has_prefix p (x ∷ xs)) _ _ _ _ (λ e. omega (arith, has_prefix_le p (x ∷ xs) e))
      (Lies-one_more (length p) (length xs) (index p xs) (index-Lies p xs))

pub index_any-Lies : (chars s : Text) → Lies 1 (length s) (index_any chars s)
unfolding index_any
index_any-Lies chars [] = tt
index_any-Lies chars (x ∷ xs) =
    if-Lies (has_rune chars x) _ _ _ _ (λ _. omega arith)
      (Lies-one_more 1 (length xs) (index_any chars xs) (index_any-Lies chars xs))

index_js_line-Lies : (s : Text) → Lies 1 (length s) (index_js_line s)
unfolding index_js_line
index_js_line-Lies [] = tt
index_js_line-Lies (x ∷ xs) =
    if-Lies (x == b'\n' || x == b'\r' || separator_first x xs) _ _ _ _ (λ _. omega arith)
      (Lies-one_more 1 (length xs) (index_js_line xs) (index_js_line-Lies xs))

module _ (c : Context) (n : ℕ) (some_text : 0 < n) where
  t_html_cmt_to-Advances : (o : Option ℕ) → Lies 3 n o → Advances c n (t_html_cmt_to c n o)
  unfolding t_html_cmt_to
  t_html_cmt_to-Advances none h = consumes c n _ (omega arith) some_text
  t_html_cmt_to-Advances (some i) h = consumes c n _ h (omega arith)

  t_js_slash-Advances :
      (d : Context) (i : ℕ) (k : JsCtx) → i + 1 ≤ n → Advances c n (t_js_slash d n i k)
  unfolding t_js_slash
  t_js_slash-Advances d i js_ctx_regexp h = consumes c n _ h (omega arith)
  t_js_slash-Advances d i js_ctx_div_op h = consumes c n _ h (omega arith)
  t_js_slash-Advances d i js_ctx_unknown h = consumes c n _ (omega arith) some_text

  t_js_at-Advances :
      (d : Context) (i : ℕ) (xs : Text) → i + length xs ≡ n → Advances c n (t_js_at d n i xs)
  unfolding t_js_at
  t_js_at-Advances d i [] h = consumes c n _ (omega arith) some_text
  t_js_at-Advances d i (x ∷ []) h =
      if-Advances (x == b'"') c n _ _ (λ _. consumes c n _ (omega arith) (omega arith))
        λ _.
          if-Advances (x == b'\'') c n _ _ (λ _. consumes c n _ (omega arith) (omega arith))
            λ _. t_js_slash-Advances d i d.js_ctx (omega arith)
  t_js_at-Advances d i (x ∷ y ∷ ys) h =
      if-Advances (x == b'"') c n _ _ (λ _. consumes c n _ (omega arith) (omega arith))
        λ _.
          if-Advances (x == b'\'') c n _ _ (λ _. consumes c n _ (omega arith) (omega arith))
            λ _.
              if-Advances (y == b'/') c n _ _ (λ _. consumes c n _ (omega arith) (omega arith))
                λ _.
                  if-Advances (y == b'*') c n _ _ (λ _. consumes c n _ (omega arith) (omega arith))
                    λ _. t_js_slash-Advances d i d.js_ctx (omega arith)

  delimited_step-Advances :
      (d : Context) (x k : ℕ) (in_charset : Bool) (on opened closed escaped : Step)
      → k + 1 ≤ n
      → Advances c n on
      → Advances c n opened
      → Advances c n closed
      → Advances c n escaped
      → Advances c n (delimited_step d x k in_charset on opened closed escaped)
  unfolding delimited_step
  delimited_step-Advances d x k in_charset on opened closed escaped h a b e f =
      if-Advances (has_rune (specials d.state) x) c n _ _
        (λ _.
          if-Advances (x == b'\\') c n _ _ (λ _. f)
            λ _.
              if-Advances (x == b'[') c n _ _ (λ _. b)
                λ _.
                  if-Advances (x == b']') c n _ _ (λ _. e)
                    λ _.
                      if-Advances in_charset c n _ _ (λ _. a) λ _. consumes c n _ h (omega arith))
        λ _. a

  t_js_delimited_loop-Advances :
      (d : Context) (k : ℕ) (in_charset : Bool) (xs : Text)
      → k + length xs ≡ n
      → Advances c n (t_js_delimited_loop d n k in_charset xs)
  unfolding t_js_delimited_loop
  t_js_delimited_loop-Advances d k in_charset [] h =
      if-Advances in_charset c n _ _ (λ _. consumes c n _ (omega arith) some_text)
        λ _. consumes c n _ (omega arith) some_text
  t_js_delimited_loop-Advances d k in_charset (x ∷ []) h =
      delimited_step-Advances d x k in_charset _ _ _ _ (omega arith)
        (t_js_delimited_loop-Advances d (k + 1) in_charset [] (omega arith))
        (t_js_delimited_loop-Advances d (k + 1) true [] (omega arith))
        (t_js_delimited_loop-Advances d (k + 1) false [] (omega arith))
        (consumes c n _ (omega arith) some_text)
  t_js_delimited_loop-Advances d k in_charset (x ∷ y ∷ ys) h =
      delimited_step-Advances d x k in_charset _ _ _ _ (omega arith)
        (t_js_delimited_loop-Advances d (k + 1) in_charset (y ∷ ys) (omega arith))
        (t_js_delimited_loop-Advances d (k + 1) true (y ∷ ys) (omega arith))
        (t_js_delimited_loop-Advances d (k + 1) false (y ∷ ys) (omega arith))
        (t_js_delimited_loop-Advances d (k + 2) in_charset ys (omega arith))

  line_end-Advances :
      (t : State) (o : Option ℕ)
      → Lies 1 n o
      → rank t < rank c.state
      → Advances c n (line_end c n t o)
  unfolding line_end
  line_end-Advances t none h e = consumes c n _ (omega arith) some_text
  line_end-Advances t (some i) h e = leaves c n _ (omega arith) e

  t_js_from-Advances :
      (s : Text) (o : Option ℕ) → length s ≡ n → Lies 1 n o → Advances c n (t_js_from c s o)
  unfolding t_js_from
  t_js_from-Advances s none h g = consumes c n _ (omega arith) (omega arith)
  t_js_from-Advances s (some i) h g =
      subst
        (λ m.
          Advances c n
            (t_js_at (record c { js_ctx = next_js_ctx (take i s) c.js_ctx }) m i (drop i s)))
        (sym h) (t_js_at-Advances _ i (drop i s) (omega (arith, length-drop i s)))

-- A transition that may panic, which it does not do, and which advances.
abbrev pub Goes : Context → ℕ → Option Step → Type 0
Goes c n none = ⊥
Goes c n (some r) = Advances c n r

block_cmt_to-Goes :
    (c : Context) (n : ℕ) (t : State) (o : Option ℕ)
    → 0 < n
    → Lies 2 n o
    → Goes c n (block_cmt_to c n (some t) o)
unfolding block_cmt_to
block_cmt_to-Goes c n t none h g = consumes c n _ (omega arith) h
block_cmt_to-Goes c n t (some i) h g = consumes c n _ g (omega arith)

module _ (c : Context) (s : Text) (some_text : 0 < length s) where
  pub t_html_cmt-Advances : Advances c (length s) (t_html_cmt c s)
  unfolding t_html_cmt
  t_html_cmt-Advances = t_html_cmt_to-Advances c (length s) some_text _ (index-Lies (codes "-->") s)

  pub t_js-Advances : Advances c (length s) (t_js c s)
  unfolding t_js
  t_js-Advances =
      t_js_from-Advances c (length s) some_text s _ refl (index_any-Lies (codes "\"'/") s)

  pub t_js_delimited-Advances : Advances c (length s) (t_js_delimited c s)
  unfolding t_js_delimited
  t_js_delimited-Advances =
      t_js_delimited_loop-Advances c (length s) some_text c 0 false s (omega arith)

  pub t_block_cmt-Goes :
      Goes (at state_js_block_cmt c) (length s) (t_block_cmt (at state_js_block_cmt c) s)
      × Goes (at state_css_block_cmt c) (length s) (t_block_cmt (at state_css_block_cmt c) s)
  unfolding t_block_cmt block_cmt_end
  t_block_cmt-Goes = (
    block_cmt_to-Goes _ (length s) state_js _ some_text (index-Lies (codes "*/") s),
    block_cmt_to-Goes _ (length s) state_css _ some_text (index-Lies (codes "*/") s),
  )

  pub t_line_cmt-Goes :
      Goes (at state_js_line_cmt c) (length s) (t_line_cmt (at state_js_line_cmt c) s)
      × Goes (at state_css_line_cmt c) (length s) (t_line_cmt (at state_css_line_cmt c) s)
  unfolding t_line_cmt
  t_line_cmt-Goes = (
    line_end-Advances _ (length s) some_text state_js _ (index_js_line-Lies s) (omega arith),
    line_end-Advances _ (length s) some_text state_css _
        (index_any-Lies (b'\n' ∷ 12 ∷ b'\r' ∷ []) s) (omega arith),
  )
