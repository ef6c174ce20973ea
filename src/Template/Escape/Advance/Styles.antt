-- ===== src/Template/Escape/Advance/Styles.antt =====
-- template/escape/transition.go and css.go: the transitions of style sheets do not stand still, and
-- decoded text is no longer than its source.
use sadbox.Prelude.{
  ℕ, zero, suc, ◌+◌, ◌≤◌, ◌<◌, ◌≡◌, ◌⊎◌, refl, ap, ◌∙◌, true, false, inl, inr, [], ◌∷◌, Text, codes,
  arith, ◌==◌, ==_iff, Bool-cases, length, take, drop, length-drop, has_rune,
}
use sadbox.Template.Escape.Advance.Tags.{eat_white_space_le}
use sadbox.Template.Escape.Advance.Scripts.{Goes}
use sadbox.Template.Escape.Advance.{Advances, consumes, if-Advances, at}
use sadbox.Template.Escape.Context.{
  state_css_dq_str, state_css_sq_str, state_css_dq_url, state_css_sq_url, state_css_url, Context,
}
use sadbox.Template.Escape.Css.{
  before_backslash, decode_css, t_css_url, t_css_slash, t_css_loop, t_css, end_and_esc, url_of,
  t_css_str_loop, t_css_str, ends_with_css_keyword,
}
use sadbox.Template.Escape.Decode.{length-decode_css_le, decode_css-plain}
use sadbox.Template.Escape.Html.{Step, t_url}
use sadbox.Template.Escape.Scan.{eat_white_space}

module _ (c : Context) (n : ℕ) (some_text : 0 < n) where
  t_css_url-Advances :
      (j : ℕ) (xs : Text) → 0 < j → j + length xs ≡ n → Advances c n (t_css_url c j xs)
  unfolding t_css_url
  t_css_url-Advances j [] p h = consumes c n _ (omega arith) p
  t_css_url-Advances j (x ∷ xs) p h =
      if-Advances (x == b'"') c n _ _ (λ _. consumes c n _ (omega arith) (omega arith))
        λ _.
          if-Advances (x == b'\'') c n _ _ (λ _. consumes c n _ (omega arith) (omega arith))
            λ _. consumes c n _ (omega arith) p

  t_css_slash-Advances :
      (i : ℕ) (xs : Text) (on : Step)
      → i + 1 + length xs ≡ n
      → Advances c n on
      → Advances c n (t_css_slash c i xs on)
  unfolding t_css_slash
  t_css_slash-Advances i [] on h g = g
  t_css_slash-Advances i (x ∷ xs) on h g =
      if-Advances (x == b'/') c n _ _ (λ _. consumes c n _ (omega arith) (omega arith))
        λ _.
          if-Advances (x == b'*') c n _ _ (λ _. consumes c n _ (omega arith) (omega arith)) λ _. g

  t_css_loop-Advances :
      (i : ℕ) (before xs : Text) → i + length xs ≡ n → Advances c n (t_css_loop c n i before xs)
  unfolding t_css_loop
  t_css_loop-Advances i before [] h = consumes c n _ (omega arith) some_text
  t_css_loop-Advances i before (x ∷ xs) h =
      let on = t_css_loop-Advances (i + 1) (x ∷ before) xs (omega arith) in
      let w = eat_white_space xs in
      if-Advances (x == b'(') c n _ _
        (λ _.
          if-Advances (ends_with_css_keyword (drop (eat_white_space before) before) (codes "lru")) c
            n _ _
            (λ _.
              t_css_url-Advances (i + 1 + w) (drop w xs) (omega arith)
                (omega (arith, eat_white_space_le xs, length-drop w xs)))
            λ _. on)
        λ _.
          if-Advances (x == b'/') c n _ _ (λ _. t_css_slash-Advances i xs _ (omega arith) on)
            λ _.
              if-Advances (x == b'"') c n _ _ (λ _. consumes c n _ (omega arith) (omega arith))
                λ _.
                  if-Advances (x == b'\'') c n _ _ (λ _. consumes c n _ (omega arith) (omega arith))
                    λ _. on

before_backslash-plain :
    (chars : Text) (x : ℕ) (xs : Text)
    → has_rune chars b'\\' ≡ true
    → has_rune chars x ≡ false
    → before_backslash (x ∷ xs) ≡ suc (before_backslash xs)
unfolding before_backslash
before_backslash-plain chars x xs h g = elim (Bool-cases (x == b'\\')) [
  | inl slash ↦
      let same : x ≡ b'\\' = (==_iff x b'\\').0 slash in
      let found : has_rune chars x ≡ true = ap (has_rune chars) same ∙ h in cc
  | inr other ↦ rw other
]

module _ (chars s : Text) (slash : has_rune chars b'\\' ≡ true) (c : Context)
    (some_text : 0 < length s) where
  -- Either a backslash was passed, or none stands in front of the position.
  abbrev Passed : ℕ → ℕ → Text → Type 0
  Passed k i xs = (0 < k) ⊎ (before_backslash s ≡ i + before_backslash xs)

  css_str_end :
      (d : Context) (k i : ℕ)
      → i + 0 ≡ length s
      → k ≤ i
      → Passed k i []
      → Advances c (length s) (t_css_str_loop chars s d k i [])
  unfolding t_css_str_loop t_url before_backslash
  css_str_end d zero i h g (inl p) = elim p [ ]
  css_str_end d zero i h g (inr e) =
      let whole : decode_css s ≡ s = decode_css-plain s (omega arith) in
      consumes c (length s) _ (omega (arith, ap length whole)) (omega (arith, ap length whole))
  css_str_end d (suc k) i h g p =
      consumes c (length s) _
        (omega (arith, length-decode_css_le (drop (suc k) s), length-drop (suc k) s)) (omega arith)

  Passed-step :
      (k i x : ℕ) (xs : Text) → has_rune chars x ≡ false → Passed k i (x ∷ xs) → Passed k (i + 1) xs
  Passed-step k i x xs g (inl p) = inl p
  Passed-step k i x xs g (inr e) = inr (omega (arith, before_backslash-plain chars x xs slash g))

  t_css_str_loop-Advances :
      (d : Context) (k i : ℕ) (xs : Text)
      → i + length xs ≡ length s
      → k ≤ i
      → Passed k i xs
      → Advances c (length s) (t_css_str_loop chars s d k i xs)
  unfolding t_css_str_loop
  t_css_str_loop-Advances d k i [] h g p = css_str_end d k i h g p
  t_css_str_loop-Advances d k i (x ∷ []) h g p =
      if-Advances (has_rune chars x) c (length s) _ _
        (λ _.
          if-Advances (x == b'\\') c (length s) _ _
            (λ _. consumes c (length s) _ (omega arith) some_text)
            λ _. consumes c (length s) _ (omega arith) (omega arith))
        λ e. css_str_end d k (i + 1) (omega arith) (omega arith) (Passed-step k i x [] e p)
  t_css_str_loop-Advances d k i (x ∷ y ∷ ys) h g p =
      if-Advances (has_rune chars x) c (length s) _ _
        (λ _.
          if-Advances (x == b'\\') c (length s) _ _
            (λ _.
              t_css_str_loop-Advances (url_of d (take (i + 2) s)) (i + 2) (i + 2) ys (omega arith)
                (omega arith) (inl (omega arith)))
            λ _. consumes c (length s) _ (omega arith) (omega arith))
        λ e.
          t_css_str_loop-Advances d k (i + 1) (y ∷ ys) (omega arith) (omega arith)
            (Passed-step k i x (y ∷ ys) e p)

module _ (c : Context) (s : Text) (some_text : 0 < length s) where
  pub t_css-Advances : Advances c (length s) (t_css c s)
  unfolding t_css
  t_css-Advances = t_css_loop-Advances c (length s) some_text 0 [] s (omega arith)

  -- The strings and URLs of style sheets.
  css_str-Advances :
      (chars : Text)
      → has_rune chars b'\\' ≡ true
      → (d : Context) → Advances d (length s) (t_css_str_loop chars s d 0 0 s)
  css_str-Advances chars slash d =
      t_css_str_loop-Advances chars s slash d some_text d 0 0 s (omega arith) (omega arith)
        (inr (omega arith))

  pub t_css_str-Goes :
      Goes (at state_css_dq_str c) (length s) (t_css_str (at state_css_dq_str c) s)
      × Goes (at state_css_sq_str c) (length s) (t_css_str (at state_css_sq_str c) s)
      × Goes (at state_css_dq_url c) (length s) (t_css_str (at state_css_dq_url c) s)
      × Goes (at state_css_sq_url c) (length s) (t_css_str (at state_css_sq_url c) s)
      × Goes (at state_css_url c) (length s) (t_css_str (at state_css_url c) s)
  unfolding t_css_str end_and_esc
  t_css_str-Goes = (
    css_str-Advances _ refl _,
    css_str-Advances _ refl _,
    css_str-Advances _ refl _,
    css_str-Advances _ refl _,
    css_str-Advances _ refl _,
  )
