-- ===== src/Template/Escape/Advance/Tags.antt =====
-- template/escape/transition.go: the transitions of text and of tags do not stand still.
use sadbox.Prelude.{
  ℕ, suc, ◌+◌, ◌≤◌, ◌<◌, ◌≡◌, Bool, true, false, ◌||◌, inl, inr, Option, none, some, [], ◌∷◌, Text,
  codes, arith, ◌==◌, Bool-cases, if◌then◌else◌, length, drop, length-drop, has_rune,
}
use sadbox.Template.Escape.Attr.{has_prefix}
use sadbox.Template.Escape.Context.{
  state_attr_name, state_after_name, state_before_value, Attr, attr_none, attr_script, attr_style,
  attr_url, Context,
}
use sadbox.Template.Escape.Html.{
  Step, t_text_close, t_text_tag, t_text_loop, t_text, t_tag_named, t_attr_name_to, t_tag_at, t_tag,
  t_attr_name, t_after_name_at, t_after_name, attr_start_states, t_before_value_at, t_before_value,
}
use sadbox.Template.Escape.Scan.{
  white_space, eat_white_space, one_more, eat_attr_name, tag_rest, tag_length, eat_tag_name,
}
use sadbox.Template.Escape.Advance.{Advances, consumes, leaves, if-Advances, at, rank}

pub eat_white_space_le : (s : Text) → eat_white_space s ≤ length s
unfolding eat_white_space
eat_white_space_le [] = omega arith
eat_white_space_le (x ∷ xs) = ground (arith, eat_white_space_le xs)

-- A position that a scanner found, if it found one.
abbrev AtMost : ℕ → Option ℕ → Type 0
AtMost n none = Unit
AtMost n (some j) = j ≤ n

AtMost-one_more : (n : ℕ) (o : Option ℕ) → AtMost n o → AtMost (suc n) (one_more o)
AtMost-one_more n none h = tt
AtMost-one_more n (some j) h = omega arith

if-AtMost :
    (b : Bool) (n : ℕ) (o p : Option ℕ) → AtMost n o → AtMost n p → AtMost n (if b then o else p)
if-AtMost true n o p h g = h
if-AtMost false n o p h g = g

eat_attr_name-AtMost : (s : Text) → AtMost (length s) (eat_attr_name s)
unfolding eat_attr_name
eat_attr_name-AtMost [] = omega arith
eat_attr_name-AtMost (x ∷ xs) =
    if-AtMost (has_rune white_space x || x == b'=' || x == b'>') _ _ _ (omega arith) (
      if-AtMost (x == b'\'' || x == b'"' || x == b'<') _ _ _ tt
        (AtMost-one_more (length xs) (eat_attr_name xs) (eat_attr_name-AtMost xs)))

pub has_prefix_le : (p s : Text) → has_prefix p s ≡ true → length p ≤ length s
unfolding has_prefix
has_prefix_le [] s h = omega arith
has_prefix_le (x ∷ p) [] h = cc
has_prefix_le (x ∷ p) (y ∷ s) h = elim (Bool-cases (x == y)) [
  | inl same ↦
      let more : has_prefix p s ≡ true = rw (has_prefix, same) at h in
      omega (arith, has_prefix_le p s more)
  | inr other ↦ let bad = rw (has_prefix, other) at h in cc
]

tag_rest_le : (s : Text) → tag_rest s ≤ length s
unfolding tag_rest
tag_rest_le [] = omega arith
tag_rest_le (x ∷ []) = ground arith
tag_rest_le (x ∷ y ∷ ys) = ground (arith, tag_rest_le (y ∷ ys), tag_rest_le ys)

tag_length_le : (s : Text) → tag_length s ≤ length s
unfolding tag_length
tag_length_le [] = omega arith
tag_length_le (x ∷ xs) = ground (arith, tag_rest_le xs)

module _ (c : Context) (n : ℕ) (some_text : 0 < n) where
  t_text_close-Advances :
      (i : ℕ) (xs : Text) (again : Step)
      → i + 2 + length xs ≡ n
      → Advances c n again
      → Advances c n (t_text_close c n i xs again)
  unfolding t_text_close eat_tag_name
  t_text_close-Advances i [] again h g = consumes c n (c, n) (omega arith) some_text
  t_text_close-Advances i (x ∷ xs) again h g =
      if-Advances (tag_length (x ∷ xs) == 0) c n _ _ (λ _. g)
        λ _. consumes c n _ (omega (arith, tag_length_le (x ∷ xs))) (omega arith)

  t_text_tag-Advances :
      (i : ℕ) (xs : Text) (again : Step)
      → i + 1 + length xs ≡ n
      → Advances c n again
      → Advances c n (t_text_tag c n i xs again)
  unfolding t_text_tag eat_tag_name
  t_text_tag-Advances i [] again h g = consumes c n (c, n) (omega arith) some_text
  t_text_tag-Advances i (x ∷ xs) again h g =
      if-Advances (has_prefix (codes "!--") (x ∷ xs)) c n _ _
        (λ e. consumes c n _ (omega (arith, has_prefix_le (codes "!--") (x ∷ xs) e)) (omega arith))
        λ _.
          if-Advances (x == b'/') c n _ _ (λ _. t_text_close-Advances i xs again (omega arith) g)
            λ _.
              if-Advances (tag_length (x ∷ xs) == 0) c n _ _ (λ _. g)
                λ _. consumes c n _ (omega (arith, tag_length_le (x ∷ xs))) (omega arith)

  t_text_loop-Advances :
      (i : ℕ) (xs : Text) → i + length xs ≡ n → Advances c n (t_text_loop c n i xs)
  unfolding t_text_loop
  t_text_loop-Advances i [] h = consumes c n (c, n) (omega arith) some_text
  t_text_loop-Advances i (x ∷ xs) h =
      let again = t_text_loop-Advances (i + 1) xs (omega arith) in
      if-Advances (x == b'<') c n _ _ (λ _. t_text_tag-Advances i xs _ (omega arith) again)
        λ _. again

  t_tag_named-Advances :
      (to_lower : Text → Text) (i : ℕ) (xs : Text) (o : Option ℕ)
      → i + length xs ≡ n
      → AtMost (length xs) o
      → Advances c n (t_tag_named to_lower c n i xs o)
  unfolding t_tag_named
  t_tag_named-Advances to_lower i xs none h g = consumes c n _ (omega arith) some_text
  t_tag_named-Advances to_lower i xs (some j) h g =
      if-Advances (j == 0) c n _ _ (λ _. consumes c n _ (omega arith) some_text)
        λ e. let positive : 0 < i + j = ground arith in consumes c n _ (omega arith) positive

  t_tag_at-Advances :
      (to_lower : Text → Text) (i : ℕ) (xs : Text)
      → i + length xs ≡ n
      → Advances c n (t_tag_at to_lower c n i xs)
  unfolding t_tag_at
  t_tag_at-Advances to_lower i [] h = consumes c n (c, n) (omega arith) some_text
  t_tag_at-Advances to_lower i (x ∷ xs) h =
      if-Advances (x == b'>') c n _ _ (λ _. consumes c n _ (omega arith) (omega arith))
        λ _. t_tag_named-Advances to_lower i (x ∷ xs) _ h (eat_attr_name-AtMost (x ∷ xs))

attr_start_states-rank : (a : Attr) → rank (attr_start_states a) < 1
unfolding attr_start_states
attr_start_states-rank attr_none = omega arith
attr_start_states-rank attr_script = omega arith
attr_start_states-rank attr_style = omega arith
attr_start_states-rank attr_url = omega arith

module _ (c : Context) (n : ℕ) (some_text : 0 < n) where
  t_attr_name_to-Advances :
      (o : Option ℕ)
      → AtMost n o
      → Advances (at state_attr_name c) n (t_attr_name_to (at state_attr_name c) n o)
  unfolding t_attr_name_to
  t_attr_name_to-Advances none h = consumes _ n _ (omega arith) some_text
  t_attr_name_to-Advances (some i) h = elim (Bool-cases (i == n)) [
    | inl all ↦
        rw (t_attr_name_to, all) (let positive : 0 < i = ground arith in consumes _ n _ h positive)
    | inr more ↦ rw (t_attr_name_to, more) (leaves _ n _ h (omega arith))
  ]

  t_after_name_at-Advances :
      (i : ℕ) (xs : Text)
      → i + length xs ≡ n
      → Advances (at state_after_name c) n (t_after_name_at (at state_after_name c) n i xs)
  unfolding t_after_name_at
  t_after_name_at-Advances i [] h = consumes _ n _ (omega arith) some_text
  t_after_name_at-Advances i (x ∷ xs) h =
      if-Advances (x == b'=') _ n _ _ (λ _. consumes _ n _ (omega arith) (omega arith))
        λ _. leaves _ n _ (omega arith) (omega arith)

  t_before_value_at-Advances :
      (i : ℕ) (xs : Text)
      → i + length xs ≡ n
      → Advances (at state_before_value c) n (t_before_value_at (at state_before_value c) n i xs)
  unfolding t_before_value_at
  t_before_value_at-Advances i [] h = consumes _ n _ (omega arith) some_text
  t_before_value_at-Advances i (x ∷ xs) h =
      let enters = attr_start_states-rank c.attr in
      if-Advances (x == b'\'') _ n _ _ (λ _. leaves _ n _ (omega arith) enters)
        λ _.
          if-Advances (x == b'"') _ n _ _ (λ _. leaves _ n _ (omega arith) enters)
            λ _. leaves _ n _ (omega arith) enters

-- Where the first white space ends.
behind_white_space : (s : Text) → eat_white_space s + length (drop (eat_white_space s) s) ≡ length s
behind_white_space s = omega (arith, eat_white_space_le s, length-drop (eat_white_space s) s)

-- In a text that is not empty, each transition of text, tags, attribute names and what stands around
-- `=` consumes no more than the text, and it consumes a byte or leaves for a state of lower rank.
-- The last three are taken in their own states.
pub tags-Advances :
    (to_lower : Text → Text) (c : Context) (s : Text)
    → 0 < length s
    → Advances c (length s) (t_text c s)
      × Advances c (length s) (t_tag to_lower c s)
      × Advances (at state_attr_name c) (length s) (t_attr_name (at state_attr_name c) s)
      × Advances (at state_after_name c) (length s) (t_after_name (at state_after_name c) s)
      × Advances (at state_before_value c) (length s) (t_before_value (at state_before_value c) s)
unfolding t_text t_tag t_attr_name t_after_name t_before_value
tags-Advances to_lower c s h =
    let behind = behind_white_space s in
    let i = eat_white_space s in
    (
      t_text_loop-Advances c (length s) h 0 s (omega arith),
      t_tag_at-Advances c (length s) h to_lower i (drop i s) behind,
      t_attr_name_to-Advances c (length s) h (eat_attr_name s) (eat_attr_name-AtMost s),
      t_after_name_at-Advances c (length s) h i (drop i s) behind,
      t_before_value_at-Advances c (length s) h i (drop i s) behind,
    )
