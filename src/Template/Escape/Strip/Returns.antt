-- ===== src/Template/Escape/Strip/Returns.antt =====
-- template/escape/html.go: `stripTags` returns, and makes no text longer.
use sadbox.Prelude.{
  ℕ, zero, suc, ◌+◌, ◌*◌, ◌≤◌, ◌<◌, ◌≡◌, ◌⊎◌, Bool, true, false, not, ◌&&◌, inl, inr, Option, none,
  some, [], ◌∷◌, ◌++◌, Text, arith, ◌==◌, ltb, Option-cases, if_elim, if◌then◌else◌, length, take,
  drop, length-drop, length-take_le, length-append,
}
use sadbox.Template.Escape.Advance.Scripts.{index-Lies, index_any-Lies}
use sadbox.Template.Escape.Advance.Table.{transition_func-Goes, Lies-longer}
use sadbox.Template.Escape.Advance.{Lies}
use sadbox.Template.Escape.Context.{State, state_tag, Context, zero_context, is_in_tag}
use sadbox.Template.Escape.Html.{Step, is_none, special_tag_end_markers, t_special_tag_end}
use sadbox.Template.Escape.Script.{index_any}
use sadbox.Template.Escape.Join.{state_number}
use sadbox.Template.Escape.Strip.{
  strip_state, before_last, or_text, emitted, Stripped, strip_loop, stripped, strip_tags, is_text,
}
use sadbox.Template.Escape.Text.Returns.{NoLonger, NoneLonger, drop-NoneLonger, Returns}
use sadbox.Template.Escape.Text.{
  Outcome, done, panics, out_of_fuel, delim_ends, is_delim_none, is_space_or_tag_end,
}
use sadbox.Template.Escape.Transition.{transition_func}
use sadbox.Template.Escape.Strip.Falls.{
  height, Falls, AllFall, height-quoted, Advances-Falls, special_tag_end_to-Falls,
  transition_at-Kept,
}

or_text_le :
    (t : Text) (o : Option Text)
    → (o ≡ none) ⊎ (length (or_text [] o) ≤ length t)
    → length (or_text t o) ≤ length t
or_text_le t none h = omega arith
or_text_le t (some u) h = elim h [ inl e ↦ absurd (cc) | inr le ↦ le ]

before_last_le : (t : Text) → length (or_text [] (before_last t)) ≤ length t
unfolding before_last
before_last_le [] = omega arith
before_last_le (x ∷ xs) = elim (Option-cases (before_last xs)) [
  | inl nowhere ↦
      rw (before_last, nowhere)
        (if_elim (λ o. length (or_text [] o) ≤ suc (length xs)) (x == b'<') (λ _. omega arith)
          λ _. omega arith)
  | inr (u, e) ↦
      let h : length u ≤ length xs = rw e at (before_last_le xs) in
      rw (before_last, e) (omega arith)
]

emitted_le : (c d : Context) (t : Text) → length (emitted c d t) ≤ length t
emitted_le c d t =
    if_elim (λ u. length u ≤ length t) (not (is_text c.state)) (λ _. omega arith)
      λ _.
        if_elim (λ u. length u ≤ length t) (state_number d.state == state_number c.state)
          (λ _. omega arith) λ _. or_text_le t (before_last t) (inr (before_last_le t))

module _ (c : Context) (n : ℕ) (P : Stripped → Type 0) where
  step-Returns :
      (o : Option Step) (next : Step → Outcome Stripped)
      → AllFall c n o
      → ((r : Step) → Falls c n r → Returns P (next r))
      → Returns P (elim o [ none ↦ panics | some (d, m) ↦ if ltb n m then panics else next (d, m) ])
  step-Returns none next h g = absurd h
  step-Returns (some r) next h g =
      if_elim (Returns P) (ltb n r.1)
        (λ e. absurd (let bad : n < r.1 = ground arith in omega (arith, h.0))) λ _. g r h

  leave-Returns :
      (o : Option ℕ) (s : Stripped) (next : ℕ → Outcome Stripped)
      → Lies 1 n o
      → P s
      → ((i : ℕ) → i + 1 ≤ n → Returns P (next i))
      → Returns P (elim o [ none ↦ done s | some i ↦ next i ])
  leave-Returns none s next h p g = p
  leave-Returns (some i) s next h p g = g i h

module _ (to_lower : Text → Text) where
  t_special_tag_end-Falls :
      (c : Context) (s : Text)
      → 0 < length s
      → is_none c.element ≡ false
      → NoLonger to_lower s
      → Falls c (length s) (t_special_tag_end to_lower c s)
  unfolding t_special_tag_end
  t_special_tag_end-Falls c s p e n =
      let marker = special_tag_end_markers c.element in
      if_elim (Falls c (length s)) (is_none c.element) (λ b. absurd (cc))
        λ _.
          special_tag_end_to-Falls c (length marker) (length s) _ p e
            (Lies-longer _ _ _ _ n (index-Lies marker (to_lower s)))

  strip_state-AllFall :
      (c : Context) (s : Text)
      → 0 < length s
      → is_delim_none c.delim ≡ true
      → NoLonger to_lower s
      → AllFall c (length s) (transition_func to_lower (strip_state c) c s)
  unfolding transition_func
  strip_state-AllFall c s p d n =
      if_elim {A = State} (λ t. AllFall c (length s) (transition_func to_lower t c s))
        (not (is_none c.element) && not (is_in_tag c.state))
        (λ e. t_special_tag_end-Falls c s p (ground arith) n)
        λ _.
          Advances-Falls c (length s) (transition_func to_lower c.state c s) d
            (transition_func-Goes to_lower c s p n) (transition_at-Kept to_lower c.state c s)

  -- The buffer and what is left are together no longer than `k`.
  abbrev Shorter : ℕ → Stripped → Type 0
  Shorter k r = length r.2 + length r.1 ≤ k

  strip_loop-Returns :
      (f : ℕ) (c : Context) (s b : Text) (all : Bool) (k : ℕ)
      → 6 * length s + height c ≤ f
      → length b + length s ≤ k
      → NoneLonger to_lower s
      → Returns (Shorter k) (strip_loop to_lower f c s b all)
  unfolding strip_loop
  strip_loop-Returns f c [] b all k h g n = omega arith
  strip_loop-Returns zero c (x ∷ xs) b all k h g n = absurd (omega arith)
  strip_loop-Returns (suc f) c (x ∷ xs) b all k h g n =
      let s : Text = x ∷ xs in
      if_elim (Returns (Shorter k)) (is_delim_none c.delim)
        (λ bare.
          step-Returns c (length s) (Shorter k) (transition_func to_lower (strip_state c) c s)
            (λ r.
              strip_loop to_lower f r.0 (drop r.1 s) (b ++ emitted c r.0 (take r.1 s))
                (all && is_text c.state))
            (strip_state-AllFall c s (omega arith) bare (n 0))
            λ r falls.
              strip_loop-Returns f r.0 (drop r.1 s) _ _ k
                (omega (arith, length-drop r.1 s, falls.1))
                (omega (
                  arith,
                  length-drop r.1 s,
                  falls.0,
                  length-append b (emitted c r.0 (take r.1 s)),
                  emitted_le c r.0 (take r.1 s),
                  (length-take_le r.1 s).0,
                ))
                (drop-NoneLonger to_lower s r.1 n))
        λ quoted.
          leave-Returns c (length s) (Shorter k) (index_any (delim_ends c.delim) s) (c, s, b, all)
            (λ i.
              strip_loop to_lower f (record zero_context { state = state_tag; element = c.element })
                (drop (if is_space_or_tag_end c.delim then i else i + 1) s) b all)
            (index_any-Lies (delim_ends c.delim) s) g
            λ i within.
              let m = if is_space_or_tag_end c.delim then i else i + 1 in
              strip_loop-Returns f _ (drop m s) b all k
                (omega (arith, length-drop m s, height-quoted c quoted))
                (omega (arith, length-drop m s)) (drop-NoneLonger to_lower s m n)

  stripped-Returns :
      (html : Text) (o : Outcome Stripped)
      → Returns (Shorter (length html)) o
      → Returns (λ t. length t ≤ length html) (stripped html o)
  stripped-Returns html (done (c, rest, b, true)) h = omega arith
  stripped-Returns html (done (c, rest, b, false)) h =
      if_elim (λ t. length t ≤ length html) (is_text c.state)
        (λ _. omega (arith, length-append b rest)) λ _. omega arith
  stripped-Returns html panics h = h
  stripped-Returns html out_of_fuel h = h

  -- `stripTags` returns: no transition panics, no slice is out of bounds and the loop ends. The text that
  -- it returns is no longer than the HTML. The condition is that `strings.ToLower` makes longer nothing
  -- that is left of this HTML when a front is taken, as is so for ASCII.
  pub strip_tags-Returns :
      (html : Text)
      → NoneLonger to_lower html
      → Returns (λ t. length t ≤ length html) (strip_tags to_lower html)
  unfolding strip_tags
  strip_tags-Returns html n =
      stripped-Returns html (strip_loop to_lower (6 * length html) zero_context html [] true) (
        strip_loop-Returns (6 * length html) zero_context html [] true (length html) (omega arith)
          (omega arith) n)
