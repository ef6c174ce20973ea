-- ===== src/Template/Escape/Text/Returns.antt =====
-- template/escape/escape.go: `contextAfterText` returns, within its text.
use sadbox.Prelude.{
  ℕ, zero, suc, ◌+◌, ◌*◌, ◌≤◌, ◌<◌, ◌≡◌, refl, Bool, true, false, inl, inr, Option, none, some, [],
  ◌∷◌, Text, codes, arith, ◌==◌, ltb, Bool-cases, Option-cases, if◌then◌else◌, length, take, drop,
  length-drop, drop-add, subst,
}
use sadbox.Template.Escape.Advance.Scripts.{Goes, index-Lies, index_any-Lies}
use sadbox.Template.Escape.Advance.Table.{Lies-longer, transition_func-Goes}
use sadbox.Template.Escape.Advance.{Advances, Lies, rank}
use sadbox.Template.Escape.Context.{
  State, state_attr_name, state_after_name, state_before_value, state_rcdata, state_js_line_cmt,
  state_css_line_cmt, Context,
}
use sadbox.Template.Escape.Html.{
  Step, is_none, special_tag_end_to, special_tag_end_markers, t_special_tag_end, has_any,
}
use sadbox.Template.Escape.Text.{
  Outcome, done, panics, out_of_fuel, delim_ends, attr_loop, is_delim_none, is_space_or_tag_end,
  or_else, to_outcome, outside_attr, with_length, inside_attr, context_after_text,
}
use sadbox.Template.Escape.Transition.{transition_func}

-- `strings.ToLower` does not make the text longer. That is so for ASCII; elsewhere it may be otherwise.
abbrev pub NoLonger : (Text → Text) → Text → Type 0
NoLonger to_lower s = length (to_lower s) ≤ length s

-- Nor any text that is left when the front of this one is taken.
abbrev pub NoneLonger : (Text → Text) → Text → Type 0
NoneLonger to_lower s = (k : ℕ) → NoLonger to_lower (drop k s)

pub drop-NoneLonger :
    (to_lower : Text → Text) (s : Text) (m : ℕ)
    → NoneLonger to_lower s
    → NoneLonger to_lower (drop m s)
drop-NoneLonger to_lower s m n k = subst (NoLonger to_lower) (drop-add m k s) (n (m + k))

-- A result that is no panic and no end of the fuel, and what holds of it.
abbrev pub Returns : {A : Type 0} → (A → Type 0) → Outcome A → Type 0
Returns P (done a) = P a
Returns P panics = ⊥
Returns P out_of_fuel = ⊥

pub rank_le : (t : State) → rank t ≤ 2
rank_le state_attr_name = omega arith
rank_le state_after_name = omega arith
rank_le state_before_value = omega arith
rank_le state_rcdata = omega arith
rank_le state_js_line_cmt = omega arith
rank_le state_css_line_cmt = omega arith
rank_le _ = omega arith

-- A step that advances takes from three times the length and the rank.
shrinks :
    (c : Context) (x : ℕ) (xs : Text) (r : Step) (f : ℕ)
    → Advances c (length (x ∷ xs)) r
    → 3 * length (x ∷ xs) + rank c.state ≤ suc f
    → 3 * length (drop r.1 (x ∷ xs)) + rank r.0.state ≤ f
shrinks c x xs r f a h = elim a.moves [
  | inl consumed ↦ omega (arith, length-drop r.1 (x ∷ xs), rank_le r.0.state, a.within)
  | inr lower ↦ omega (arith, length-drop r.1 (x ∷ xs))
]

attr_loop-Returns :
    (to_lower : Text → Text) (f : ℕ) (c : Context) (u : Text)
    → NoneLonger to_lower u
    → 3 * length u + rank c.state ≤ f
    → Returns (λ _. Unit {0}) (attr_loop to_lower f c u)
unfolding attr_loop
attr_loop-Returns to_lower f c [] n h = tt
attr_loop-Returns to_lower zero c (x ∷ xs) n h = absurd (omega arith)
attr_loop-Returns to_lower (suc f) c (x ∷ xs) n h =
    let goes = transition_func-Goes to_lower c (x ∷ xs) (omega arith) (n 0) in
    elim (Option-cases (transition_func to_lower c.state c (x ∷ xs))) [
      | inl bad ↦ absurd (rw bad at goes)
      | inr (r, good) ↦
          let a : Advances c (length (x ∷ xs)) r = rw good at goes in
          let fits : ltb (length (x ∷ xs)) r.1 ≡ false = ground (arith, a.within) in
          rw (attr_loop, good, fits)
            (attr_loop-Returns to_lower f r.0 (drop r.1 (x ∷ xs))
              (drop-NoneLonger to_lower (x ∷ xs) r.1 n) (shrinks c x xs r f a h))
    ]

length-take : (k : ℕ) (s : Text) → k ≤ length s → length (take k s) ≡ k
length-take zero s h = refl
length-take (suc k) [] h = absurd (omega arith)
length-take (suc k) (x ∷ s) h = omega (arith, length-take k s (omega arith))

-- The step stays within a text of length `n`.
abbrev pub Within : ℕ → Step → Type 0
Within n r = r.1 ≤ n

if-Returns :
    (b : Bool) (n : ℕ) (o p : Outcome Step)
    → (b ≡ true → Returns (Within n) o)
    → (b ≡ false → Returns (Within n) p)
    → Returns (Within n) (if b then o else p)
if-Returns true n o p h g = h refl
if-Returns false n o p h g = g refl

special_tag_end_to_le :
    (c : Context) (m n : ℕ) (o : Option ℕ) → Lies m n o → (special_tag_end_to c n o).1 ≤ n
unfolding special_tag_end_to
special_tag_end_to_le c m n none h = omega arith
special_tag_end_to_le c m n (some i) h = omega arith

t_special_tag_end_le :
    (to_lower : Text → Text) (c : Context) (s : Text)
    → NoLonger to_lower s
    → (t_special_tag_end to_lower c s).1 ≤ length s
unfolding t_special_tag_end
t_special_tag_end_le to_lower c s n =
    let marker = special_tag_end_markers c.element in
    elim (Bool-cases (is_none c.element)) [
      | inl no_element ↦ rw (t_special_tag_end, no_element) (omega arith)
      | inr element ↦
          rw (t_special_tag_end, element)
            (special_tag_end_to_le c (length marker) (length s) _
              (Lies-longer _ _ _ _ n (index-Lies marker (to_lower s))))
    ]

Goes-Returns :
    (c : Context) (n k : ℕ) (o : Option Step)
    → n ≤ k
    → Goes c n o
    → Returns (Within k) (to_outcome o)
Goes-Returns c n k none h g = absurd g
Goes-Returns c n k (some r) h g = omega (arith, g.within)

with_length-Returns :
    (n : ℕ) (o : Outcome Context) → Returns (λ _. Unit {0}) o → Returns (Within n) (with_length n o)
with_length-Returns n (done c) h = omega arith
with_length-Returns n panics h = absurd h
with_length-Returns n out_of_fuel h = absurd h

or_else_le : (n : ℕ) (o : Option ℕ) → Lies 1 n o → or_else n o ≤ n
or_else_le n none h = omega arith
or_else_le n (some i) h = omega arith

if_le : (b : Bool) (i n : ℕ) → i + 1 ≤ n → (if b then i else i + 1) ≤ n
if_le true i n h = omega arith
if_le false i n h = h

module _ (to_lower unescape : Text → Text) (c : Context) (s : Text) where
  outside_attr-Returns :
      (r : Step)
      → r.1 ≤ length s
      → NoLonger to_lower (take r.1 s)
      → Returns (Within (length s)) (outside_attr to_lower c s r)
  unfolding outside_attr
  outside_attr-Returns (c1, i) h n =
      if-Returns (i == 0) (length s) _ _ (λ _. omega arith)
        λ positive.
          if-Returns (ltb (length s) i) (length s) _ _
            (λ e. absurd (let bad : length s < i = ground arith in omega arith))
            λ _.
              let some_text : 0 < length (take i s) =
                (let p : 0 < i = ground arith in omega (arith, length-take i s h)) in
              Goes-Returns c (length (take i s)) (length s) _ (omega (arith, length-take i s h))
                (transition_func-Goes to_lower c (take i s) some_text n)

  inside_attr-Returns :
      (i : ℕ)
      → i ≤ length s
      → NoneLonger to_lower (unescape s)
      → Returns (Within (length s)) (inside_attr to_lower unescape c s i)
  unfolding inside_attr
  inside_attr-Returns i h n =
      let u = unescape s in
      if-Returns
        (if is_space_or_tag_end c.delim then has_any (codes "\"'<=`") (take i s) else false)
        (length s) _ _ (λ _. omega arith)
        λ _.
          if-Returns (i == length s) (length s) _ _
            (λ _. with_length-Returns (length s) _ (
              attr_loop-Returns to_lower (3 * length u + 2) c u n (omega (arith, rank_le c.state))))
            λ e.
              let inner : i + 1 ≤ length s = ground arith in
              if_le (is_space_or_tag_end c.delim) i (length s) inner

  -- For a context and a text, `contextAfterText` returns: no transition panics, no slice is out of
  -- bounds, the loop over the text of an attribute ends, and what is consumed lies in the text. The
  -- conditions are on `strings.ToLower` at the texts that it may be given. Outside of an attribute's value
  -- it is to make neither the text longer nor the part in front of the element's end tag; in a value it is
  -- to make longer nothing that is left of what `html.UnescapeString` returns for the text.
  pub context_after_text-Returns :
      (is_delim_none c.delim ≡ true
        → NoLonger to_lower s × NoLonger to_lower (take (t_special_tag_end to_lower c s).1 s))
      → (is_delim_none c.delim ≡ false → NoneLonger to_lower (unescape s))
      → Returns (Within (length s)) (context_after_text to_lower unescape c s)
  unfolding context_after_text
  context_after_text-Returns outside inside =
      if-Returns (is_delim_none c.delim) (length s) _ _
        (λ e.
          let n = outside e in outside_attr-Returns _ (t_special_tag_end_le to_lower c s n.0) n.1)
        λ e.
          inside_attr-Returns _ (or_else_le (length s) _ (index_any-Lies (delim_ends c.delim) s))
            (inside e)
