-- ===== src/Template/Escape/Strip/Falls.antt =====
-- template/escape/html.go: a transition takes from a measure that bounds the loop of `stripTags`.
use sadbox.Prelude.{
  ℕ, ◌+◌, ◌-◌, ◌*◌, ◌≤◌, ◌<◌, ◌≡◌, ◌⊎◌, refl, true, false, inl, inr, Option, none, some, [], ◌∷◌,
  Text, arith, ◌==◌, if_elim, if◌then◌else◌,
}
use sadbox.Template.Escape.Advance.Scripts.{Goes}
use sadbox.Template.Escape.Advance.{Lies, rank, at}
use sadbox.Template.Escape.Context.{
  State, state_attr_name, state_after_name, state_before_value, state_rcdata, state_js_line_cmt,
  state_css_line_cmt, Context,
}
use sadbox.Template.Escape.Html.{
  Step, is_none, special_tag_end_to, t_special_tag_end, t_attr_name, t_attr_name_to, t_after_name,
  t_after_name_at, t_before_value, t_before_value_at,
}
use sadbox.Template.Escape.Script.{line_end, t_line_cmt}
use sadbox.Template.Escape.Text.Returns.{rank_le}
use sadbox.Template.Escape.Text.{is_delim_none}
use sadbox.Template.Escape.Transition.{transition_func}

-- A step that consumes something, or that enters no element.
abbrev Kept : Context → Step → Type 0
Kept c r = (0 < r.1) ⊎ (is_none c.element ≡ true → is_none r.0.element ≡ true)

abbrev AllKept : Context → Option Step → Type 0
AllKept c none = Unit
AllKept c (some r) = Kept c r

module _ (c : Context) where
  t_attr_name_to-Kept : (n : ℕ) (o : Option ℕ) → Kept c (t_attr_name_to c n o)
  unfolding t_attr_name_to
  t_attr_name_to-Kept n none = inr λ _. refl
  t_attr_name_to-Kept n (some i) =
      inr λ h. if_elim {A = Context} (λ d. is_none d.element ≡ true) (i == n) (λ _. h) λ _. h

  t_after_name_at-Kept : (n i : ℕ) (xs : Text) → Kept c (t_after_name_at c n i xs)
  unfolding t_after_name_at
  t_after_name_at-Kept n i [] = inr λ h. h
  t_after_name_at-Kept n i (x ∷ xs) = if_elim (Kept c) (x == b'=') (λ _. inr λ h. h) λ _. inr λ h. h

  t_before_value_at-Kept : (n i : ℕ) (xs : Text) → Kept c (t_before_value_at c n i xs)
  unfolding t_before_value_at
  t_before_value_at-Kept n i [] = inr λ h. h
  t_before_value_at-Kept n i (x ∷ xs) =
      if_elim (Kept c) (x == b'\'') (λ _. inr λ h. h)
        λ _. if_elim (Kept c) (x == b'"') (λ _. inr λ h. h) λ _. inr λ h. h

  line_end-Kept : (n : ℕ) (t : State) (o : Option ℕ) → Kept c (line_end c n t o)
  unfolding line_end
  line_end-Kept n t none = inr λ h. h
  line_end-Kept n t (some i) = inr λ h. h

  t_special_tag_end-Kept :
      (to_lower : Text → Text) (s : Text) → Kept c (t_special_tag_end to_lower c s)
  unfolding t_special_tag_end
  t_special_tag_end-Kept to_lower s = inr λ h.
      if_elim {A = Step} (λ r. is_none r.0.element ≡ true) (is_none c.element) (λ _. h)
        λ e. absurd (cc)

pub transition_at-Kept :
    (to_lower : Text → Text) (t : State) (c : Context) (s : Text)
    → 0 < rank t
    → AllKept (at t c) (transition_func to_lower t (at t c) s)
unfolding transition_func t_attr_name t_after_name t_before_value t_line_cmt
transition_at-Kept to_lower state_attr_name c s h = t_attr_name_to-Kept _ _ _
transition_at-Kept to_lower state_after_name c s h = t_after_name_at-Kept _ _ _ _
transition_at-Kept to_lower state_before_value c s h = t_before_value_at-Kept _ _ _ _
transition_at-Kept to_lower state_rcdata c s h = t_special_tag_end-Kept _ to_lower s
transition_at-Kept to_lower state_js_line_cmt c s h = line_end-Kept _ _ _ _
transition_at-Kept to_lower state_css_line_cmt c s h = line_end-Kept _ _ _ _
transition_at-Kept to_lower _ c s h = absurd (omega arith)

-- How many steps in a row can consume nothing from a context on.
abbrev pub bonus : Context → ℕ
bonus c = if is_none c.element then 0 else 1

abbrev pub height : Context → ℕ
height c = (if is_delim_none c.delim then 2 * rank c.state else 1) + bonus c

height_le : (c : Context) → height c ≤ 5
height_le c = let h = rank_le c.state in ground arith

height-low :
    (c d : Context)
    → is_delim_none c.delim ≡ true
    → rank d.state < rank c.state
    → (is_none c.element ≡ true → is_none d.element ≡ true)
    → height d < height c
height-low c d e lower element = ground arith

height-element : (c : Context) → is_none c.element ≡ false → 0 < height c
height-element c e = ground arith

pub height-quoted : (c : Context) → is_delim_none c.delim ≡ false → height c ≡ 1 + bonus c
height-quoted c e = rw e refl

-- A step outside of an attribute's value that takes from six times the length and the height.
abbrev pub Falls : Context → ℕ → Step → Type 0
Falls c n r = (r.1 ≤ n) × (6 * (n - r.1) + height r.0 < 6 * n + height c)

abbrev pub AllFall : Context → ℕ → Option Step → Type 0
AllFall c n none = ⊥
AllFall c n (some r) = Falls c n r

pub Advances-Falls :
    (c : Context) (n : ℕ) (o : Option Step)
    → is_delim_none c.delim ≡ true
    → Goes c n o
    → (0 < rank c.state → AllKept c o)
    → AllFall c n o
Advances-Falls c n none d goes kept = absurd goes
Advances-Falls c n (some r) d goes kept = (
  goes.within,
  elim goes.moves [
    | inl consumed ↦ omega (arith, height_le r.0, goes.within)
    | inr lower ↦ elim (kept (omega arith)) [
      | inl consumed ↦ omega (arith, height_le r.0, goes.within)
      | inr element ↦ (let l = height-low c r.0 d lower element in omega (arith, goes.within))
    ]
  ],
)

pub special_tag_end_to-Falls :
    (c : Context) (m n : ℕ) (o : Option ℕ)
    → 0 < n
    → is_none c.element ≡ false
    → Lies m n o
    → Falls c n (special_tag_end_to c n o)
unfolding special_tag_end_to
special_tag_end_to-Falls c m n none p e h = (omega arith, omega arith)
special_tag_end_to-Falls c m n (some i) p e h =
    (omega arith, (let p = height-element c e in omega arith))
