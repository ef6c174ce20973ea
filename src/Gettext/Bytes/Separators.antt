-- ===== src/Gettext/Bytes/Separators.antt =====
-- Joining and splitting at a separator are inverse, and a cut finds what stands before the separator.
use sadbox.Prelude.{
  ℕ, ◌≡◌, refl, ap, ◌∙◌, false, none, some, List, [], ◌∷◌, ◌++◌, Text, arith, has_rune,
}
use sadbox.Gettext.Bytes.{cut_at, split_at, join_at}

pub cut_at-append :
    (sep : ℕ) (s t : Text) → has_rune s sep ≡ false → cut_at sep (s ++ (sep ∷ t)) ≡ some (s, t)
unfolding cut_at
cut_at-append sep [] t h = ground arith
cut_at-append sep (b ∷ s) t h = ground (arith, cut_at-append sep s t)

pub cut_at-none : (sep : ℕ) (s : Text) → has_rune s sep ≡ false → cut_at sep s ≡ none
unfolding cut_at
cut_at-none sep [] h = refl
cut_at-none sep (b ∷ s) h = ground (arith, cut_at-none sep s)

pub split_plain : (sep : ℕ) (s : Text) → has_rune s sep ≡ false → split_at sep s ≡ s ∷ []
unfolding split_at
split_plain sep [] h = refl
split_plain sep (b ∷ s) h = ground (arith, split_plain sep s)

pub split_at-append :
    (sep : ℕ) (s t : Text)
    → has_rune s sep ≡ false
    → split_at sep (s ++ (sep ∷ t)) ≡ s ∷ split_at sep t
unfolding split_at
split_at-append sep [] t h = ground arith
split_at-append sep (b ∷ s) t h = ground (arith, split_at-append sep s t)

-- No part has the separator.
abbrev pub Free : ℕ → List Text → Type 0
Free sep [] = Unit {0}
Free sep (t ∷ ts) = (has_rune t sep ≡ false) × Free sep ts

pub split_at-join_at :
    (sep : ℕ) (t : Text) (ts : List Text)
    → Free sep (t ∷ ts)
    → split_at sep (join_at sep (t ∷ ts)) ≡ t ∷ ts
unfolding join_at
split_at-join_at sep t [] (h, hs) = split_plain sep t h
split_at-join_at sep t (u ∷ ts) (h, hs) =
    split_at-append sep t _ h ∙ ap (λ (l : List Text). t ∷ l) (split_at-join_at sep u ts hs)
