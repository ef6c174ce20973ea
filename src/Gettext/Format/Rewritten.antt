-- ===== src/Gettext/Format/Rewritten.antt =====
-- gettext/fmt.go: what `parseFmt` makes of a format that is written from its parts.
use sadbox.Prelude.{
  ℕ, zero, suc, ◌<◌, ◌≡◌, refl, ◌∙◌, true, false, Option, none, List, [], ◌∷◌, ◌++◌, append_assoc,
  append-nil, Text, codes, arith, ◌==◌, length, length-append, has_rune,
}
use sadbox.Prelude.Int.{ℤ}
use sadbox.Gettext.Format.{
  before_percent, from_percent, is_digit, digits_front, after_digits, parse_int, append_index,
  Rounds, numbered, directive, percent_or_end, parse_loop, parse_fmt,
}

-- Text without a percent sign, `%%`, a percent sign with a width, and one with a position.
pub data Part : Type 0 where
  literal : Text → Part
  escaped : Part
  verb : Text → Part
  position : ℕ → Text → Part

abbrev pub source : List Part → Text
source [] = []
source (literal t ∷ ps) = t ++ source ps
source (escaped ∷ ps) = b'%' ∷ b'%' ∷ source ps
source (verb d ∷ ps) = b'%' ∷ d ++ source ps
source (position d ds ∷ ps) = b'%' ∷ d ∷ ds ++ b'$' ∷ source ps

-- The standard format, and the indices.
abbrev pub standard : List Part → Text
standard [] = []
standard (literal t ∷ ps) = t ++ standard ps
standard (escaped ∷ ps) = b'%' ∷ b'%' ∷ standard ps
standard (verb d ∷ ps) = b'%' ∷ d ++ standard ps
standard (position d ds ∷ ps) = b'%' ∷ standard ps

abbrev pub positions : Option (List ℤ) → List Part → Option (List ℤ)
positions idx [] = idx
positions idx (literal t ∷ ps) = positions idx ps
positions idx (escaped ∷ ps) = positions idx ps
positions idx (verb d ∷ ps) = positions idx ps
positions idx (position d ds ∷ ps) = positions (append_index idx (parse_int (d ∷ ds))) ps

abbrev pub Digits : Text → Type 0
Digits [] = Unit {0}
Digits (d ∷ s) = (is_digit d ≡ true) × Digits s

abbrev pub NoDigit : Text → Type 0
NoDigit [] = Unit {0}
NoDigit (c ∷ s) = is_digit c ≡ false

-- What may not stand behind a percent sign with a width: another sign, or the end of a position.
abbrev pub NoSign : Text → Text → Type 0
NoSign d [] = Unit {0}
NoSign [] (c ∷ s) = (c == b'%') ≡ false
NoSign (d ∷ ds) (c ∷ s) = (c == b'$') ≡ false

abbrev pub Separate : List Part → Type 0
Separate [] = Unit {0}
Separate (literal t ∷ ps) = (has_rune t b'%' ≡ false) × Separate ps
Separate (escaped ∷ ps) = Separate ps
Separate (verb d ∷ ps) = Digits d × NoDigit (source ps) × NoSign d (source ps) × Separate ps
Separate (position d ds ∷ ps) = Digits (d ∷ ds) × Separate ps

before-literal :
    (t s : Text) → has_rune t b'%' ≡ false → before_percent (t ++ s) ≡ t ++ before_percent s
unfolding before_percent
before-literal [] s h = refl
before-literal (c ∷ t) s h = ground (arith, before-literal t s)

from-literal : (t s : Text) → has_rune t b'%' ≡ false → from_percent (t ++ s) ≡ from_percent s
unfolding from_percent
from-literal [] s h = refl
from-literal (c ∷ t) s h = ground (arith, from-literal t s)

digits_lem :
    (d s : Text) → Digits d → NoDigit s → (digits_front (d ++ s) ≡ d) × (after_digits (d ++ s) ≡ s)
unfolding digits_front after_digits
digits_lem [] [] h e = (refl, refl)
digits_lem [] (c ∷ s) h e = (rw e refl, rw e refl)
digits_lem (d ∷ ds) s (h, hs) e = ground (arith, digits_lem ds s hs e)

digit_ne : (d : ℕ) → is_digit d ≡ true → (d == b'%') ≡ false
unfolding is_digit
digit_ne d h = ground arith

module _ (again : Rounds) (buf : Text) (idx : Option (List ℤ)) where
  directive_plain :
      (s : Text)
      → NoDigit s
      → NoSign [] s
      → directive again s buf idx ≡ again s (buf ++ codes "%") idx
  unfolding directive numbered
  directive_plain [] h e = refl
  directive_plain (c ∷ s) h e =
      rw (directive, e, (digits_lem [] (c ∷ s) tt h).0, (digits_lem [] (c ∷ s) tt h).1) refl

  directive-Digits :
      (d : ℕ) (ds s : Text)
      → Digits (d ∷ ds)
      → NoDigit s
      → directive again (d ∷ ds ++ s) buf idx ≡ numbered again (d ∷ ds) s (buf ++ codes "%") idx
  unfolding directive
  directive-Digits d ds s (h, hs) e =
      rw
        (
          directive,
          digit_ne d h,
          (digits_lem (d ∷ ds) s (h, hs) e).0,
          (digits_lem (d ∷ ds) s (h, hs) e).1,
        )
        refl

  directive_verb :
      (d s : Text)
      → Digits d
      → NoDigit s
      → NoSign d s
      → directive again (d ++ s) buf idx ≡ again s (buf ++ b'%' ∷ d) idx
  unfolding numbered
  directive_verb [] s h n e = directive_plain s n e
  directive_verb (d ∷ ds) [] h n e = directive-Digits d ds [] h n ∙ rw append_assoc refl
  directive_verb (d ∷ ds) (c ∷ s) h n e =
      directive-Digits d ds (c ∷ s) h n ∙ rw (numbered, e, append_assoc) refl

  directive_position :
      (d : ℕ) (ds s : Text)
      → Digits (d ∷ ds)
      → directive again (d ∷ ds ++ b'$' ∷ s) buf idx
        ≡ again s (buf ++ codes "%") (append_index idx (parse_int (d ∷ ds)))
  unfolding numbered
  directive_position d ds s h = directive-Digits d ds (b'$' ∷ s) h (unfold is_digit in refl)

-- A round on what starts with a percent sign.
round_percent :
    (k : ℕ) (s buf : Text) (idx : Option (List ℤ))
    → parse_loop (suc k) (b'%' ∷ s) buf idx ≡ directive (parse_loop k) s buf idx
unfolding parse_loop percent_or_end from_percent before_percent
round_percent k s buf idx = rw append-nil refl

round_escaped :
    (k : ℕ) (s buf : Text) (idx : Option (List ℤ))
    → parse_loop (suc k) (b'%' ∷ b'%' ∷ s) buf idx ≡ parse_loop k s (buf ++ codes "%%") idx
round_escaped k s buf idx = round_percent k (b'%' ∷ s) buf idx ∙ unfold directive in refl

round_literal :
    (k : ℕ) (t s buf : Text) (idx : Option (List ℤ))
    → has_rune t b'%' ≡ false
    → parse_loop (suc k) (t ++ s) buf idx ≡ parse_loop (suc k) s (buf ++ t) idx
unfolding parse_loop
round_literal k t s buf idx h =
    rw (parse_loop, from-literal t s h, before-literal t s h, append_assoc) refl

parse_loop-source :
    (ps : List Part) (k : ℕ) (buf : Text) (idx : Option (List ℤ))
    → Separate ps
    → length (source ps) < k
    → parse_loop k (source ps) buf idx ≡ (buf ++ standard ps, positions idx ps)
parse_loop-source ps zero buf idx h f = absurd (omega arith)
parse_loop-source [] (suc k) buf idx h f =
    unfold parse_loop percent_or_end from_percent before_percent in refl
parse_loop-source (literal t ∷ ps) (suc k) buf idx (h, hs) f =
    round_literal k t (source ps) buf idx h
    ∙ parse_loop-source ps (suc k) (buf ++ t) idx hs (omega (arith, length-append t (source ps)))
    ∙ rw append_assoc refl
parse_loop-source (escaped ∷ ps) (suc k) buf idx hs f =
    round_escaped k (source ps) buf idx
    ∙ parse_loop-source ps k (buf ++ codes "%%") idx hs (omega arith)
    ∙ rw append_assoc refl
parse_loop-source (verb d ∷ ps) (suc k) buf idx (h, n, e, hs) f =
    round_percent k _ buf idx
    ∙ directive_verb (parse_loop k) buf idx d (source ps) h n e
    ∙ parse_loop-source ps k (buf ++ b'%' ∷ d) idx hs (omega (arith, length-append d (source ps)))
    ∙ rw append_assoc refl
parse_loop-source (position d ds ∷ ps) (suc k) buf idx (h, hs) f =
    round_percent k _ buf idx
    ∙ directive_position (parse_loop k) buf idx d ds (source ps) h
    ∙ parse_loop-source ps k (buf ++ codes "%") _ hs
        (omega (arith, length-append ds (b'$' ∷ source ps)))
    ∙ rw append_assoc refl

-- `parseFmt` takes each position `N$` out of a format, and nothing else: literal text, `%%` and widths
-- stay, and the numbers are returned in their order, or nil if there are none. The parts are separate:
-- no literal has a percent sign, and a width is not followed by a digit, nor by a dollar sign, nor, if it
-- is empty, by a percent sign.
pub parse_fmt-source :
    (ps : List Part) → Separate ps → parse_fmt (source ps) ≡ (standard ps, positions none ps)
unfolding parse_fmt
parse_fmt-source ps h = parse_loop-source ps _ [] none h (omega arith)
