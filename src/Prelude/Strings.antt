-- ===== src/Prelude/Strings.antt =====
-- Text as the list of its code points, with the tests that the packages make on it.
use Prim.Native.Char.{code}
use Prim.Native.Nat.{ℕ}
use Prim.Native.String.{String}
use mathlib.Core.Bool.{Bool, true, false, ◌&&◌, ◌||◌}
use mathlib.Core.List.{List, [], ◌∷◌}
use mathlib.Core.Path.{◌≡◌}
use mathlib.Core.Logic.{◌↔◌}
use native.Mathlib.Omega.{arith}
use mathlib.Core.Option.{Option, none, some}
use sadbox.Prelude.Tests.{◌==◌, if◌then◌else◌}

abbrev pub Text : Type 0
Text = List ℕ

-- `String` has its own `[]` and `∷`.
abbrev pub codes : String → Text
codes String.[] = []
codes (String.◌∷◌ c s) = code c ∷ codes s

-- Equality of two texts.
abbrev pub text_eq : Text → Text → Bool
text_eq [] [] = true
text_eq (x ∷ xs) (y ∷ ys) = x == y && text_eq xs ys
text_eq _ _ = false

-- Whether a text has a rune: `strings.IndexRune(s, r) >= 0`.
abbrev pub has_rune : Text → ℕ → Bool
has_rune [] r = false
has_rune (x ∷ xs) r = x == r || has_rune xs r

-- The value under a key of a map literal.
abbrev pub text_lookup {ℓ} : {V : Type ℓ} → List (Text × V) → Text → Option V
text_lookup [] k = none
text_lookup ((j, v) ∷ m) k = if text_eq j k then some v else text_lookup m k

pub text_eq_lem : (a b : Text) → (text_eq a b ≡ true) ↔ (a ≡ b)
text_eq_lem [] [] = ground arith
text_eq_lem [] (y ∷ b) = ground arith
text_eq_lem (x ∷ a) [] = ground arith
text_eq_lem (x ∷ a) (y ∷ b) = ground (arith, text_eq_lem a b)
