-- ===== src/PluralForms/Plural.antt =====
-- gettext/pluralforms/pluralforms.go: plural functions, the precomputed ones and those of a parsed
-- expression.
pub mod Table
pub mod Panics
use sadbox.Prelude.{
  ℕ, Bool, true, false, not, ◌&&◌, ◌||◌, Option, none, some, List, [], ◌∷◌, Text, codes, ◌==◌,
  if◌then◌else◌, text_lookup,
}
use sadbox.Prelude.Int.{ℤ, pos, negsuc, lt_int, le_int, eq_int, rem_int}
use sadbox.PluralForms.Node.{Node, Value, int_node, bool_node, eval}
use sadbox.PluralForms.Operators.{Result, ok, bind}
use sadbox.PluralForms.Parser.{parse}

-- `none` is a run-time panic.
abbrev pub PluralFunc : Type 0
PluralFunc = ℤ → Option ℤ

-- The switch on the type of the evaluated tree; -1 for what is neither an integer nor a Boolean.
unfoldable pub plural_index : Value → Option ℤ
plural_index none = none
plural_index (some (int_node v)) = some v
plural_index (some (bool_node v)) = if v then some (pos 1) else some (pos 0)
plural_index (some _) = some (negsuc 0)

unfoldable pub create_plural_func : Text → Result PluralFunc
create_plural_func expr = bind (parse expr) λ tree. ok (λ n. plural_index (eval tree n))

-- `n % k == r` and the like, as the functions below test their argument.
abbrev rem : ℤ → ℕ → ℤ
rem n k = rem_int n (pos k)

abbrev is : ℤ → ℕ → Bool
is n k = eq_int n (pos k)

abbrev at_least : ℤ → ℕ → Bool
at_least n k = le_int (pos k) n

abbrev at_most : ℤ → ℕ → Bool
at_most n k = le_int n (pos k)

abbrev below : ℤ → ℕ → Bool
below n k = lt_int n (pos k)

abbrev above : ℤ → ℕ → Bool
above n k = lt_int (pos k) n

abbrev index : ℕ → Option ℤ
index k = some (pos k)

unfoldable pub plural_func1 : PluralFunc
plural_func1 n = index 0

unfoldable pub plural_func2 : PluralFunc
plural_func2 n = if is n 1 then index 0 else index 1

abbrev pub default_plural_func : PluralFunc
default_plural_func = plural_func2

unfoldable pub plural_func3 : PluralFunc
plural_func3 n = if above n 1 then index 1 else index 0

unfoldable pub plural_func4 : PluralFunc
plural_func4 n =
    if is (rem n 10) 1 && not (is (rem n 100) 11)
    then index 0
    else if not (is n 0)
    then index 1
    else index 2

unfoldable pub plural_func5 : PluralFunc
plural_func5 n = if is n 1 then index 0 else if is n 2 then index 1 else index 2

unfoldable pub plural_func6 : PluralFunc
plural_func6 n =
    if is n 1
    then index 0
    else if is n 0 || (above (rem n 100) 0 && below (rem n 100) 20)
    then index 1
    else index 2

unfoldable pub plural_func7 : PluralFunc
plural_func7 n =
    if is (rem n 10) 1 && not (is (rem n 100) 11)
    then index 0
    else if at_least (rem n 10) 2 && (below (rem n 100) 10 || at_least (rem n 100) 20)
    then index 1
    else index 2

-- The test that three of the functions share: 2, 3 or 4 at the end, but not 12, 13 or 14.
abbrev few : ℤ → Bool
few n =
    at_least (rem n 10) 2
    && at_most (rem n 10) 4
    && (below (rem n 100) 10 || at_least (rem n 100) 20)

unfoldable pub plural_func8 : PluralFunc
plural_func8 n =
    if is (rem n 10) 1 && not (is (rem n 100) 11)
    then index 0
    else if few n
    then index 1
    else index 2

unfoldable pub plural_func9 : PluralFunc
plural_func9 n =
    if is n 1 then index 0 else if at_least n 2 && at_most n 4 then index 1 else index 2

unfoldable pub plural_func10 : PluralFunc
plural_func10 n = if is n 1 then index 0 else if few n then index 1 else index 2

unfoldable pub plural_func11 : PluralFunc
plural_func11 n =
    if is (rem n 100) 1
    then index 0
    else if is (rem n 100) 2
    then index 1
    else if is (rem n 100) 3 || is (rem n 100) 4
    then index 2
    else index 3

abbrev pub plural_funcs : List (Text × PluralFunc)
plural_funcs =
    (codes "0", plural_func1)
    ∷ (codes "n!=1", plural_func2)
    ∷ (codes "n>1", plural_func3)
    ∷ (codes "n%10==1&&n%100!=11?0:n!=0?1:2", plural_func4)
    ∷ (codes "n==1?0:n==2?1:2", plural_func5)
    ∷ (codes "n==1?0:(n==0||(n%100>0&&n%100<20))?1:2", plural_func6)
    ∷ (codes "n%10==1&&n%100!=11?0:n%10>=2&&(n%100<10||n%100>=20)?1:2", plural_func7)
    ∷ (codes "n%10==1&&n%100!=11?0:n%10>=2&&n%10<=4&&(n%100<10||n%100>=20)?1:2", plural_func8)
    ∷ (codes "(n==1)?0:(n>=2&&n<=4)?1:2", plural_func9)
    ∷ (codes "n==1?0:n%10>=2&&n%10<=4&&(n%100<10||n%100>=20)?1:2", plural_func10)
    ∷ (codes "n%100==1?0:n%100==2?1:n%100==3||n%100==4?2:3", plural_func11)
    ∷ []

-- `strings.Replace(expr, " ", "", -1)`.
unfoldable pub remove_spaces : Text → Text
remove_spaces [] = []
remove_spaces (c ∷ cs) = if c == b' ' then remove_spaces cs else c ∷ remove_spaces cs

-- `Parse`.
unfoldable pub parse_plural : Text → Result PluralFunc
unfolding remove_spaces
parse_plural expr = elim (text_lookup plural_funcs (remove_spaces expr)) [
  | some f ↦ ok f
  | none ↦ create_plural_func (remove_spaces expr)
]
