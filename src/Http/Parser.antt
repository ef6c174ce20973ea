-- ===== src/Http/Parser.antt =====
-- http/parser/parser.go: comma-separated lists of values. A text is the list of its runes.
pub mod Format
pub mod RoundTrip
pub mod Panics
pub mod Trimmed
mod Tests
use sadbox.Prelude.{
  ℕ, Bool, true, false, ◌&&◌, ◌||◌, Option, none, some, List, [], ◌∷◌, ◌++◌, Text, ◌==◌, leb,
  if◌then◌else◌,
}

-- `unicode.IsSpace`.
unfoldable pub is_space : ℕ → Bool
is_space r =
    (leb 9 r && leb r 13)
    || r == b' '
    || r == 0x85
    || r == 0xa0
    || r == 0x1680
    || (leb 0x2000 r && leb r 0x200a)
    || r == 0x2028
    || r == 0x2029
    || r == 0x202f
    || r == 0x205f
    || r == 0x3000

unfoldable pub trim_left : Text → Text
trim_left [] = []
trim_left (r ∷ rs) = if is_space r then trim_left rs else r ∷ rs

-- A rune in front of a text whose right end is trimmed.
unfoldable pub keep : ℕ → Text → Text
keep r [] = if is_space r then [] else r ∷ []
keep r (x ∷ xs) = r ∷ x ∷ xs

unfoldable pub trim_right : Text → Text
trim_right [] = []
trim_right (r ∷ rs) = keep r (trim_right rs)

-- `strings.TrimSpace`.
unfoldable pub trim_space : Text → Text
trim_space s = trim_right (trim_left s)

-- The variables of `ParseList`.
pub record ListState : Type 0 where
  pub list : List Text
  pub escape : Bool
  pub quote : Bool
  pub b : Text

abbrev pub start : ListState
start = record { list = []; escape = false; quote = false; b = [] }

-- `b.WriteRune(r)`.
abbrev pub write : ℕ → ListState → ListState
write r s = record s { b = s.b ++ (r ∷ []) }

-- The body of the loop.
unfoldable pub step : ListState → ℕ → ListState
step s r =
    if s.escape
    then write r (record s { escape = false })
    else if s.quote
    then if r == b'\\'
      then record s { escape = true }
      else if r == b'"'
      then write r (record s { quote = false })
      else write r s
    else if r == b','
    then record s { list = s.list ++ (trim_space s.b ∷ []); b = [] }
    else if r == b'"'
    then write r (record s { quote = true })
    else write r s

unfoldable pub run : ListState → Text → ListState
run s [] = s
run s (r ∷ rs) = run (step s r) rs

-- What follows the loop: the last part is appended if it is not empty.
unfoldable pub finish : ListState → List Text
finish s = elim s.b [ [] ↦ s.list | r ∷ rs ↦ s.list ++ (trim_space (r ∷ rs) ∷ []) ]

unfoldable pub parse_list : Text → List Text
parse_list value = finish (run start value)

abbrev pub in_front : ℕ → Option (Text × Text) → Option (Text × Text)
in_front r none = none
in_front r (some (k, v)) = some (r ∷ k, v)

-- The texts in front of and behind the first `=`, if there is one.
unfoldable pub cut : Text → Option (Text × Text)
cut [] = none
cut (r ∷ rs) = let rest = in_front r (cut rs) in if r == b'=' then some ([], rs) else rest

-- A text without its last rune, with that rune.
unfoldable pub split_last : ℕ → Text → Text × ℕ
split_last r [] = ([], r)
split_last r (x ∷ xs) = let (ys, last) = split_last x xs in (r ∷ ys, last)

-- `if v[0] == '"' && v[len(v)-1] == '"' { v = v[1:len(v)-1] }`. It panics, which is `none`, on an empty
-- text and on one that is a single quote.
unfoldable pub unquote : Text → Option Text
unquote [] = none
unquote (r ∷ []) = if r == b'"' then none else some (r ∷ [])
unquote (r ∷ x ∷ xs) =
    let (inner, last) = split_last x xs in
    if r == b'"' && last == b'"' then some inner else some (r ∷ x ∷ xs)

-- The key and the value of a part; `none` is a panic.
unfoldable pub parse_pair : Text → Option (Text × Text)
parse_pair pair = elim (cut pair) [
  | none ↦ some (pair, [])
  | some (k, v) ↦ elim (unquote v) [ none ↦ none | some u ↦ some (k, u) ]
]

-- A map is the list of its assignments, the last one first, of which a lookup reads the first.
abbrev pub Pairs : Type 0
Pairs = List (Text × Text)

-- The loop of `ParsePairs`.
unfoldable pub assign : Pairs → List Text → Option Pairs
assign m [] = some m
assign m (pair ∷ pairs) = elim (parse_pair pair) [ none ↦ none | some p ↦ assign (p ∷ m) pairs ]

unfoldable pub parse_pairs : Text → Option Pairs
parse_pairs value = assign [] (parse_list value)
