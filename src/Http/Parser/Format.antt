-- ===== src/Http/Parser/Format.antt =====
-- http/parser/parser.go: what `ParsePairs` is to read, a list of pairs with quoted values.
use sadbox.Prelude.{
  ℕ, Bool, true, false, not, ◌&&◌, ◌||◌, ◌≡◌, [], ◌∷◌, ◌++◌, Text, ◌==◌, if◌then◌else◌,
}
use sadbox.Http.Parser.{is_space, Pairs}

-- The text between the quotes: a quote and a backslash have a backslash in front.
abbrev pub escaped : Text → Text
escaped [] = []
escaped (r ∷ rs) = if r == b'\\' || r == b'"' then b'\\' ∷ r ∷ escaped rs else r ∷ escaped rs

-- The behind of a key: `="`, the value, and `"`.
abbrev pub quoted : Text → Text
quoted v = b'=' ∷ b'"' ∷ (v ++ (b'"' ∷ []))

abbrev pub format_pair : Text × Text → Text
format_pair (k, v) = k ++ quoted (escaped v)

abbrev pub format_pairs : Pairs → Text
format_pairs [] = []
format_pairs (p ∷ []) = format_pair p
format_pairs (p ∷ q ∷ ps) = format_pair p ++ (b',' ∷ b' ' ∷ format_pairs (q ∷ ps))

-- A rune that a key may hold.
abbrev pub is_key_rune : ℕ → Bool
is_key_rune r = not (r == b',') && not (r == b'"') && not (r == b'=')

abbrev pub KeyRunes : Text → Type 0
KeyRunes [] = Unit
KeyRunes (r ∷ rs) = (is_key_rune r ≡ true) × KeyRunes rs

abbrev pub StartsBare : Text → Type 0
StartsBare [] = Unit
StartsBare (r ∷ rs) = is_space r ≡ false

-- A key holds no comma, no quote and no `=`, and begins with no space.
abbrev pub IsKey : Text → Type 0
IsKey k = KeyRunes k × StartsBare k

abbrev pub HasKeys : Pairs → Type 0
HasKeys [] = Unit
HasKeys ((k, v) ∷ ps) = IsKey k × HasKeys ps

-- The map after the assignment of pairs, one after another.
abbrev pub assigned : Pairs → Pairs → Pairs
assigned m [] = m
assigned m (p ∷ ps) = assigned (p ∷ m) ps
