-- ===== src/Gettext/Bytes.antt =====
-- What gettext/mo.go uses of `strings`, `unicode/utf8` and `encoding/binary`, on strings of bytes.
pub mod Words
pub mod Separators
use sadbox.Prelude.{
  ℕ, zero, suc, ◌+◌, ◌-◌, ◌*◌, ◌/◌, ◌%◌, Bool, true, false, not, ◌&&◌, ◌||◌, Option, none, some,
  List, [], ◌∷◌, ◌++◌, map, Text, ◌==◌, leb, ltb, if◌then◌else◌, length, drop,
}

-- `strings.Index` of a byte, with the slices in front of and behind it.
abbrev pub onto_before : ℕ → Option (Text × Text) → Option (Text × Text)
onto_before b none = none
onto_before b (some (before, after)) = some (b ∷ before, after)

unfoldable pub cut_at : ℕ → Text → Option (Text × Text)
cut_at sep [] = none
cut_at sep (b ∷ s) =
    let rest = onto_before b (cut_at sep s) in if b == sep then some ([], s) else rest

-- A byte in front of the first part.
abbrev pub onto_first : ℕ → List Text → List Text
onto_first b [] = (b ∷ []) ∷ []
onto_first b (t ∷ ts) = (b ∷ t) ∷ ts

-- `strings.Split` at a byte.
unfoldable pub split_at : ℕ → Text → List Text
split_at sep [] = [] ∷ []
split_at sep (b ∷ s) =
    let rest = split_at sep s in if b == sep then [] ∷ rest else onto_first b rest

-- `strings.Join` with a byte between the parts.
unfoldable pub join_at : ℕ → List Text → Text
join_at sep [] = []
join_at sep (t ∷ []) = t
join_at sep (t ∷ u ∷ ts) = t ++ sep ∷ join_at sep (u ∷ ts)

-- White space of three bytes, and of two or three.
abbrev pub third_space : ℕ → ℕ → Text → ℕ
third_space a b [] = 0
third_space a b (c ∷ s) =
    if (a == 0xe1 && b == 0x9a && c == 0x80)
      || (a == 0xe2
          && b == 0x80
          && ((leb 0x80 c && leb c 0x8a) || c == 0xa8 || c == 0xa9 || c == 0xaf))
      || (a == 0xe2 && b == 0x81 && c == 0x9f)
      || (a == 0xe3 && b == 0x80 && c == 0x80)
    then 3
    else 0

abbrev pub wide_space : ℕ → Text → ℕ
wide_space a [] = 0
wide_space a (b ∷ s) = if a == 0xc2 && (b == 0x85 || b == 0xa0) then 2 else third_space a b s

-- The bytes of the white space at the front of a string, none if another rune stands there:
-- `utf8.DecodeRune` and `unicode.IsSpace`.
unfoldable pub space_width : Text → ℕ
space_width [] = 0
space_width (a ∷ s) = if (leb 9 a && leb a 13) || a == 32 then 1 else wide_space a s

-- The loops of `strings.TrimSpace`; each round takes a byte at least, so the length is fuel enough.
unfoldable pub trim_front : ℕ → Text → Text
trim_front zero s = s
trim_front (suc k) s =
    let n = space_width s in let rest = trim_front k (drop n s) in if n == 0 then s else rest

unfoldable pub is_empty : Text → Bool
is_empty [] = true
is_empty (_ ∷ _) = false

unfoldable pub trim_back : Text → Text
trim_back [] = []
trim_back (b ∷ s) =
    let rest = trim_back s in
    if is_empty (trim_front (suc (length s)) (b ∷ s)) then [] else b ∷ rest

unfoldable pub trim : Text → Text
trim s = trim_back (trim_front (length s) s)

-- `strings.ToLower`. On a string with bytes beyond ASCII it maps `unicode.ToLower` over the runes, by
-- Unicode's tables: the parameter `lower`.
unfoldable pub is_ascii : Text → Bool
is_ascii [] = true
is_ascii (b ∷ s) = ltb b 0x80 && is_ascii s

abbrev pub lower_ascii : ℕ → ℕ
lower_ascii b = if leb b'A' b && leb b b'Z' then b + 32 else b

unfoldable pub to_lower : (Text → Text) → Text → Text
to_lower lower s = if is_ascii s then map lower_ascii s else lower s

-- `utf8.DecodeRuneInString` over a whole string: the rune in front with its width.
abbrev continues : ℕ → Bool
continues b = leb 0x80 b && leb b 0xbf

abbrev rune_error : ℕ × ℕ
rune_error = (0xfffd, 1)

abbrev pub decode_rune : Text → ℕ × ℕ
decode_rune [] = (0xfffd, 0)
decode_rune (a ∷ s) = if ltb a 0x80 then (a, 1) else two a s
  where
    four : ℕ → ℕ → ℕ → Text → ℕ × ℕ
    four a b c [] = rune_error
    four a b c (d ∷ s) =
        if continues d
          && leb 0xf0 a
          && leb a 0xf4
          && (ltb 0xf0 a || leb 0x90 b)
          && (ltb a 0xf4 || leb b 0x8f)
        then ((((a - 0xf0) * 64 + (b - 0x80)) * 64 + (c - 0x80)) * 64 + (d - 0x80), 4)
        else rune_error

    three : ℕ → ℕ → Text → ℕ × ℕ
    three a b [] = rune_error
    three a b (c ∷ s) =
        if continues c
          && leb 0xe0 a
          && leb a 0xef
          && (ltb 0xe0 a || leb 0xa0 b)
          && (not (a == 0xed) || leb b 0x9f)
        then (((a - 0xe0) * 64 + (b - 0x80)) * 64 + (c - 0x80), 3)
        else if continues c
        then four a b c s
        else rune_error

    two : ℕ → Text → ℕ × ℕ
    two a [] = rune_error
    two a (b ∷ s) =
        if continues b && leb 0xc2 a && leb a 0xdf
        then ((a - 0xc0) * 64 + (b - 0x80), 2)
        else if continues b
        then three a b s
        else rune_error

unfoldable pub decode_runes : ℕ → Text → Text
decode_runes zero s = []
decode_runes (suc k) [] = []
decode_runes (suc k) (b ∷ s) =
    let (r, n) = decode_rune (b ∷ s) in r ∷ decode_runes k (drop n (b ∷ s))

unfoldable pub runes : Text → Text
runes s = decode_runes (length s) s
