-- ===== src/Template/Escape/Replace.antt =====
-- template/escape/html.go, js.go and css.go: the loop that `htmlReplacer`, `replace` and `cssEscaper` share.
-- It goes over the runes of a text of bytes and keeps `written`, up to where the text is written or
-- replaced. The model keeps what lies between `written` and the rune, or how far `written` lies behind it.
pub mod Safe
pub mod Decoding
pub mod Kept
use sadbox.Prelude.{
  ℕ, zero, suc, ◌+◌, ◌-◌, Bool, true, false, Option, none, some, List, [], ◌∷◌, ◌++◌, Text, ltb,
  leb, if◌then◌else◌, length, take, drop,
}
use sadbox.Gettext.Bytes.{decode_rune}

-- `utf8.RuneLen`, of a rune that a decoded text can have.
unfoldable pub rune_len : ℕ → ℕ
rune_len r = if ltb r 0x80 then 1 else if ltb r 0x800 then 2 else if ltb r 0x10000 then 3 else 4

-- The runes that `range` visits, with the bytes of each.
unfoldable pub range_runes : ℕ → Text → List (ℕ × Text)
range_runes zero s = []
range_runes (suc k) [] = []
range_runes (suc k) (b ∷ s) =
    let (r, n) = decode_rune (b ∷ s) in (r, take n (b ∷ s)) ∷ range_runes k (drop n (b ∷ s))

unfoldable pub bytes_of : List (ℕ × Text) → Text
bytes_of [] = []
bytes_of ((r, bs) ∷ l) = bs ++ bytes_of l

pub record Buffer : Type 0 where
  pub out : Text
  -- The bytes from `written` to the rune.
  pub pending : Text
  -- By how much `written` lies behind the rune.
  pub over : ℕ

-- A rune that is replaced; the slice `s[written:i]` panics where `written` lies behind it.
abbrev pub write_at : ℕ → ℕ → Text → Text → Buffer → Option Buffer
write_at zero r bs repl b =
    some
      (record { out = b.out ++ (b.pending ++ repl); pending = []; over = rune_len r - length bs })
write_at (suc n) r bs repl b = none

-- A rune that stays.
abbrev pub skip : Text → Buffer → Buffer
skip bs b = record b { pending = b.pending ++ drop b.over bs; over = b.over - length bs }

-- The slice `s[written:]` panics where `written` lies behind the text.
abbrev pub flush_at : ℕ → Buffer → Option Text
flush_at zero b = some (b.out ++ b.pending)
flush_at (suc n) b = none

-- One rune, with its replacement if it has one.
abbrev pub visit : Option Text → ℕ → Text → Buffer → Option Buffer
visit none r bs b = some (skip bs b)
visit (some repl) r bs b = write_at b.over r bs repl b

module _ (repl : ℕ → Text → Option Text) where
  -- `repl` is given the rune and the bytes behind it.
  unfoldable pub replace_runes : List (ℕ × Text) → Buffer → Option Text
  replace_runes [] b = flush_at b.over b
  replace_runes ((r, bs) ∷ l) b = elim (visit (repl r (bytes_of l)) r bs b) [
    | none ↦ none
    | some b' ↦ replace_runes l b'
  ]

  unfoldable pub replace_text : Text → Option Text
  replace_text s =
      replace_runes (range_runes (length s) s) (record { out = []; pending = []; over = 0 })
