-- ===== src/Gettext/Bytes/Words.antt =====
-- `encoding/binary`: words of bytes in either order.
use sadbox.Prelude.{
  ℕ, zero, suc, ◌+◌, ◌*◌, ◌/◌, ◌%◌, ◌^◌, ◌<◌, ◌≡◌, refl, sym, List, [], ◌∷◌, ◌++◌, append_assoc,
  Text, arith, length, length-append,
}
use native.Mathlib.Nat.{pow-suc}

pub data ByteOrder : Type 0 where
  little_endian big_endian : ByteOrder

unfoldable pub from_little : Text → ℕ
from_little [] = 0
from_little (b ∷ s) = b + 256 * from_little s

unfoldable pub from_big : ℕ → Text → ℕ
from_big n [] = n
from_big n (b ∷ s) = from_big (n * 256 + b) s

abbrev pub word : ByteOrder → Text → ℕ
word little_endian s = from_little s
word big_endian s = from_big 0 s

-- The low `n` bytes of a number, the lowest first.
unfoldable pub little_bytes : ℕ → ℕ → Text
little_bytes zero v = []
little_bytes (suc n) v = v % 256 ∷ little_bytes n (v / 256)

-- `binary.Write` of a `[]uint32`, little-endian.
unfoldable pub put_words : List ℕ → Text
put_words [] = []
put_words (w ∷ ws) = little_bytes 4 w ++ put_words ws

pub length-little_bytes : (n v : ℕ) → length (little_bytes n v) ≡ n
unfolding little_bytes
length-little_bytes zero v = refl
length-little_bytes (suc n) v = omega (arith, length-little_bytes n (v / 256))

pub from_little-little_bytes : (n v : ℕ) → v < 256 ^ n → from_little (little_bytes n v) ≡ v
unfolding from_little little_bytes
from_little-little_bytes zero v h = omega arith
from_little-little_bytes (suc n) v h =
    ground (arith, from_little-little_bytes n (v / 256), pow-suc 256 n)

pub put_words-append : (a b : List ℕ) → put_words (a ++ b) ≡ put_words a ++ put_words b
unfolding put_words
put_words-append [] b = refl
put_words-append (w ∷ a) b = rw (put_words-append a b) (sym (append_assoc (little_bytes 4 w) _ _))

pub length-put_words : (ws : List ℕ) → length (put_words ws) ≡ 4 * length ws
unfolding put_words
length-put_words [] = refl
length-put_words (w ∷ ws) = omega (
  arith,
  length-append (little_bytes 4 w) (put_words ws),
  length-little_bytes 4 w,
  length-put_words ws,
)
