-- ===== src/Gettext/Mo/Reads.antt =====
-- gettext/mo.go: what the reader makes of the bytes that stand at a place of a file.
use sadbox.Prelude.{
  ℕ, ◌+◌, ◌^◌, ◌<◌, ◌≡◌, refl, ◌++◌, Text, arith, length, drop, take-append, drop_behind,
}
use sadbox.Gettext.Bytes.Words.{
  little_endian, little_bytes, length-little_bytes, from_little-little_bytes,
}
use sadbox.Gettext.Mo.{ok}
use sadbox.Gettext.Mo.Reader.{read_full, read_word, read_string}

pub read_full_lem :
    (file : Text) (pos : ℕ) (s x : Text)
    → drop pos file ≡ s ++ x
    → read_full file pos (length s) ≡ ok (s, pos + length s)
unfolding read_full
read_full_lem file pos s x h = rw (h, take-append s x) (ground arith)

pub read_word_lem :
    (file : Text) (pos n v : ℕ) (x : Text)
    → v < 256 ^ n
    → drop pos file ≡ little_bytes n v ++ x
    → read_word little_endian file pos n ≡ ok (v, pos + n)
unfolding read_word
read_word_lem file pos n v x fits h =
    let full = rw (length-little_bytes n v) at (read_full_lem file pos (little_bytes n v) x h) in
    rw (full, from_little-little_bytes n v fits) refl

-- The place behind a word, and what stands there.
pub drop-word :
    (file : Text) (pos n v : ℕ) (x : Text)
    → drop pos file ≡ little_bytes n v ++ x
    → drop (pos + n) file ≡ x
drop-word file pos n v x h =
    rw (length-little_bytes n v) at (drop_behind pos file (little_bytes n v) h)

abbrev pub max_uint32 : ℕ
max_uint32 = 2 ^ 32

-- The string whose length and offset stand at `table`.
pub read_string_lem :
    (file : Text) (table idx : ℕ) (s x y : Text)
    → length s < max_uint32
    → idx < max_uint32
    → drop table file ≡ little_bytes 4 (length s) ++ (little_bytes 4 idx ++ x)
    → drop idx file ≡ s ++ y
    → read_string little_endian file table ≡ ok s
unfolding read_string
read_string_lem file table idx s x y hs hi ht hd = rw (
  read_word_lem file table 4 (length s) _ hs ht,
  read_word_lem file (table + 4) 4 idx x hi (drop-word file table 4 (length s) _ ht),
  read_full_lem file idx s y hd,
)
