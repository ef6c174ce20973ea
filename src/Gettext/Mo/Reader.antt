-- ===== src/Gettext/Mo/Reader.antt =====
-- gettext/mo.go: `MoReader.Read`. A file is read from a position; a position beyond its end is at its
-- end.
use sadbox.Prelude.{
  ℕ, zero, suc, ◌+◌, Bool, true, false, ◌||◌, Option, none, some, List, [], ◌∷◌, Text, codes,
  text_eq, ◌==◌, ltb, if◌then◌else◌, length, take, drop, look,
}
use sadbox.Gettext.Bytes.{cut_at, split_at}
use sadbox.Gettext.Bytes.Words.{ByteOrder, little_endian, big_endian, word}
use sadbox.Gettext.Message.{Message, simple, plural}
use sadbox.Gettext.Catalog.{Catalog, add}
use sadbox.Gettext.Mo.{
  ReadError, eof, unexpected_eof, unknown_byte_order, bad_revision, Read, ok, err, ◌>>=◌,
  get_plural_func, read_mo_header,
}

-- `io.ReadFull` of `n` bytes, with the position behind them.
abbrev pub full : ℕ → ℕ → Text → Read (Text × ℕ)
full pos n chunk =
    if length chunk == n
    then ok (chunk, pos + n)
    else if length chunk == 0
    then err eof
    else err unexpected_eof

unfoldable pub read_full : Text → ℕ → ℕ → Read (Text × ℕ)
read_full file pos n = full pos n (take n (drop pos file))

-- `binary.Read` of a number of `n` bytes.
unfoldable pub read_word : ByteOrder → Text → ℕ → ℕ → Read (ℕ × ℕ)
read_word order file pos n = do (s, pos') ← read_full file pos n; ok (word order s, pos')

-- `binary.Read` of numbers into the `k` elements of a slice.
unfoldable pub read_words : ByteOrder → Text → ℕ → ℕ → ℕ → Read (List ℕ × ℕ)
read_words order file pos n zero = ok ([], pos)
read_words order file pos n (suc k) = do
  (w, pos') ← read_word order file pos n
  (ws, pos'') ← read_words order file pos' n k
  ok (w ∷ ws, pos'')

-- The string whose length and offset stand at a place of a table.
unfoldable pub read_string : ByteOrder → Text → ℕ → Read Text
read_string order file table = do
  (len, pos) ← read_word order file table 4
  (idx, _) ← read_word order file pos 4
  (s, _) ← read_full file idx len
  ok s

abbrev pub magic_big_endian : ℕ
magic_big_endian = 0xde120495

abbrev pub magic_little_endian : ℕ
magic_little_endian = 0x950412de

abbrev pub order_of : ℕ → ℕ → Read (ByteOrder × ℕ)
order_of magic pos =
    if magic == magic_little_endian
    then ok (little_endian, pos)
    else if magic == magic_big_endian
    then ok (big_endian, pos)
    else err unknown_byte_order

unfoldable pub read_order : Text → Read (ByteOrder × ℕ)
read_order file = do (magic, pos) ← read_word little_endian file 0 4; order_of magic pos

-- `rev[0] > 1 || rev[1] > 1`.
abbrev pub check_revision : List ℕ → ℕ → Read ℕ
check_revision (major ∷ minor ∷ _) pos =
    if ltb 1 major || ltb 1 minor then err (bad_revision major minor) else ok pos
check_revision _ pos = ok pos

-- The message with the key and the translation that an entry of the file holds.
abbrev pub singular_or_plural : Text → Text → Text → Bool → Message
singular_or_plural m_str t_str ctx has_ctx = elim (cut_at 0 m_str) [
  | none ↦ simple (record { src = m_str; dst = t_str; ctx = ctx; has_ctx = has_ctx; info = none })
  | some _ ↦ plural (record {
    src = split_at 0 m_str;
    dst = split_at 0 t_str;
    ctx = ctx;
    has_ctx = has_ctx;
    info = none;
  })
]

unfoldable pub entry_message : Text → Text → Message
entry_message mb tb = elim (cut_at 4 mb) [
  | none ↦ singular_or_plural mb tb [] false
  | some (ctx, m_str) ↦ singular_or_plural m_str tb ctx true
]

-- An entry's message and its translation.
unfoldable pub read_entry : ByteOrder → Text → ℕ → ℕ → Read (Text × Text)
read_entry order file m_table_idx t_table_idx = do
  mb ← read_string order file m_table_idx
  tb ← read_string order file t_table_idx
  ok (mb, tb)

-- What follows the loop.
unfoldable pub set_plural_func : Catalog → Catalog × Option ReadError
set_plural_func c = elim (look text_eq c.header (codes "plural-forms")) [
  | none ↦ (c, none)
  | some header ↦ elim (get_plural_func header) [
    | err e ↦ (c, some e)
    | ok fn ↦ (record c { plural_func = fn }, none)
  ]
]

abbrev pub unless_failed : Catalog × Option ReadError → Catalog × Option ReadError
unless_failed (c, some e) = (c, some e)
unless_failed (c, none) = set_plural_func c

-- The words in front of the tables: the byte order, and the count and the places of the tables.
unfoldable pub read_tables : Text → Read (ByteOrder × List ℕ)
read_tables file = do
  (order, pos) ← read_order file
  (rev, pos') ← read_words order file pos 2 2
  pos'' ← check_revision rev pos'
  (idx, _) ← read_words order file pos'' 4 5
  ok (order, idx)

module _ (lower : Text → Text) where
  -- The header of the file is the entry with an empty message.
  unfoldable pub store_entry : Catalog → Text × Text → Catalog
  store_entry c ([], tb) = read_mo_header lower c tb
  store_entry c (b ∷ mb, tb) = add c (entry_message (b ∷ mb) tb)

  -- The loop over the messages, with the catalog as it stands when the loop ends or fails.
  unfoldable pub read_entries : ByteOrder → Text → ℕ → ℕ → ℕ → Catalog → Catalog × Option ReadError
  read_entries order file zero m_table_idx t_table_idx c = (c, none)
  read_entries order file (suc n) m_table_idx t_table_idx c =
      elim (read_entry order file m_table_idx t_table_idx) [
        | err e ↦ (c, some e)
        | ok entry ↦
            read_entries order file n (m_table_idx + 8) (t_table_idx + 8) (store_entry c entry)
      ]

  abbrev pub read_all : Text → Catalog → ByteOrder → List ℕ → Catalog × Option ReadError
  read_all file c order (count ∷ m_table_idx ∷ t_table_idx ∷ _) =
      unless_failed (read_entries order file count m_table_idx t_table_idx c)
  read_all file c order _ = (c, none)

  -- The catalog and the error that `Read` returns.
  unfoldable pub read_mo : Catalog → Text → Catalog × Option ReadError
  read_mo c file = elim (read_tables file) [
    | err e ↦ (c, some e)
    | ok (order, idx) ↦ read_all file c order idx
  ]
