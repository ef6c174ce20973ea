-- ===== src/Gettext/Mo/Tables.antt =====
-- gettext/mo.go: what the reader finds in front of the tables of a file that the writer made.
use sadbox.Prelude.{
  ℕ, ◌+◌, ◌*◌, ◌^◌, ◌<◌, ◌≡◌, refl, ◌∙◌, List, [], ◌∷◌, ◌++◌, append_assoc, Text, arith, length,
  drop,
}
use sadbox.Gettext.Bytes.Words.{little_endian, little_bytes, put_words}
use sadbox.Gettext.Catalog.{Catalog}
use sadbox.Gettext.Mo.{ok}
use sadbox.Gettext.Mo.Reader.{read_words, read_order, read_tables, read_word, magic_little_endian}
use sadbox.Gettext.Mo.Writer.{file_table, file_of, message_count}
use sadbox.Gettext.Mo.Reads.{max_uint32, read_word_lem, drop-word}
use sadbox.Gettext.Mo.Written.{file_size, uint32_id, src_place, dst_place, sources, translations}
use sadbox.Gettext.Mo.Layout.{table}
use sadbox.Gettext.Mo.Places.{file_lem, texts}

-- Words of `n` bytes.
abbrev words : ℕ → List ℕ → Text
words n [] = []
words n (w ∷ ws) = little_bytes n w ++ words n ws

abbrev Below : ℕ → List ℕ → Type 0
Below m [] = Unit {0}
Below m (w ∷ ws) = (w < m) × Below m ws

abbrev place_after : ℕ → ℕ → List ℕ → ℕ
place_after pos n [] = pos
place_after pos n (w ∷ ws) = place_after (pos + n) n ws

read_words_lem :
    (file : Text) (pos n : ℕ) (ws : List ℕ) (x : Text)
    → Below (256 ^ n) ws
    → drop pos file ≡ words n ws ++ x
    → read_words little_endian file pos n (length ws) ≡ ok (ws, place_after pos n ws)
unfolding read_words
read_words_lem file pos n [] x b h = refl
read_words_lem file pos n (w ∷ ws) x (bw, bs) h =
    let h' = h ∙ append_assoc (little_bytes n w) (words n ws) x in
    rw
      (
        read_word_lem file pos n w _ bw h',
        read_words_lem file (pos + n) n ws x bs (drop-word file pos n w _ h'),
      )
      refl

-- A file that starts with these words.
module _ (file : Text) (count m t : ℕ) (x : Text) (hc : count < max_uint32) (hm : m < max_uint32)
    (ht : t < max_uint32)
    (starts : file ≡ put_words (magic_little_endian ∷ 0 ∷ count ∷ m ∷ t ∷ 0 ∷ 0 ∷ []) ++ x) where
  words_after_order :
      drop 4 file ≡ words 2 (0 ∷ 0 ∷ []) ++ (words 4 (count ∷ m ∷ t ∷ 0 ∷ 0 ∷ []) ++ x)
  unfolding put_words little_bytes
  words_after_order = rw starts refl

  words_after_revision : drop 8 file ≡ words 4 (count ∷ m ∷ t ∷ 0 ∷ 0 ∷ []) ++ x
  unfolding put_words little_bytes
  words_after_revision = rw starts refl

  magic_word : read_word little_endian file 0 4 ≡ ok (magic_little_endian, 4)
  unfolding put_words
  magic_word =
      let rest = put_words (0 ∷ count ∷ m ∷ t ∷ 0 ∷ 0 ∷ []) in
      read_word_lem file 0 4 magic_little_endian (rest ++ x) (omega arith)
        (starts ∙ append_assoc (little_bytes 4 magic_little_endian) rest x)

  pub read_tables_lem : read_tables file ≡ ok (little_endian, count ∷ m ∷ t ∷ 0 ∷ 0 ∷ [])
  unfolding read_tables read_order
  read_tables_lem =
      rw
        (
          magic_word,
          read_words_lem file 4 2 (0 ∷ 0 ∷ []) _ (omega arith) words_after_order,
          read_words_lem file 8 4 (count ∷ m ∷ t ∷ 0 ∷ 0 ∷ []) x (omega arith) words_after_revision,
        )
        refl

-- The words of a file that the writer made.
pub read_tables-file_of :
    (c : Catalog)
    → file_size c < max_uint32
    → read_tables (file_of c)
      ≡ ok (little_endian, message_count c ∷ 28 ∷ (28 + message_count c * 8) ∷ 0 ∷ 0 ∷ [])
read_tables-file_of c fits =
    read_tables_lem (file_of c) (message_count c) 28 (28 + message_count c * 8) _ (omega arith)
      (omega arith) (omega arith) starts
  where
    same :
        file_table c
        ≡ magic_little_endian ∷ 0 ∷ message_count c ∷ 28 ∷ (28 + message_count c * 8) ∷ 0 ∷ 0 ∷ []
    same =
        unfold file_table in
        rw
          (
            uint32_id (message_count c) (omega arith),
            uint32_id (28 + message_count c * 8) (omega arith),
          )
          refl

    starts :
        file_of c
        ≡ put_words (
            magic_little_endian
            ∷ 0
            ∷ message_count c
            ∷ 28
            ∷ (28 + message_count c * 8)
            ∷ 0
            ∷ 0
            ∷ [])
          ++ (put_words (table (src_place c) (sources c))
              ++ (put_words (table (dst_place c) (translations c)) ++ texts c fits))
    starts = rw same at (file_lem c fits)
