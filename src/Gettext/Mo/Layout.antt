-- ===== src/Gettext/Mo/Layout.antt =====
-- gettext/mo.go: strings one behind the other with a zero byte behind each, the table of their lengths
-- and offsets, and the loop of the reader over such tables.
use sadbox.Prelude.{
  ℕ, ◌+◌, ◌<◌, ◌≡◌, refl, subst, ◌∙◌, none, List, [], ◌∷◌, ◌++◌, append_assoc, Text, arith, length,
  length-append, drop, drop_behind,
}
use sadbox.Gettext.Bytes.Words.{little_endian, little_bytes, put_words}
use sadbox.Gettext.Catalog.{Catalog}
use sadbox.Gettext.Mo.{ok}
use sadbox.Gettext.Mo.Reader.{read_string, read_entry, read_entries, store_entry}
use sadbox.Gettext.Mo.Reads.{max_uint32, drop-word, read_string_lem}

abbrev pub strings : List Text → Text
strings [] = []
strings (s ∷ ss) = s ++ 0 ∷ strings ss

-- From offset `n` on.
abbrev pub table : ℕ → List Text → List ℕ
table n [] = []
table n (s ∷ ss) = length s ∷ n ∷ table (n + length s + 1) ss

-- The strings stand at `n`, and their table at `t`.
pub record Stands (file : Text) (t n : ℕ) (ss : List Text) : Type 0 where
  pub behind_table : Text
  pub behind : Text
  pub in_table : drop t file ≡ put_words (table n ss) ++ behind_table
  pub in_file : drop n file ≡ strings ss ++ behind
  pub fits : n + length (strings ss) < max_uint32

module _ (file : Text) (t n : ℕ) (s : Text) (ss : List Text) (st : Stands file t n (s ∷ ss)) where
  entry :
      drop t file
      ≡ little_bytes 4 (length s)
        ++ (little_bytes 4 n ++ (put_words (table (n + length s + 1) ss) ++ st.behind_table))
  unfolding put_words
  entry = st.in_table ∙ simp append_assoc

  text : drop n file ≡ s ++ (0 ∷ strings ss ++ st.behind)
  text = st.in_file ∙ simp append_assoc

  size : length (strings (s ∷ ss)) ≡ length s + 1 + length (strings ss)
  size = omega (arith, length-append s (0 ∷ strings ss))

  pub read_string-Stands : read_string little_endian file t ≡ ok s
  read_string-Stands =
      read_string_lem file t n s _ _ (omega (arith, size, st.fits)) (omega (arith, size, st.fits))
        entry text

  pub rest-Stands : Stands file (t + 8) (n + length s + 1) ss
  rest-Stands = record {
    behind_table = st.behind_table;
    behind = st.behind;
    in_table =
        subst (λ (p : ℕ). drop p file ≡ put_words (table (n + length s + 1) ss) ++ st.behind_table)
          (omega arith) (drop-word file (t + 4) 4 n _ (drop-word file t 4 (length s) _ entry));
    in_file = drop_behind (n + length s) file (0 ∷ []) (drop_behind n file s text);
    fits = omega (arith, size, st.fits);
  }

abbrev pub firsts : List (Text × Text) → List Text
firsts [] = []
firsts ((a, b) ∷ es) = a ∷ firsts es

abbrev pub seconds : List (Text × Text) → List Text
seconds [] = []
seconds ((a, b) ∷ es) = b ∷ seconds es

module _ (lower : Text → Text) where
  -- What the loop makes of entries that it reads.
  abbrev pub store_all : Catalog → List (Text × Text) → Catalog
  store_all c [] = c
  store_all c (e ∷ es) = store_all (store_entry lower c e) es

  -- The loop reads the entries of two tables that stand in the file and stores them in their order.
  pub read_entries_lem :
      (file : Text) (es : List (Text × Text)) (t u n m : ℕ) (c : Catalog)
      → Stands file t n (firsts es)
      → Stands file u m (seconds es)
      → read_entries lower little_endian file (length es) t u c ≡ (store_all c es, none)
  unfolding read_entries
  read_entries_lem file [] t u n m c a b = refl
  read_entries_lem file ((s, d) ∷ es) t u n m c a b =
      rw (read_entries, entry_read)
        (read_entries_lem file es (t + 8) (u + 8) _ _ (store_entry lower c (s, d))
          (rest-Stands file t n s (firsts es) a) (rest-Stands file u m d (seconds es) b))
    where
      entry_read : read_entry little_endian file t u ≡ ok (s, d)
      entry_read =
          unfold read_entry in
          rw
            (
              read_string-Stands file t n s (firsts es) a,
              read_string-Stands file u m d (seconds es) b,
            )
            refl
