-- ===== src/Gettext/Mo/Places.antt =====
-- gettext/mo.go: where the writer puts the tables and the texts.
use sadbox.Prelude.{
  ℕ, suc, ◌+◌, ◌*◌, ◌<◌, ◌≡◌, refl, sym, ap, subst, ◌∙◌, List, [], ◌∷◌, ◌++◌, map, append_assoc,
  append-nil, Text, arith, length, drop, drop_behind,
}
use mathlib.Core.List.{Permᴰ}
use sadbox.Gettext.Message.{Key, Message}
use sadbox.Gettext.Bytes.Words.{put_words, put_words-append, length-put_words}
use sadbox.Gettext.Catalog.{Catalog}
use sadbox.Gettext.Sorted.Permutation.{values, sorted_messages-Permᴰ}
use sadbox.Gettext.Mo.Writer.{file_table, write_mo, file_of, entry_src, entry_dst, message_count}
use sadbox.Gettext.Mo.Reads.{max_uint32}
use sadbox.Gettext.Mo.Layout.{strings, table, Stands}
use sadbox.Gettext.Mo.Written.{
  new_mo_message_writer_lem, file_messages, sources, translations, src_place, dst_place, file_size,
}

length-Permᴰ : {a b : List Message} → Permᴰ a b → length a ≡ length b
length-Permᴰ Permᴰ.nil = refl
length-Permᴰ (Permᴰ.cons _ p) = ap suc (length-Permᴰ p)
length-Permᴰ (Permᴰ.swap _ _) = refl
length-Permᴰ (Permᴰ.trans p q) = length-Permᴰ p ∙ length-Permᴰ q

length-values : (m : List (Key × Message)) → length (values m) ≡ length m
length-values [] = refl
length-values (e ∷ m) = ap suc (length-values m)

length-map : (f : Message → Text) (l : List Message) → length (map f l) ≡ length l
length-map f [] = refl
length-map f (x ∷ l) = ap suc (length-map f l)

length-table : (n : ℕ) (ss : List Text) → length (table n ss) ≡ 2 * length ss
length-table n [] = refl
length-table n (s ∷ ss) = omega (arith, length-table (n + length s + 1) ss)

pub length-file_messages : (c : Catalog) → length (file_messages c) ≡ message_count c
unfolding message_count
length-file_messages c =
    omega (arith, length-Permᴰ (sorted_messages-Permᴰ c.messages), length-values c.messages)

-- The parts of a file that the writer made, each with what follows it.
module _ (c : Catalog) (fits : file_size c < max_uint32) where
  abbrev pub texts : Text
  texts = strings (sources c) ++ strings (translations c)

  pub file_lem :
      file_of c
      ≡ put_words (file_table c)
        ++ (put_words (table (src_place c) (sources c))
            ++ (put_words (table (dst_place c) (translations c)) ++ texts))
  unfolding write_mo
  file_lem = rw (new_mo_message_writer_lem c fits, put_words-append) (simp append_assoc)

  -- The place behind the part that stands at another place.
  place_behind :
      (p n : ℕ) (xs ys : Text)
      → drop n (file_of c) ≡ xs ++ ys
      → n + length xs ≡ p
      → drop p (file_of c) ≡ ys
  place_behind p n xs ys h e =
      subst (λ (q : ℕ). drop q (file_of c) ≡ ys) e (drop_behind n (file_of c) xs h)

  table_size :
      (n : ℕ) (f : Message → Text)
      → length (put_words (table n (map f (file_messages c)))) ≡ message_count c * 8
  table_size n f = omega (
    arith,
    length-put_words (table n (map f (file_messages c))),
    length-table n (map f (file_messages c)),
    length-map f (file_messages c),
    length-file_messages c,
  )

  pub behind_header :
      drop 28 (file_of c)
      ≡ put_words (table (src_place c) (sources c))
        ++ (put_words (table (dst_place c) (translations c)) ++ texts)
  behind_header =
      place_behind 28 0 (put_words (file_table c)) _ file_lem
        (unfold file_table in omega (arith, length-put_words (file_table c)))

  pub behind_src_table :
      drop (28 + message_count c * 8) (file_of c)
      ≡ put_words (table (dst_place c) (translations c)) ++ texts
  behind_src_table =
      place_behind _ 28 (put_words (table (src_place c) (sources c))) _ behind_header
        (omega (arith, table_size (src_place c) entry_src))

  behind_tables : drop (src_place c) (file_of c) ≡ texts
  behind_tables =
      place_behind _ _ (put_words (table (dst_place c) (translations c))) _ behind_src_table
        (omega (arith, table_size (dst_place c) entry_dst))

  behind_sources : drop (dst_place c) (file_of c) ≡ strings (translations c)
  behind_sources = place_behind _ _ _ _ behind_tables refl

  -- Both columns stand where the reader looks for them.
  pub sources-Stands : Stands (file_of c) 28 (src_place c) (sources c)
  sources-Stands = record {
    behind_table = put_words (table (dst_place c) (translations c)) ++ texts;
    behind = strings (translations c);
    in_table = behind_header;
    in_file = behind_tables;
    fits = omega arith;
  }

  pub translations-Stands :
      Stands (file_of c) (28 + message_count c * 8) (dst_place c) (translations c)
  translations-Stands = record {
    behind_table = texts;
    behind = [];
    in_table = behind_src_table;
    in_file = behind_sources ∙ sym (append-nil _);
    fits = fits;
  }
