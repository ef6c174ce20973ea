-- ===== src/Gettext/Mo/RoundTrip.antt =====
-- gettext/mo.go: a catalog that is written and read back.
use sadbox.Prelude.{
  ℕ, suc, ◌+◌, ◌*◌, ◌<◌, ◌≡◌, refl, ap, subst, ◌∙◌, Option, none, some, List, [], ◌∷◌, map, Text,
  arith, length, codes, text_eq, look,
}
use mathlib.Core.List.{Permᴰ}
use mathlib.Core.List.Permᴰ
use mathlib.Core.Option
use sadbox.PluralForms.Plural.{PluralFunc}
use sadbox.Gettext.Message
use sadbox.Gettext.Message.{Key, Message, key_eq}
use sadbox.Gettext.Bytes.Words.{little_endian}
use sadbox.Gettext.Catalog.{Catalog, new_catalog, add}
use sadbox.Gettext.Catalog.Invariant.{Keyed}
use sadbox.Gettext.Sorted.{sorted_messages}
use sadbox.Gettext.Sorted.Permutation.{values, sorted_messages-Permᴰ}
use sadbox.Gettext.Mo.{ReadError, Read, ok, err, get_plural_func, read_mo_header}
use sadbox.Gettext.Mo.Reader.{read_mo, read_entries, set_plural_func, store_entry}
use sadbox.Gettext.Mo.Writer.{file_of, entry_src, entry_dst, get_header, header_text, message_count}
use sadbox.Gettext.Mo.Reads.{max_uint32}
use sadbox.Gettext.Mo.Layout.{firsts, seconds, store_all, read_entries_lem}
use sadbox.Gettext.Mo.Written.{file_size, file_messages, src_place, dst_place}
use sadbox.Gettext.Mo.Places.{length-file_messages, sources-Stands, translations-Stands}
use sadbox.Gettext.Mo.Tables.{read_tables-file_of}
use sadbox.Gettext.Mo.Entries.{Survives, as_read, store_entry_lem}
use sadbox.Gettext.Mo.Found.{
  find_in, DistinctKeys, find_in-Permᴰ, find_in-values, Keyed-DistinctKeys, add_all, read_or,
  look-add_all,
}

abbrev entries_of : List Message → List (Text × Text)
entries_of [] = []
entries_of (m ∷ l) = (entry_src m, entry_dst m) ∷ entries_of l

firsts_lem : (l : List Message) → firsts (entries_of l) ≡ map entry_src l
firsts_lem [] = refl
firsts_lem (m ∷ l) = ap (λ (t : List Text). entry_src m ∷ t) (firsts_lem l)

seconds_lem : (l : List Message) → seconds (entries_of l) ≡ map entry_dst l
seconds_lem [] = refl
seconds_lem (m ∷ l) = ap (λ (t : List Text). entry_dst m ∷ t) (seconds_lem l)

length-entries_of : (l : List Message) → length (entries_of l) ≡ length l
length-entries_of [] = refl
length-entries_of (m ∷ l) = ap suc (length-entries_of l)

abbrev pub All {κ} : (Message → Type κ) → List Message → Type κ
All P [] = Unit {κ}
All P (m ∷ l) = P m × All P l

All-Permᴰ : {a b : List Message} → Permᴰ a b → All Survives a → All Survives b
All-Permᴰ Permᴰ.nil h = h
All-Permᴰ (Permᴰ.cons e p) (x, h) = (rw (← e) x, All-Permᴰ p h)
All-Permᴰ (Permᴰ.swap e f) (x, (y, h)) = (rw (← f) y, (rw (← e) x, h))
All-Permᴰ (Permᴰ.trans p q) h = All-Permᴰ q (All-Permᴰ p h)

module _ (lower : Text → Text) where
  store_all-entries_of :
      (l : List Message) (c : Catalog)
      → All Survives l
      → store_all lower c (entries_of l) ≡ add_all c l
  store_all-entries_of [] c h = refl
  store_all-entries_of (m ∷ l) c (x, h) =
      rw (store_all, store_entry_lem lower c m x) (store_all-entries_of l (add c (as_read m)) h)

  -- The loop reads all the entries of a file that the writer made.
  read_entries-file_of :
      (c d : Catalog)
      → file_size c < max_uint32
      → read_entries lower little_endian
          (file_of c)
          (message_count c)
          28
          (28 + message_count c * 8)
          d
        ≡ (store_all lower d (entries_of (file_messages c)), none)
  read_entries-file_of c d fits =
      subst
        (λ (n : ℕ).
          read_entries lower little_endian (file_of c) n 28 (28 + message_count c * 8) d
          ≡ (store_all lower d (entries_of (file_messages c)), none))
        (length-entries_of (file_messages c) ∙ length-file_messages c)
        (read_entries_lem lower (file_of c) (entries_of (file_messages c)) 28 _ (src_place c)
          (dst_place c) d (rw (firsts_lem (file_messages c)) (sources-Stands c fits))
          (rw (seconds_lem (file_messages c)) (translations-Stands c fits)))

  read_mo-file_of :
      (c d : Catalog)
      → file_size c < max_uint32
      → read_mo lower d (file_of c)
        ≡ set_plural_func (store_all lower d (entries_of (file_messages c)))
  unfolding read_mo
  read_mo-file_of c d fits =
      rw (read_mo, read_tables-file_of c fits, read_entries-file_of c d fits) refl

set_plural_func-messages : (c : Catalog) → (set_plural_func c).0.messages ≡ c.messages
unfolding set_plural_func
set_plural_func-messages c = ground arith

abbrev error_of : Read PluralFunc → Option ReadError
error_of (ok f) = none
error_of (err e) = some e

abbrev pub plural_error : Option Text → Option ReadError
plural_error none = none
plural_error (some header) = error_of (get_plural_func header)

set_plural_func_error :
    (c : Catalog)
    → (set_plural_func c).1 ≡ plural_error (look text_eq c.header (codes "plural-forms"))
unfolding set_plural_func
set_plural_func_error c = ground arith

read_or-none : (o : Option Message) → read_or o none ≡ Option.map as_read o
read_or-none none = refl
read_or-none (some m) = refl

module _ (lower : Text → Text) (c : Catalog) (keyed : Keyed c.messages)
    (survive : All Survives (values c.messages)) where
  -- The header of the file changes no message.
  read_mo-store_all :
      store_all lower new_catalog (entries_of (file_messages c))
      ≡ add_all
          (read_mo_header lower new_catalog (header_text c.header))
          (sorted_messages c.messages)
  unfolding store_entry entry_src entry_dst get_header Message.context
  read_mo-store_all =
      store_all-entries_of lower (sorted_messages c.messages) _
        (All-Permᴰ (Permᴰ.symm (sorted_messages-Permᴰ c.messages)) survive)

  distinct :
      DistinctKeys (sorted_messages c.messages)
      × ((k : Key) → find_in (values c.messages) k ≡ find_in (sorted_messages c.messages) k)
  distinct =
      find_in-Permᴰ (Permᴰ.symm (sorted_messages-Permᴰ c.messages))
        (Keyed-DistinctKeys c.messages keyed)

  look-added :
      (d : Catalog) (k : Key)
      → d.messages ≡ []
      → look key_eq (add_all d (sorted_messages c.messages)).messages k
        ≡ Option.map as_read (look key_eq c.messages k)
  unfolding look
  look-added d k empty =
      look-add_all d (sorted_messages c.messages) k distinct.0
      ∙ rw (empty, ← distinct.1 k, find_in-values c.messages k keyed)
          (read_or-none (look key_eq c.messages k))

  add_all-header : (d : Catalog) (l : List Message) → (add_all d l).header ≡ d.header
  unfolding add
  add_all-header d [] = refl
  add_all-header d (m ∷ l) = add_all-header (add d (as_read m)) l

  -- The only error that can arise in reading a written file comes from the field `plural-forms` of its
  -- header: there is none if the field is missing, and else it is that of `get_plural_func`.
  pub read_mo-write_mo_error :
      file_size c < max_uint32
      → (read_mo lower new_catalog (file_of c)).1
        ≡ plural_error (
            look text_eq
              (read_mo_header lower new_catalog (header_text c.header)).header
              (codes "plural-forms"))
  read_mo-write_mo_error fits =
      rw (read_mo-file_of lower c new_catalog fits, set_plural_func_error, read_mo-store_all)
        (rw
          (add_all-header (read_mo_header lower new_catalog (header_text c.header))
            (sorted_messages c.messages))
          refl)

  -- A catalog that is written and read into a new one: the reader finds under every key the message that
  -- stood there, without its meta-data and, if it has none, without its context text. The messages stand
  -- under their own keys, none is empty or has a separator in a text that it separates, and the file is
  -- smaller than 4 GB.
  pub read_mo-write_mo :
      file_size c < max_uint32
      → (k : Key)
      → look key_eq (read_mo lower new_catalog (file_of c)).0.messages k
        ≡ Option.map as_read (look key_eq c.messages k)
  read_mo-write_mo fits k =
      rw (read_mo-file_of lower c new_catalog fits, set_plural_func-messages, read_mo-store_all)
        (look-added (read_mo_header lower new_catalog (header_text c.header)) k
          (unfold read_mo_header new_catalog in refl))
