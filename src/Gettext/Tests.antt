-- ===== src/Gettext/Tests.antt =====
-- Catalogs, files and formats on which the definitions are run.
use sadbox.Prelude.{
  text_eq, if◌then◌else◌, ◌<◌, ℕ, ◌≡◌, refl, arith, true, false, none, some, List, [], ◌∷◌, Text,
  codes, look, put,
}
use sadbox.Prelude.Int.{pos}
use sadbox.PluralForms.Plural.{parse_plural, remove_spaces, plural_func3}
use sadbox.Gettext.Message
use sadbox.Gettext.Message.{Key, Message, simple, plural}
use sadbox.Gettext.Bytes.{
  cut_at, split_at, join_at, trim, trim_front, trim_back, space_width, is_empty, to_lower, is_ascii,
  runes, decode_runes,
}
use sadbox.Gettext.Bytes.Words.{put_words, little_bytes, from_little}
use sadbox.Gettext.Catalog.{Catalog, new_catalog, add, find, get, get_plural, formatted}
use sadbox.Gettext.Sorted.{
  sorted_messages, sorted_message_keys, sort_strings, insert_string, text_leb, append_to,
  group_by_src, group_by_ctx, append_groups, append_src, append_srcs,
}
use sadbox.Gettext.Mo.{read_mo_header, header_lines, header_line, get_plural_func, find_plural}
use sadbox.Gettext.Mo.Reader.{
  read_mo, read_tables, read_order, read_word, read_words, read_full, read_string, read_entry,
  read_entries, store_entry, entry_message, set_plural_func,
}
use sadbox.Gettext.Mo.Writer.{
  file_of, write_mo, new_mo_message_writer, file_table, append_messages, append, entry_src,
  entry_dst, get_header, header_text, message_count, shift_offsets,
}
use mathlib.Core.Option
use mathlib.Core.List.{Perm}
use sadbox.Gettext.Message.{PluralMessage, key_eq}
use sadbox.Gettext.Catalog.{clone}
use sadbox.Gettext.Catalog.Invariant.{IsValid, add-IsValid, new_catalog-IsValid}
use sadbox.Gettext.Catalog.Clones.{clone_answers}
use sadbox.Gettext.Catalog.Answers.{added, fresh, read, find-Reachable, chosen, get_plural-add}
use sadbox.Gettext.Sorted.Permutation.{values, sorted_messages-Perm}
use sadbox.Gettext.Mo.Reads.{max_uint32}
use sadbox.Gettext.Mo.Written.{file_size}
use sadbox.Gettext.Mo.Entries.{Survives, as_read}
use sadbox.Gettext.Mo.RoundTrip.{All, read_mo-write_mo, read_mo-write_mo_error, plural_error}
use sadbox.Gettext.Mo.Validity.{read_mo-IsValid}
use sadbox.Gettext.Format.{
  parse_fmt, parse_loop, percent_or_end, directive, numbered, before_percent, from_percent,
  digits_front, after_digits, is_digit, parse_int, digits_value, sprintf,
}
use sadbox.Gettext.Format.Rewritten.{
  Part, literal, escaped, verb, position, Separate, source, standard, positions, parse_fmt-source,
}
use sadbox.Gettext.Format.Picked.{sprintf-order}

abbrev hello : Message
hello =
    simple
      (record { src = codes "hello"; dst = codes "hallo"; ctx = []; has_ctx = false; info = none })

abbrev open_menu : Message
open_menu = simple (record {
  src = codes "open";
  dst = codes "auf";
  ctx = codes "menu";
  has_ctx = true;
  info = none;
})

abbrev files_message : PluralMessage
files_message = (record {
  src = codes "file" ∷ codes "files" ∷ [];
  dst = codes "Datei" ∷ codes "Dateien" ∷ [];
  ctx = [];
  has_ctx = false;
  info = none;
})

abbrev files : Message
files = plural files_message

abbrev small : Catalog
small = add (add (add new_catalog open_menu) hello) files

abbrev unchanged : Text → Text
unchanged s = s

-- A formatter of which the tests use nothing.
abbrev printf : Text → List ℕ → Text
printf s a = s

abbrev with_header : Catalog
with_header = record small { header = (codes "plural-forms", codes "nplurals=2; plural=n>1;") ∷ [] }

-- What is written reads back, with the header and its plural function.
reads_back :
    ((read_mo unchanged new_catalog (file_of with_header)).1 ≡ none)
    × (find (read_mo unchanged new_catalog (file_of with_header)).0 (codes "file") ≡ some files)
    × (get_plural printf
          (read_mo unchanged new_catalog (file_of with_header)).0
          (codes "file")
          (pos 1)
          none
        ≡ some (codes "Datei"))
unfolding read_mo read_tables read_order read_word read_words read_full read_string read_entry
    read_entries store_entry entry_message set_plural_func read_mo_header header_lines header_line
    get_plural_func find_plural write_mo new_mo_message_writer file_table append_messages append
    entry_src entry_dst get_header header_text message_count shift_offsets put_words little_bytes
    from_little cut_at split_at join_at trim trim_front trim_back space_width is_empty to_lower
    is_ascii runes decode_runes look put new_catalog add find get_plural formatted Message.key
    Message.context Message.get_plural sorted_messages sorted_message_keys sort_strings
    insert_string text_leb append_to group_by_src group_by_ctx append_groups append_src append_srcs
    parse_plural remove_spaces plural_func3
reads_back = (refl, refl, refl)

-- Two fields of a header run together in the file, so that one field comes back.
merged_header :
    (read_mo_header unchanged new_catalog
      (header_text ((codes "a", codes "1") ∷ (codes "b", codes "2") ∷ []))).header
    ≡ (codes "a", codes "1b: 2") ∷ []
unfolding read_mo_header header_lines header_line header_text cut_at split_at trim trim_front
    trim_back space_width is_empty to_lower is_ascii look put new_catalog
merged_header = refl

small-IsValid : IsValid small
small-IsValid =
    add-IsValid _ files
      (add-IsValid _ hello (add-IsValid new_catalog open_menu new_catalog-IsValid))

with_header-Survives : All Survives (values with_header.messages)
unfolding add put new_catalog Message.key join_at
with_header-Survives = (
  (refl, refl),
  (
    ((refl, λ e. cc), refl),
    (((refl, λ e. cc), tt, (refl, (refl, tt)), (λ e. cc), (refl, (refl, tt))), tt),
  ),
)

with_header_fits : file_size with_header < max_uint32
unfolding add put new_catalog Message.key Message.context join_at entry_src entry_dst get_header
    header_text message_count sorted_messages sorted_message_keys sort_strings insert_string
    text_leb append_to group_by_src group_by_ctx append_groups append_src append_srcs look
with_header_fits = omega arith

abbrev file_key : Key
file_key = record { src = codes "file"; ctx = []; has_ctx = false }

read_mo-write_mo_example :
    look key_eq (read_mo unchanged new_catalog (file_of with_header)).0.messages file_key
    ≡ Option.map as_read (look key_eq with_header.messages file_key)
read_mo-write_mo_example =
    read_mo-write_mo unchanged with_header small-IsValid.keyed with_header-Survives with_header_fits
      file_key

read_mo-write_mo_error_example :
    (read_mo unchanged new_catalog (file_of with_header)).1
    ≡ plural_error (
        look text_eq
          (read_mo_header unchanged new_catalog (header_text with_header.header)).header
          (codes "plural-forms"))
read_mo-write_mo_error_example =
    read_mo-write_mo_error unchanged with_header small-IsValid.keyed with_header-Survives
      with_header_fits

sorted_messages-Perm_example :
    Perm (sorted_messages with_header.messages) (values with_header.messages)
sorted_messages-Perm_example = sorted_messages-Perm with_header.messages

read_mo-IsValid_example :
    IsValid (read_mo unchanged small (file_of with_header)).0
    × ((read_mo unchanged small (file_of with_header)).0.ctx ≡ small.ctx)
    × ((read_mo unchanged small (file_of with_header)).0.has_ctx ≡ small.has_ctx)
read_mo-IsValid_example = read_mo-IsValid unchanged small (file_of with_header) small-IsValid

clone_answers_example :
    IsValid (clone small)
    × (get printf (clone small) (codes "hello") none ≡ get printf small (codes "hello") none)
    × (get_plural printf (clone small) (codes "hello") (pos 2) none
        ≡ get_plural printf small (codes "hello") (pos 2) none)
    × ((clone small).header ≡ [])
clone_answers_example = clone_answers printf small small-IsValid (codes "hello") (pos 2) none

-- A catalog that a file too short was read into, before a message was added.
abbrev refused : Catalog
refused = (read_mo unchanged new_catalog (codes "too short")).0

small_finds : find (add refused hello) (codes "hello") ≡ some hello
unfolding find add put look new_catalog Message.key read_mo read_tables read_order read_word
    read_full from_little
small_finds = refl

find-Reachable_example :
    (Message.key hello ≡ record {
      src = codes "hello";
      ctx = (add refused hello).ctx;
      has_ctx = (add refused hello).has_ctx;
    })
    × (Message.context hello
        ≡ (if (add refused hello).has_ctx then some (add refused hello).ctx else none))
find-Reachable_example =
    find-Reachable (add refused hello) (codes "hello")
      (added hello (read unchanged (codes "too short") fresh)) small_finds

files-key :
    Message.key files
    ≡ record { src = codes "file"; ctx = new_catalog.ctx; has_ctx = new_catalog.has_ctx }
unfolding Message.key new_catalog
files-key = refl

get_plural-add_example :
    (get_plural printf (add new_catalog files) (codes "file") (pos 2) none
      ≡ chosen files_message (new_catalog.plural_func (pos 2)))
    × (get printf (add new_catalog files) (codes "file") none ≡ [])
get_plural-add_example =
    get_plural-add printf new_catalog files_message (codes "file") (pos 2) files-key

-- "%2$d bytes on %1$s, %5d%%".
abbrev swapped : List Part
swapped =
    position b'2' []
    ∷ literal (codes "d bytes on ")
    ∷ position b'1' []
    ∷ literal (codes "s, ")
    ∷ verb (codes "5")
    ∷ literal (codes "d")
    ∷ escaped
    ∷ []

parses :
    parse_fmt (codes "%2$d bytes on %1$s, %5d%%")
    ≡ (codes "%d bytes on %s, %5d%%", some (pos 2 ∷ pos 1 ∷ []))
unfolding parse_fmt parse_loop percent_or_end directive numbered before_percent from_percent
    digits_front after_digits is_digit parse_int digits_value
parses = refl

swapped-Separate : Separate swapped
unfolding is_digit
swapped-Separate = ((refl, tt), (refl, ((refl, tt), (refl, ((refl, tt), refl, refl, (refl, tt))))))

parse_fmt-source_example : parse_fmt (source swapped) ≡ (standard swapped, positions none swapped)
parse_fmt-source_example = parse_fmt-source swapped swapped-Separate

-- The positions 2 and 1 of two arguments: the second argument comes last, and none comes first.
sprintf-order_example :
    sprintf 0 printf (codes "%d %s") (some (pos 2 ∷ pos 1 ∷ [])) (10 ∷ 20 ∷ [])
    ≡ some (printf (codes "%d %s") (0 ∷ 20 ∷ []))
sprintf-order_example = sprintf-order 0 printf (10 ∷ 20 ∷ []) (codes "%d %s") (2 ∷ 1 ∷ [])
