-- ===== src/Gettext/Mo/Written.antt =====
-- gettext/mo.go: the bytes that the writer lays out, without wrap-around while the file is below 4 GB.
use sadbox.Prelude.{
  ℕ, ◌+◌, ◌*◌, ◌<◌, ◌≡◌, refl, ◌∙◌, List, [], ◌∷◌, ◌++◌, map, append_assoc, append-nil, Text, arith,
  length, length-append,
}
use native.Mathlib.Nat.{add-zero, zero-add}
use sadbox.Gettext.Message.{Message}
use sadbox.Gettext.Catalog.{Catalog}
use sadbox.Gettext.Sorted.{sorted_messages}
use sadbox.Gettext.Mo.Writer.{
  MoMessageWriter, uint32, append, append_messages, start_writer, entry_src, entry_dst,
  shift_offsets, get_header, message_count, new_mo_message_writer,
}
use sadbox.Gettext.Mo.Reads.{max_uint32}
use sadbox.Gettext.Mo.Layout.{strings, table}

pub uint32_id : (n : ℕ) → n < max_uint32 → uint32 n ≡ n
uint32_id n h = omega arith

-- A buffer, the offset behind it and the table of what is in it.
pub record Column : Type 0 where
  pub buf : Text
  pub idx : ℕ
  pub list : List ℕ

abbrev pub put_string : Column → Text → Column
put_string c s = record {
  buf = c.buf ++ s ++ (0 ∷ []);
  idx = uint32 (c.idx + uint32 (length s) + 1);
  list = c.list ++ (uint32 (length s) ∷ c.idx ∷ []);
}

abbrev pub put_strings : Column → List Text → Column
put_strings c [] = c
put_strings c (s ∷ ss) = put_strings (put_string c s) ss

length-strings :
    (s : Text) (ss : List Text) → length (strings (s ∷ ss)) ≡ length s + 1 + length (strings ss)
length-strings s ss = omega (arith, length-append s (0 ∷ strings ss))

-- A column without wrap-around.
abbrev exact : Column → Text → Column
exact c s = record {
  buf = c.buf ++ s ++ (0 ∷ []);
  idx = c.idx + length s + 1;
  list = c.list ++ (length s ∷ c.idx ∷ []);
}

put_string_lem :
    (c : Column) (s : Text) → c.idx + length s + 1 < max_uint32 → put_string c s ≡ exact c s
put_string_lem c s h =
    rw (uint32_id (length s) (omega arith), uint32_id (c.idx + length s + 1) h) refl

abbrev written : Column → List Text → Column
written c ss = record {
  buf = c.buf ++ strings ss;
  idx = c.idx + length (strings ss);
  list = c.list ++ table c.idx ss;
}

written-exact :
    (c : Column) (s : Text) (ss : List Text) → written (exact c s) ss ≡ written c (s ∷ ss)
written-exact c s ss =
    let same : c.idx + length s + 1 + length (strings ss) ≡ c.idx + length (strings (s ∷ ss)) =
      omega (arith, length-strings s ss) in
    simp (append_assoc, same)

put_strings_lem :
    (c : Column) (ss : List Text)
    → c.idx + length (strings ss) < max_uint32
    → put_strings c ss ≡ written c ss
put_strings_lem c [] h = simp (append-nil, add-zero)
put_strings_lem c (s ∷ ss) h =
    rw (put_string_lem c s (omega (arith, length-strings s ss)))
      (put_strings_lem (exact c s) ss (omega (arith, length-strings s ss)) ∙ written-exact c s ss)

-- The two columns of the writer.
abbrev src_column : MoMessageWriter → Column
src_column m = record { buf = m.src; idx = m.src_idx; list = m.src_list }

abbrev dst_column : MoMessageWriter → Column
dst_column m = record { buf = m.dst; idx = m.dst_idx; list = m.dst_list }

append_messages-src :
    (m : MoMessageWriter) (msgs : List Message)
    → src_column (append_messages m msgs) ≡ put_strings (src_column m) (map entry_src msgs)
unfolding append_messages append
append_messages-src m [] = refl
append_messages-src m (msg ∷ msgs) = append_messages-src (append m msg) msgs

append_messages-dst :
    (m : MoMessageWriter) (msgs : List Message)
    → dst_column (append_messages m msgs) ≡ put_strings (dst_column m) (map entry_dst msgs)
unfolding append_messages append
append_messages-dst m [] = refl
append_messages-dst m (msg ∷ msgs) = append_messages-dst (append m msg) msgs

shift_offsets-table :
    (by n : ℕ) (ss : List Text)
    → n + by + length (strings ss) < max_uint32
    → shift_offsets by (table n ss) ≡ table (n + by) ss
unfolding shift_offsets
shift_offsets-table by n [] h = refl
shift_offsets-table by n (s ∷ ss) h =
    let place : n + length s + 1 + by ≡ n + by + length s + 1 = omega arith in
    rw
      (
        uint32_id (n + by) (omega (arith, length-strings s ss)),
        shift_offsets-table by (n + length s + 1) ss (omega (arith, length-strings s ss)),
        place,
      )
      refl

-- The entries of a catalog's file: the header's in front.
abbrev pub file_messages : Catalog → List Message
file_messages c = get_header c ∷ sorted_messages c.messages

abbrev pub sources : Catalog → List Text
sources c = map entry_src (file_messages c)

abbrev pub translations : Catalog → List Text
translations c = map entry_dst (file_messages c)

-- Where the texts stand in the file.
abbrev pub src_place : Catalog → ℕ
src_place c = 28 + message_count c * 16

abbrev pub dst_place : Catalog → ℕ
dst_place c = src_place c + length (strings (sources c))

abbrev pub file_size : Catalog → ℕ
file_size c = dst_place c + length (strings (translations c))

-- What the writer merges its columns to.
abbrev merged : Column → Column → List ℕ × Text
merged a b = (a.list ++ shift_offsets a.idx b.list, a.buf ++ b.buf)

abbrev column_at : ℕ → Column
column_at n = record { buf = []; idx = n; list = [] }

new_mo_message_writer-merged :
    (c : Catalog)
    → uint32 (src_place c) ≡ src_place c
    → new_mo_message_writer c
      ≡ merged
          (put_strings (column_at (src_place c)) (sources c))
          (put_strings (column_at 0) (translations c))
unfolding new_mo_message_writer append_messages
new_mo_message_writer-merged c h =
    rw
      (
        new_mo_message_writer,
        h,
        ← append_messages-src (start_writer (src_place c)) (file_messages c),
        ← append_messages-dst (start_writer (src_place c)) (file_messages c),
      )
      refl

pub new_mo_message_writer_lem :
    (c : Catalog)
    → file_size c < max_uint32
    → new_mo_message_writer c ≡ (
      table (src_place c) (sources c) ++ table (dst_place c) (translations c),
      strings (sources c) ++ strings (translations c),
    )
new_mo_message_writer_lem c h =
    rw
      (
        new_mo_message_writer-merged c (uint32_id _ (omega arith)),
        put_strings_lem (column_at (src_place c)) (sources c) (omega arith),
        put_strings_lem (column_at 0) (translations c) (omega arith),
        shift_offsets-table (dst_place c) 0 (translations c) (omega arith),
        zero-add,
      )
      refl
