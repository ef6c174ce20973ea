-- ===== src/Gettext/Mo/Writer.antt =====
-- gettext/mo.go: `MoWriter.Write`. A buffer is the list of the bytes written to it; a `uint32` is a number
-- modulo 2 ^ 32.
use sadbox.Prelude.{
  ℕ, ◌+◌, ◌*◌, ◌%◌, ◌^◌, false, Option, none, some, List, [], ◌∷◌, ◌++◌, Text, length,
}
use sadbox.Gettext.Bytes.{join_at}
use sadbox.Gettext.Bytes.Words.{put_words}
use sadbox.Gettext.Message
use sadbox.Gettext.Message.{Message, simple, plural}
use sadbox.Gettext.Catalog.{Catalog}
use sadbox.Gettext.Sorted.{sorted_messages}
use sadbox.Gettext.Mo.{ReadError}
use sadbox.Gettext.Mo.Reader.{magic_little_endian}

abbrev pub uint32 : ℕ → ℕ
uint32 n = n % 2 ^ 32

pub record MoMessageWriter : Type 0 where
  pub src : Text
  pub dst : Text
  pub src_idx : ℕ
  pub dst_idx : ℕ
  pub src_list : List ℕ
  pub dst_list : List ℕ

-- `ctx + "\\x04"`, or nothing.
abbrev pub ctx_prefix : Option Text → Text
ctx_prefix none = []
ctx_prefix (some ctx) = ctx ++ (4 ∷ [])

abbrev pub src_text : Message → Text
src_text (simple t) = t.src
src_text (plural t) = join_at 0 t.src

abbrev pub dst_text : Message → Text
dst_text (simple t) = t.dst
dst_text (plural t) = join_at 0 t.dst

-- The strings `src` and `dst` of `append`.
unfoldable pub entry_src : Message → Text
entry_src msg = ctx_prefix (Message.context msg) ++ src_text msg

unfoldable pub entry_dst : Message → Text
entry_dst msg = dst_text msg

unfoldable pub append : MoMessageWriter → Message → MoMessageWriter
append m msg =
    let s_len = uint32 (length (entry_src msg)) in
    let d_len = uint32 (length (entry_dst msg)) in
    record {
      src = m.src ++ entry_src msg ++ (0 ∷ []);
      dst = m.dst ++ entry_dst msg ++ (0 ∷ []);
      src_list = m.src_list ++ (s_len ∷ m.src_idx ∷ []);
      dst_list = m.dst_list ++ (d_len ∷ m.dst_idx ∷ []);
      src_idx = uint32 (m.src_idx + s_len + 1);
      dst_idx = uint32 (m.dst_idx + d_len + 1);
    }

-- The loop of `getHeader`, over the entries of the map in the order in which they are visited.
unfoldable pub header_text : List (Text × Text) → Text
header_text [] = []
header_text ((k, v) ∷ m) = k ++ b':' ∷ b' ' ∷ v ++ header_text m

unfoldable pub get_header : Catalog → Message
get_header c =
    simple (record { src = []; dst = header_text c.header; ctx = []; has_ctx = false; info = none })

unfoldable pub append_messages : MoMessageWriter → List Message → MoMessageWriter
append_messages m [] = m
append_messages m (msg ∷ msgs) = append_messages (append m msg) msgs

-- `m.dstList[i+1] += m.srcIdx` at every second place.
unfoldable pub shift_offsets : ℕ → List ℕ → List ℕ
shift_offsets by [] = []
shift_offsets by (len ∷ []) = len ∷ []
shift_offsets by (len ∷ idx ∷ l) = len ∷ uint32 (idx + by) ∷ shift_offsets by l

-- The number of messages with the header's.
unfoldable pub message_count : Catalog → ℕ
message_count c = length c.messages + 1

abbrev pub start_writer : ℕ → MoMessageWriter
start_writer src_idx = record {
  src = [];
  dst = [];
  src_idx = src_idx;
  dst_idx = 0;
  src_list = [];
  dst_list = [];
}

unfoldable pub new_mo_message_writer : Catalog → List ℕ × Text
new_mo_message_writer c =
    let start = start_writer (uint32 (28 + message_count c * 16)) in
    let m = append_messages (append start (get_header c)) (sorted_messages c.messages) in
    (m.src_list ++ shift_offsets m.src_idx m.dst_list, m.src ++ m.dst)

unfoldable pub file_table : Catalog → List ℕ
file_table c =
    magic_little_endian
    ∷ 0
    ∷ uint32 (message_count c)
    ∷ 28
    ∷ uint32 (28 + message_count c * 8)
    ∷ 0
    ∷ 0
    ∷ []

-- A sink takes bytes and gives its new state and the error of the write, if there is one.
module _ {ℓ κ} {W : Type ℓ} {E : Type κ} (sink : W → Text → W × Option E) where
  abbrev then_write : W × Option E → List Text → W × Option E
  then_write (w, some e) parts = (w, some e)
  then_write (w, none) [] = (w, none)
  then_write (w, none) (part ∷ parts) = then_write (sink w part) parts

  unfoldable pub write_mo : Catalog → W → W × Option E
  write_mo c w =
      let (idxs, msgs) = new_mo_message_writer c in
      then_write (w, none) (put_words (file_table c) ∷ put_words idxs ∷ msgs ∷ [])

-- A sink that keeps what is written and does not fail.
abbrev pub buffer : Text → Text → Text × Option ReadError
buffer w s = (w ++ s, none)

-- The file of a catalog.
abbrev pub file_of : Catalog → Text
file_of c = (write_mo buffer c []).0
