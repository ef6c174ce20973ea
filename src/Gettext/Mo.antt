-- ===== src/Gettext/Mo.antt =====
-- gettext/mo.go: the header of a file and its plural forms. A file is the list of its bytes. `lower` is
-- Unicode's `strings.ToLower` of strings with bytes beyond ASCII.
pub mod Reader
pub mod Writer
pub mod Reads
pub mod Layout
pub mod Written
pub mod Places
pub mod Tables
pub mod Entries
pub mod Found
pub mod RoundTrip
pub mod Truncated
pub mod Validity
use sadbox.Prelude.{
  ℕ, suc, Bool, true, false, ◌&&◌, Option, none, some, List, [], ◌∷◌, ◌++◌, Text, codes, text_eq,
  if◌then◌else◌, look, put,
}
use sadbox.PluralForms.Operators.{ParseError, Result}
use sadbox.PluralForms.Plural.{PluralFunc, parse_plural}
use sadbox.Gettext.Bytes.{cut_at, split_at, trim, to_lower, is_empty, runes}
use sadbox.Gettext.Catalog.{Catalog}

-- The errors of `Read`; `unparsed none` would be a parser that ran out of its fuel.
pub data ReadError : Type 0 where
  eof unexpected_eof unknown_byte_order : ReadError
  bad_revision : ℕ → ℕ → ReadError
  malformed_plural_forms : Text → ReadError
  unparsed : Option ParseError → ReadError

pub data Read {ℓ} (A : Type ℓ) : Type ℓ where
  ok : A → Read A
  err : ReadError → Read A

infixl 5 ◌>>=◌
abbrev pub ◌>>=◌ {ℓ κ} : {A : Type ℓ} {B : Type κ} → Read A → (A → Read B) → Read B
ok a >>= f = f a
err e >>= f = err e

-- A parser's answer as a reader's.
abbrev pub parsed : Result PluralFunc → Read PluralFunc
parsed (Result.ok f) = ok f
parsed (Result.failed e) = err (unparsed (some e))
parsed Result.out_of_fuel = err (unparsed none)

-- A part of the header value: the expression behind `plural=`.
abbrev plural_part : Option (Text × Text) → Option Text
plural_part none = none
plural_part (some (k, v)) = if text_eq (trim k) (codes "plural") then some v else none

-- The loop of `getPluralFunc`; the value of the whole header is for the error.
unfoldable pub find_plural : Text → List Text → Read PluralFunc
find_plural header [] = err (malformed_plural_forms header)
find_plural header (part ∷ parts) = elim (plural_part (cut_at b'=' part)) [
  | some v ↦ parsed (parse_plural (runes v))
  | none ↦ find_plural header parts
]

unfoldable pub get_plural_func : Text → Read PluralFunc
get_plural_func header = find_plural header (split_at b';' header)

-- The variables of `readMoHeader`.
pub record HeaderState : Type 0 where
  pub header : List (Text × Text)
  pub lastk : Text

-- `c.Header[lastk] += "\n" + line`; a key that is missing has the empty value.
abbrev or_nil : Option Text → Text
or_nil none = []
or_nil (some t) = t

abbrev continue_line : Text → HeaderState → HeaderState
continue_line line s = if is_empty s.lastk then s else record s {
  header = put text_eq s.header s.lastk (or_nil (look text_eq s.header s.lastk) ++ 10 ∷ line);
}

module _ (lower : Text → Text) where
  abbrev set_field : Text → Text → HeaderState → HeaderState
  set_field before after s =
      let k = to_lower lower (trim before) in
      record s { header = put text_eq s.header k (trim after); lastk = k }

  -- The body of the loop, on a line that is trimmed.
  unfoldable pub header_line : Text → HeaderState → HeaderState
  header_line line s = if is_empty line then s else elim (cut_at b':' line) [
    | some (before, after) ↦ set_field before after s
    | none ↦ continue_line line s
  ]

  unfoldable pub header_lines : List Text → HeaderState → HeaderState
  header_lines [] s = s
  header_lines (line ∷ lines) s = header_lines lines (header_line (trim line) s)

  unfoldable pub read_mo_header : Catalog → Text → Catalog
  read_mo_header c header = record c {
    header = (header_lines (split_at 10 header) (record { header = c.header; lastk = [] })).header;
  }
