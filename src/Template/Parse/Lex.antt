-- ===== src/Template/Parse/Lex.antt =====
-- template/parse/lex.go: the lexer. A text is the list of its runes, and a position counts runes. The lexer
-- holds the text of the item that it is at and the text ahead, which the source slices from the input. The
-- loops count the runes that they pass. `backup` is the lexer as it was before the rune was read. The items
-- that go to the channel are a list.
pub mod Scan
pub mod Actions
pub mod Slices
pub mod Words
pub mod Moves
pub mod Runs
pub mod Items
pub mod Final
pub mod Lines
pub mod Less
pub mod Falls
pub mod Total
use sadbox.Prelude.{
  ℕ, suc, ◌+◌, Bool, true, false, Option, none, some, List, [], ◌∷◌, ◌++◌, Text, codes, ◌==◌,
  if◌then◌else◌, length, take, drop, text_lookup,
}

pub data ItemType : Type 0 where
  item_bool item_char item_char_constant item_complex item_colon_equals item_eof : ItemType
  item_field item_identifier item_left_delim item_number item_pipe item_raw_string : ItemType
  item_right_delim item_string item_text item_variable : ItemType
  item_dot item_define item_else item_end item_if item_nil item_range : ItemType
  item_template item_with item_block item_fill : ItemType

-- What `errorf` says.
pub data LexError : Type 0 where
  unclosed_comment unclosed_action expected_colon_equals : LexError
  unrecognized_character bad_character : ℕ → LexError
  unterminated_character_constant unterminated_quoted_string unterminated_raw_quoted_string :
      LexError
  bad_number_syntax : Text → LexError

-- An item with its position and its text, or an error item.
pub data Item : Type 0 where
  item : ItemType → ℕ → Text → Item
  item_error : ℕ → LexError → Item

abbrev pub keywords : List (Text × ItemType)
keywords =
    (codes ".", item_dot)
    ∷ (codes "define", item_define)
    ∷ (codes "else", item_else)
    ∷ (codes "end", item_end)
    ∷ (codes "if", item_if)
    ∷ (codes "range", item_range)
    ∷ (codes "nil", item_nil)
    ∷ (codes "template", item_template)
    ∷ (codes "with", item_with)
    ∷ (codes "block", item_block)
    ∷ (codes "fill", item_fill)
    ∷ []

-- The state functions.
pub data StateFn : Type 0 where
  lex_text lex_left_delim lex_comment lex_right_delim lex_inside_action : StateFn
  lex_identifier lex_char lex_number lex_quote lex_raw_quote : StateFn

pub record TemplateLexer : Type 0 where
  pub start : ℕ
  pub pending : Text
  pub ahead : Text
  pub items : List Item

-- `l.pos += n`.
unfoldable pub advance : ℕ → TemplateLexer → TemplateLexer
advance n l = record l { pending = l.pending ++ take n l.ahead; ahead = drop n l.ahead }

unfoldable pub emit : ItemType → TemplateLexer → TemplateLexer
emit t l = record l {
  start = l.start + length l.pending;
  pending = [];
  items = l.items ++ (item t l.start l.pending ∷ []);
}

unfoldable pub ignore : TemplateLexer → TemplateLexer
ignore l = record l { start = l.start + length l.pending; pending = [] }

-- A state function's answer: the next state, if there is one, and the lexer.
abbrev pub Next : Type 0
Next = Option StateFn × TemplateLexer

unfoldable pub errorf : LexError → TemplateLexer → Next
errorf e l = (none, record l { items = l.items ++ (item_error l.start e ∷ []) })

abbrev pub emit_then : ItemType → StateFn → TemplateLexer → Next
emit_then t s l = (some s, emit t l)

-- The delimiters of a lexer.
pub record Delims : Type 0 where
  pub left : Text
  pub right : Text

abbrev or_default : Text → Text → Text
or_default [] d = d
or_default (c ∷ s) d = c ∷ s

-- `lex`, without the goroutine.
unfoldable pub new_delims : Text → Text → Delims
new_delims left right = record {
  left = or_default left (codes "{{");
  right = or_default right (codes "}}");
}

unfoldable pub new_template_lexer : Text → TemplateLexer
new_template_lexer input = record { start = 0; pending = []; ahead = input; items = [] }
