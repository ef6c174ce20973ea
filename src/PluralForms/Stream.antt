-- ===== src/PluralForms/Stream.antt =====
-- gettext/pluralforms/lexer.go: tokenStream, the tokens of a lexer with those that were put back.
pub mod Stack
pub mod Offers
use sadbox.Prelude.{
  ℕ, ◌+◌, ◌-◌, List, ◌++◌, Text, ◌==◌, leb, if◌then◌else◌, length, get_or, set, replicate,
}
use sadbox.PluralForms.Lexer.{Lexer, new_lexer, next}
use sadbox.PluralForms.Token.{Token, token, token_error}

pub record TokenStream : Type 0 where
  pub lexer : Lexer
  pub tokens : List Token
  pub count : ℕ

-- The zero value of a token, which fills a new array.
abbrev pub zero_token : Token
zero_token = token token_error

unfoldable pub new_token_stream : Text → TokenStream
new_token_stream expr = record {
  lexer = new_lexer expr;
  tokens = replicate 5 zero_token;
  count = 0;
}

unfoldable pub pop : TokenStream → Token × TokenStream
pop s =
    if s.count == 0
    then ((next s.lexer).0, record s { lexer = (next s.lexer).1 })
    else (get_or s.tokens (s.count - 1) zero_token, record s { count = s.count - 1 })

-- The array that `push` stores into: one of twice the size where the array is full.
unfoldable pub grown : TokenStream → List Token
grown s =
    if leb (length s.tokens) s.count
    then s.tokens ++ replicate (length s.tokens) zero_token
    else s.tokens

unfoldable pub push : TokenStream → Token → TokenStream
push s t = record s { tokens = set (grown s) s.count t; count = s.count + 1 }
