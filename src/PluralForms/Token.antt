-- ===== src/PluralForms/Token.antt =====
-- gettext/pluralforms/lexer.go: the tokens, and the table that finds a token by its spelling.
use sadbox.Prelude.{ℕ, Bool, List, [], ◌∷◌, Text, codes, ◌==◌}

-- The constants, in the order of `iota`.
pub data TokenType : Type 0 where
  token_error token_eof token_bool token_int token_var : TokenType
  token_mul token_div token_mod token_add token_sub : TokenType
  token_eq token_not_eq token_gt token_gte token_lt token_lte : TokenType
  token_or token_and token_if token_else token_not : TokenType
  token_left_paren token_right_paren : TokenType

-- The number that `iota` gives a constant.
abbrev pub iota : TokenType → ℕ
iota token_error = 0
iota token_eof = 1
iota token_bool = 2
iota token_int = 3
iota token_var = 4
iota token_mul = 5
iota token_div = 6
iota token_mod = 7
iota token_add = 8
iota token_sub = 9
iota token_eq = 10
iota token_not_eq = 11
iota token_gt = 12
iota token_gte = 13
iota token_lt = 14
iota token_lte = 15
iota token_or = 16
iota token_and = 17
iota token_if = 18
iota token_else = 19
iota token_not = 20
iota token_left_paren = 21
iota token_right_paren = 22

-- `==` on token types compares those numbers.
abbrev pub same : TokenType → TokenType → Bool
same t u = iota t == iota u

pub record Token : Type 0 where
  pub typ : TokenType
  pub val : Text

abbrev pub token : TokenType → Token
token t = record { typ = t; val = [] }

abbrev pub string_to_token : List (Text × TokenType)
string_to_token =
    (codes "*", token_mul)
    ∷ (codes "/", token_div)
    ∷ (codes "%", token_mod)
    ∷ (codes "+", token_add)
    ∷ (codes "-", token_sub)
    ∷ (codes "==", token_eq)
    ∷ (codes "!=", token_not_eq)
    ∷ (codes ">", token_gt)
    ∷ (codes ">=", token_gte)
    ∷ (codes "<", token_lt)
    ∷ (codes "<=", token_lte)
    ∷ (codes "||", token_or)
    ∷ (codes "&&", token_and)
    ∷ (codes "?", token_if)
    ∷ (codes ":", token_else)
    ∷ (codes "!", token_not)
    ∷ (codes "(", token_left_paren)
    ∷ (codes ")", token_right_paren)
    ∷ []
