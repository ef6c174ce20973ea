-- ===== src/PluralForms/Printer/Lexes.antt =====
-- gettext/pluralforms: the pieces of a printed node, as the lexer reads them.
use sadbox.Prelude.{
  ℕ, ◌≡◌, refl, true, false, List, [], ◌∷◌, ◌++◌, Text, codes, arith, has_rune, ◌==◌,
}
use sadbox.PluralForms.Lexer.Reference.{take_in, drop_in, lex}
use sadbox.PluralForms.Lexer.{numbers, symbols, single_runes, not_empty, symbol_token}
use sadbox.PluralForms.Operators.{is_binary_op}
use sadbox.PluralForms.Printer.Digits.{AllIn}
use sadbox.PluralForms.Stream.Offers.{OffersFrom}
use sadbox.PluralForms.Token.{
  TokenType, Token, token, token_int, token_mul, token_div, token_mod, token_add, token_sub,
  token_eq, token_not_eq, token_gt, token_gte, token_lt, token_lte, token_or, token_and,
}

-- What does not go on a run of digits.
abbrev pub Separated : Text → Type 0
Separated [] = Unit
Separated (c ∷ cs) = has_rune numbers c ≡ false

-- What does not go on a run of symbols.
abbrev pub Plain : Text → Type 0
Plain [] = ⊥
Plain (c ∷ cs) = has_rune symbols c ≡ false

-- The lexer reads these tokens off the text.
pub data Lexes : Text → List Token → Type 0 where
  stop : {text : Text} → Lexes text []
  read :
      {text text' : Text} {t : Token} {ts : List Token}
      → lex text ≡ (t, text')
      → Lexes text' ts
      → Lexes text (t ∷ ts)

pub Lexes-OffersFrom : {text : Text} {ts : List Token} → Lexes text ts → OffersFrom [] text ts
Lexes-OffersFrom stop = tt
Lexes-OffersFrom (read e h) = rw e (refl, Lexes-OffersFrom h)

-- The text is read as these tokens, whatever follows that is no digit.
pub record LexesAs (text : Text) (tokens : List Token) : Type 0 where
  pub plain : Plain text
  pub reads :
      (rest : Text) (ts : List Token)
      → Separated rest
      → Lexes rest ts
      → Lexes (text ++ rest) (tokens ++ ts)

-- How the nodes write an operator.
abbrev pub op_text : TokenType → Text
op_text token_mul = codes "*"
op_text token_div = codes "/"
op_text token_mod = codes "%"
op_text token_add = codes "+"
op_text token_sub = codes "-"
op_text token_eq = codes "=="
op_text token_not_eq = codes "!="
op_text token_gt = codes ">"
op_text token_gte = codes ">="
op_text token_lt = codes "<"
op_text token_lte = codes "<="
op_text token_or = codes "||"
op_text token_and = codes "&&"
op_text _ = []

take_in-AllIn :
    (valid xs rest : Text)
    → AllIn valid xs
    → take_in valid rest ≡ []
    → take_in valid (xs ++ rest) ≡ xs
take_in-AllIn valid [] rest h e = e
take_in-AllIn valid (x ∷ xs) rest h e = rw (h.0, take_in-AllIn valid xs rest h.1 e)

drop_in-AllIn :
    (valid xs rest : Text)
    → AllIn valid xs
    → drop_in valid rest ≡ rest
    → drop_in valid (xs ++ rest) ≡ rest
drop_in-AllIn valid [] rest h e = e
drop_in-AllIn valid (x ∷ xs) rest h e = rw h.0 (drop_in-AllIn valid xs rest h.1 e)

take_in-Separated : (rest : Text) → Separated rest → take_in numbers rest ≡ []
take_in-Separated [] h = refl
take_in-Separated (c ∷ cs) h = rw h

drop_in-Separated : (rest : Text) → Separated rest → drop_in numbers rest ≡ rest
drop_in-Separated [] h = refl
drop_in-Separated (c ∷ cs) h = rw h

digit_rune :
    (d : ℕ)
    → has_rune numbers d ≡ true
    → ((d == b' ') ≡ false)
      × ((d == b'n') ≡ false)
      × (has_rune single_runes d ≡ false)
      × (has_rune symbols d ≡ false)
digit_rune d h = (ground arith, ground arith, ground arith, ground arith)

lex-digits :
    (d : ℕ) (ds rest : Text)
    → has_rune numbers d ≡ true
    → AllIn numbers ds
    → Separated rest
    → lex (d ∷ (ds ++ rest)) ≡ (record { typ = token_int; val = d ∷ ds }, rest)
unfolding lex
lex-digits d ds rest h k s =
    let (no_space, no_n, no_single, _) = digit_rune d h in
    rw (
      no_space,
      no_n,
      no_single,
      h,
      take_in-AllIn numbers ds rest k (take_in-Separated rest s),
      drop_in-AllIn numbers ds rest k (drop_in-Separated rest s),
    )

-- A number is one token.
pub LexesAs-digits :
    (ds : Text)
    → AllIn numbers ds
    → not_empty ds ≡ true
    → LexesAs ds (record { typ = token_int; val = ds } ∷ [])
LexesAs-digits [] h e = cc
LexesAs-digits (d ∷ ds) h e = record {
  plain = (digit_rune d h.0).3;
  reads = λ rest ts s o. read (lex-digits d ds rest h.0 h.1 s) o;
}

pub lex-op :
    (t : TokenType) (c : ℕ) (rest : Text)
    → is_binary_op t ≡ true
    → has_rune symbols c ≡ false
    → lex (op_text t ++ (c ∷ rest)) ≡ (token t, c ∷ rest)
unfolding lex is_binary_op symbol_token
lex-op token_mul c rest b h = refl
lex-op token_div c rest b h = refl
lex-op token_mod c rest b h = refl
lex-op token_add c rest b h = refl
lex-op token_sub c rest b h = refl
lex-op token_eq c rest b h = rw h
lex-op token_not_eq c rest b h = rw h
lex-op token_gt c rest b h = rw h
lex-op token_gte c rest b h = rw h
lex-op token_lt c rest b h = rw h
lex-op token_lte c rest b h = rw h
lex-op token_or c rest b h = rw h
lex-op token_and c rest b h = rw h
lex-op _ c rest b h = cc
