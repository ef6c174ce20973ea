-- ===== src/PluralForms/Printer/Pieces.antt =====
-- gettext/pluralforms: what each `String` method prints is read as one group of tokens.
use sadbox.Prelude.{◌≡◌, refl, true, List, [], ◌∷◌, ◌++◌, append_assoc, Text, arith, codes}
use sadbox.PluralForms.Lexer.Reference.{lex}
use sadbox.PluralForms.Lexer.{symbol_token}
use sadbox.PluralForms.Operators.{is_binary_op}
use sadbox.PluralForms.Printer.Lexes.{Separated, Plain, LexesAs, op_text, read, lex-op}
use sadbox.PluralForms.Printer.{infix_string}
use sadbox.PluralForms.Token.{
  TokenType, Token, token, token_error, token_var, token_not, token_left_paren, token_right_paren,
  token_if, token_else,
}

abbrev pub group_tokens : List Token → List Token
group_tokens ts = token token_left_paren ∷ (ts ++ (token token_right_paren ∷ []))

lex_left_paren : (rest : Text) → lex (b'(' ∷ rest) ≡ (token token_left_paren, rest)
unfolding lex
lex_left_paren rest = refl

lex_right_paren : (rest : Text) → lex (b')' ∷ rest) ≡ (token token_right_paren, rest)
unfolding lex
lex_right_paren rest = refl

lex_if : (rest : Text) → lex (b'?' ∷ rest) ≡ (token token_if, rest)
unfolding lex
lex_if rest = refl

lex_else : (rest : Text) → lex (b':' ∷ rest) ≡ (token token_else, rest)
unfolding lex
lex_else rest = refl

lex_var : (rest : Text) → lex (b'n' ∷ rest) ≡ (token token_var, rest)
unfolding lex
lex_var rest = refl

pub LexesAs-var : LexesAs (codes "n") (token token_var ∷ [])
LexesAs-var = record { plain = refl; reads = λ rest us s o. read (lex_var rest) o }

-- An operator in front of an operand.
pub lex-op-Plain :
    (t : TokenType) (b rest : Text)
    → is_binary_op t ≡ true
    → Plain b
    → lex (op_text t ++ (b ++ rest)) ≡ (token t, b ++ rest)
lex-op-Plain t [] rest h p = absurd p
lex-op-Plain t (c ∷ b) rest h p = lex-op t c (b ++ rest) h p

lex-not-Plain : (b rest : Text) → Plain b → lex (b'!' ∷ (b ++ rest)) ≡ (token token_not, b ++ rest)
unfolding lex symbol_token
lex-not-Plain [] rest p = absurd p
lex-not-Plain (c ∷ b) rest p = rw p

pub Separated-op :
    (t : TokenType) (rest : Text) → is_binary_op t ≡ true → Separated (op_text t ++ rest)
unfolding is_binary_op
Separated-op token_error rest h = cc
Separated-op _ rest h = ground arith

module _ {a b : Text} {ts bs : List Token} (la : LexesAs a ts) (lb : LexesAs b bs) where
  pub LexesAs-infix :
      (t : TokenType)
      → is_binary_op t ≡ true
      → LexesAs (infix_string (op_text t) a b) (group_tokens (ts ++ (token t ∷ bs)))
  LexesAs-infix t h = record {
    plain = refl;
    reads = λ rest us s o. simp append_assoc (
        read (lex_left_paren _) (
          la.reads _ _ (Separated-op t _ h) (
            read (lex-op-Plain t b _ h lb.plain) (
              lb.reads (b')' ∷ rest) (token token_right_paren ∷ us) refl
                (read (lex_right_paren rest) o)))));
  }

pub LexesAs-not :
    {a : Text} {ts : List Token}
    → LexesAs a ts
    → LexesAs (b'(' ∷ b'!' ∷ (a ++ (b')' ∷ []))) (group_tokens (token token_not ∷ ts))
LexesAs-not {a} la = record {
  plain = refl;
  reads = λ rest us s o. simp append_assoc (
      read (lex_left_paren _) (
        read (lex-not-Plain a _ la.plain) (
          la.reads (b')' ∷ rest) (token token_right_paren ∷ us) refl
            (read (lex_right_paren rest) o))));
}

pub LexesAs-if :
    {a b c : Text} {ts bs cs : List Token}
    → LexesAs a ts
    → LexesAs b bs
    → LexesAs c cs
    → LexesAs
        (b'(' ∷ (a ++ (b'?' ∷ (b ++ (b':' ∷ (c ++ (b')' ∷ [])))))))
        (group_tokens (ts ++ (token token_if ∷ (bs ++ (token token_else ∷ cs)))))
LexesAs-if la lb lc = record {
  plain = refl;
  reads = λ rest us s o. simp append_assoc (
      read (lex_left_paren _) (
        la.reads _ _ refl (
          read (lex_if _) (
            lb.reads _ _ refl (
              read (lex_else _) (
                lc.reads (b')' ∷ rest) (token token_right_paren ∷ us) refl
                  (read (lex_right_paren rest) o)))))));
}
