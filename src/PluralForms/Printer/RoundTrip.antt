-- ===== src/PluralForms/Printer/RoundTrip.antt =====
-- gettext/pluralforms/parser.go: a printed node parses back to itself.
use sadbox.Prelude.{ℕ, ◌+◌, ◌<◌, ◌≡◌, refl, ap, true, append-nil, List, [], ◌∷◌, ◌++◌, arith, ltb}
use sadbox.Prelude.Int.{pos, negsuc, int_half}
use sadbox.PluralForms.Grammar.Decides.{Writes, parse-eq-ok_iff}
use sadbox.PluralForms.Grammar.{Derives, value, group, unary, binary, conditional}
use sadbox.PluralForms.Node.{
  Node, error_node, bool_node, int_node, var_node, not_node, mul_node, div_node, mod_node, add_node,
  sub_node, eq_node, not_eq_node, gt_node, gte_node, lt_node, lte_node, or_node, and_node, if_node,
}
use sadbox.PluralForms.Operators.{
  ok, precedence, is_binary_op, is_unary_op, is_value, new_binary_op_node, new_unary_op_node,
  new_value_node, int_literal,
}
use sadbox.PluralForms.Parser.{parse}
use sadbox.PluralForms.Printer.Digits.{digits-decimal}
use sadbox.PluralForms.Printer.Lexes.{LexesAs, LexesAs-digits, Lexes-OffersFrom, read, stop}
use sadbox.PluralForms.Printer.Pieces.{
  group_tokens, LexesAs-var, LexesAs-infix, LexesAs-not, LexesAs-if,
}
use sadbox.PluralForms.Printer.{digits, string}
use sadbox.PluralForms.Token.{
  TokenType, Token, token, token_eof, token_int, token_var, token_not, token_if, token_else,
  token_mul, token_div, token_mod, token_add, token_sub, token_eq, token_not_eq, token_gt,
  token_gte, token_lt, token_lte, token_or, token_and,
}
use sadbox.PluralForms.Lexer.Reference.{lex}

-- The nodes that have a text: no error, no Boolean, and no negative number, none of which a parse
-- of digits gives.
abbrev pub IsPrintable : Node → Type 0
IsPrintable error_node = ⊥
IsPrintable (bool_node b) = ⊥
IsPrintable (int_node (pos k)) = k < int_half
IsPrintable (int_node (negsuc k)) = ⊥
IsPrintable var_node = Unit
IsPrintable (not_node n) = IsPrintable n
IsPrintable (mul_node n m) = IsPrintable n × IsPrintable m
IsPrintable (div_node n m) = IsPrintable n × IsPrintable m
IsPrintable (mod_node n m) = IsPrintable n × IsPrintable m
IsPrintable (add_node n m) = IsPrintable n × IsPrintable m
IsPrintable (sub_node n m) = IsPrintable n × IsPrintable m
IsPrintable (eq_node n m) = IsPrintable n × IsPrintable m
IsPrintable (not_eq_node n m) = IsPrintable n × IsPrintable m
IsPrintable (gt_node n m) = IsPrintable n × IsPrintable m
IsPrintable (gte_node n m) = IsPrintable n × IsPrintable m
IsPrintable (lt_node n m) = IsPrintable n × IsPrintable m
IsPrintable (lte_node n m) = IsPrintable n × IsPrintable m
IsPrintable (or_node n m) = IsPrintable n × IsPrintable m
IsPrintable (and_node n m) = IsPrintable n × IsPrintable m
IsPrintable (if_node c n m) = IsPrintable c × IsPrintable n × IsPrintable m

abbrev infix_tokens : TokenType → List Token → List Token → List Token
infix_tokens t ts us = group_tokens (ts ++ (token t ∷ us))

-- The tokens of a printed node.
abbrev pub string_tokens : Node → List Token
string_tokens error_node = []
string_tokens (bool_node b) = []
string_tokens (int_node (pos k)) = record { typ = token_int; val = digits k } ∷ []
string_tokens (int_node (negsuc k)) = []
string_tokens var_node = token token_var ∷ []
string_tokens (not_node n) = group_tokens (token token_not ∷ string_tokens n)
string_tokens (mul_node n m) = infix_tokens token_mul (string_tokens n) (string_tokens m)
string_tokens (div_node n m) = infix_tokens token_div (string_tokens n) (string_tokens m)
string_tokens (mod_node n m) = infix_tokens token_mod (string_tokens n) (string_tokens m)
string_tokens (add_node n m) = infix_tokens token_add (string_tokens n) (string_tokens m)
string_tokens (sub_node n m) = infix_tokens token_sub (string_tokens n) (string_tokens m)
string_tokens (eq_node n m) = infix_tokens token_eq (string_tokens n) (string_tokens m)
string_tokens (not_eq_node n m) = infix_tokens token_not_eq (string_tokens n) (string_tokens m)
string_tokens (gt_node n m) = infix_tokens token_gt (string_tokens n) (string_tokens m)
string_tokens (gte_node n m) = infix_tokens token_gte (string_tokens n) (string_tokens m)
string_tokens (lt_node n m) = infix_tokens token_lt (string_tokens n) (string_tokens m)
string_tokens (lte_node n m) = infix_tokens token_lte (string_tokens n) (string_tokens m)
string_tokens (or_node n m) = infix_tokens token_or (string_tokens n) (string_tokens m)
string_tokens (and_node n m) = infix_tokens token_and (string_tokens n) (string_tokens m)
string_tokens (if_node c n m) = group_tokens (
    string_tokens c ++ (token token_if ∷ (string_tokens n ++ (token token_else ∷ string_tokens m))))

pub string-LexesAs : (n : Node) → IsPrintable n → LexesAs (string n) (string_tokens n)
unfolding string is_binary_op
string-LexesAs error_node h = absurd h
string-LexesAs (bool_node b) h = absurd h
string-LexesAs (int_node (pos k)) h =
    let (all, some_digit, _) = digits-decimal k in LexesAs-digits (digits k) all some_digit
string-LexesAs (int_node (negsuc k)) h = absurd h
string-LexesAs var_node h = LexesAs-var
string-LexesAs (not_node n) h = LexesAs-not (string-LexesAs n h)
string-LexesAs (mul_node n m) h =
    LexesAs-infix (string-LexesAs n h.0) (string-LexesAs m h.1) token_mul refl
string-LexesAs (div_node n m) h =
    LexesAs-infix (string-LexesAs n h.0) (string-LexesAs m h.1) token_div refl
string-LexesAs (mod_node n m) h =
    LexesAs-infix (string-LexesAs n h.0) (string-LexesAs m h.1) token_mod refl
string-LexesAs (add_node n m) h =
    LexesAs-infix (string-LexesAs n h.0) (string-LexesAs m h.1) token_add refl
string-LexesAs (sub_node n m) h =
    LexesAs-infix (string-LexesAs n h.0) (string-LexesAs m h.1) token_sub refl
string-LexesAs (eq_node n m) h =
    LexesAs-infix (string-LexesAs n h.0) (string-LexesAs m h.1) token_eq refl
string-LexesAs (not_eq_node n m) h =
    LexesAs-infix (string-LexesAs n h.0) (string-LexesAs m h.1) token_not_eq refl
string-LexesAs (gt_node n m) h =
    LexesAs-infix (string-LexesAs n h.0) (string-LexesAs m h.1) token_gt refl
string-LexesAs (gte_node n m) h =
    LexesAs-infix (string-LexesAs n h.0) (string-LexesAs m h.1) token_gte refl
string-LexesAs (lt_node n m) h =
    LexesAs-infix (string-LexesAs n h.0) (string-LexesAs m h.1) token_lt refl
string-LexesAs (lte_node n m) h =
    LexesAs-infix (string-LexesAs n h.0) (string-LexesAs m h.1) token_lte refl
string-LexesAs (or_node n m) h =
    LexesAs-infix (string-LexesAs n h.0) (string-LexesAs m h.1) token_or refl
string-LexesAs (and_node n m) h =
    LexesAs-infix (string-LexesAs n h.0) (string-LexesAs m h.1) token_and refl
string-LexesAs (if_node c n m) h =
    LexesAs-if (string-LexesAs c h.0) (string-LexesAs n h.1) (string-LexesAs m h.2)

Derives-infix :
    {ts us : List Token} {n m b : Node} (prec : ℕ) (t : TokenType)
    → is_binary_op t ≡ true
    → new_binary_op_node t n m ≡ ok b
    → ((p : ℕ) → Derives p ts n)
    → ((p : ℕ) → Derives p us m)
    → Derives prec (infix_tokens t ts us) b
Derives-infix prec t h made d e =
    group _ _ refl refl
      (binary (token t) h (omega arith) (d (precedence t)) (e (precedence t + 1)) made)

int_literal-digits : (k : ℕ) → k < int_half → int_literal (digits k) ≡ int_node (pos k)
unfolding int_literal
int_literal-digits k h =
    let (_, _, read_back) = digits-decimal k in
    let fits : ltb k int_half ≡ true = ground arith in rw (read_back, fits)

Derives-int :
    (prec k : ℕ) → k < int_half → Derives prec (string_tokens (int_node (pos k))) (int_node (pos k))
unfolding is_value new_value_node
Derives-int prec k h = value _ refl (ap ok (int_literal-digits k h))

pub string-Derives : (n : Node) → IsPrintable n → (prec : ℕ) → Derives prec (string_tokens n) n
unfolding is_binary_op is_unary_op is_value new_value_node new_unary_op_node new_binary_op_node
string-Derives error_node h prec = absurd h
string-Derives (bool_node b) h prec = absurd h
string-Derives (int_node (pos k)) h prec = Derives-int prec k h
string-Derives (int_node (negsuc k)) h prec = absurd h
string-Derives var_node h prec = value _ refl refl
string-Derives (not_node n) h prec =
    group _ _ refl refl (unary (token token_not) refl (string-Derives n h _) refl)
string-Derives (mul_node n m) h prec =
    Derives-infix prec token_mul refl refl (string-Derives n h.0) (string-Derives m h.1)
string-Derives (div_node n m) h prec =
    Derives-infix prec token_div refl refl (string-Derives n h.0) (string-Derives m h.1)
string-Derives (mod_node n m) h prec =
    Derives-infix prec token_mod refl refl (string-Derives n h.0) (string-Derives m h.1)
string-Derives (add_node n m) h prec =
    Derives-infix prec token_add refl refl (string-Derives n h.0) (string-Derives m h.1)
string-Derives (sub_node n m) h prec =
    Derives-infix prec token_sub refl refl (string-Derives n h.0) (string-Derives m h.1)
string-Derives (eq_node n m) h prec =
    Derives-infix prec token_eq refl refl (string-Derives n h.0) (string-Derives m h.1)
string-Derives (not_eq_node n m) h prec =
    Derives-infix prec token_not_eq refl refl (string-Derives n h.0) (string-Derives m h.1)
string-Derives (gt_node n m) h prec =
    Derives-infix prec token_gt refl refl (string-Derives n h.0) (string-Derives m h.1)
string-Derives (gte_node n m) h prec =
    Derives-infix prec token_gte refl refl (string-Derives n h.0) (string-Derives m h.1)
string-Derives (lt_node n m) h prec =
    Derives-infix prec token_lt refl refl (string-Derives n h.0) (string-Derives m h.1)
string-Derives (lte_node n m) h prec =
    Derives-infix prec token_lte refl refl (string-Derives n h.0) (string-Derives m h.1)
string-Derives (or_node n m) h prec =
    Derives-infix prec token_or refl refl (string-Derives n h.0) (string-Derives m h.1)
string-Derives (and_node n m) h prec =
    Derives-infix prec token_and refl refl (string-Derives n h.0) (string-Derives m h.1)
string-Derives (if_node c n m) h prec = group _ _ refl refl (
    conditional _ _ refl refl refl (string-Derives c h.0 1) (string-Derives n h.1 0)
      (string-Derives m h.2 0))

pub lex_end : lex [] ≡ (token token_eof, [])
unfolding lex
lex_end = refl

string-Writes : (n : Node) → IsPrintable n → Writes (string n) n
string-Writes n h = record {
  tokens = string_tokens n;
  last = token token_eof;
  last_eof = refl;
  lexes = Lexes-OffersFrom (
      rw append-nil at
        ((string-LexesAs n h).reads [] (token token_eof ∷ []) tt (read lex_end stop)));
  derives = string-Derives n h 0;
}

-- Parsing what a node prints gives the node, for every node that has a text.
pub parse-string : (n : Node) → IsPrintable n → parse (string n) ≡ ok n
parse-string n h = (parse-eq-ok_iff (string n) n).1 (string-Writes n h)
