-- ===== src/PluralForms/Grammar/Complete/Primaries.antt =====
-- gettext/pluralforms/parser.go: values, groups and the operand of `!` are read by `parsePrimary`.
use Prim.Native.Nat.{max}
use sadbox.Prelude.{
  ℕ, zero, suc, ◌+◌, ◌≡◌, ap, ◌∙◌, true, false, List, [], ◌∷◌, ◌++◌, append_assoc, arith,
}
use sadbox.PluralForms.Grammar.Complete.Front.{
  front, Stops-unary, operand-Success, expect-Front, breaks_right_paren, unary_left_paren,
}
use sadbox.PluralForms.Grammar.Complete.Results.{ReadsPrimary, ReadsOperand, ReadsWhole}
use sadbox.PluralForms.Grammar.Tokens.{weight-value, weight-unary}
use sadbox.PluralForms.Lexer.Progress.{weight}
use sadbox.PluralForms.Node.{Node}
use sadbox.PluralForms.Operators.{
  ok, precedence, is_unary_op, is_value, new_unary_op_node, new_value_node,
}
use sadbox.PluralForms.Parser.{breaks, parse_expression}
use sadbox.PluralForms.Stream.{pop}
use sadbox.PluralForms.Token.{
  TokenType, Token, token_error, token_if, token_left_paren, token_right_paren, same,
}

-- A primary is an operand of every precedence.
pub ReadsPrimary-operand :
    (level : ℕ) (ts : List Token) (n : Node) → ReadsPrimary ts n → ReadsOperand level ts n
unfolding parse_expression
ReadsPrimary-operand level ts n h prec rest zero s p e v o f = absurd (omega arith)
ReadsPrimary-operand level ts n h prec rest (suc k) s p e v o f =
    let x = h rest k s (Stops-unary 6 rest (max level 1 + 1) (omega arith) e) v o (omega arith) in
    record {
      loop_fuel = k;
      fuel = k;
      behind = x.behind;
      valid = x.valid;
      offers = x.offers;
      shrinks = x.shrinks;
      enough_loop = omega arith;
      enough = omega arith;
      equals = rw x.equals;
    }

value-unary : (t : TokenType) → is_value t ≡ true → is_unary_op t ≡ false
unfolding is_value is_unary_op
value-unary token_error h = cc
value-unary _ h = ground arith

value-paren : (t : TokenType) → is_value t ≡ true → same t token_left_paren ≡ false
unfolding is_value
value-paren token_error h = cc
value-paren _ h = ground arith

pub ReadsPrimary-value :
    (t : Token) {n : Node}
    → is_value t.typ ≡ true
    → new_value_node t ≡ ok n
    → ReadsPrimary (t ∷ []) n
unfolding parse_expression
ReadsPrimary-value t h made rest zero s e v o f = absurd (omega arith)
ReadsPrimary-value t {n} h made rest (suc k) s e v o f =
    let x = front s t rest v (weight-value t.typ h) o in
    record {
      behind = (pop s).1;
      valid = x.valid;
      offers = x.offers;
      shrinks = x.shrinks;
      equals = rw (x.is_next, value-unary t.typ h, value-paren t.typ h, h, made);
    }

pub precedence-unary : (t : TokenType) → is_unary_op t ≡ true → precedence t ≡ 6
unfolding is_unary_op precedence
precedence-unary token_error h = cc
precedence-unary _ h = ground arith

pub ReadsPrimary-unary :
    (t : Token) (ts : List Token) {n m : Node}
    → is_unary_op t.typ ≡ true
    → ReadsOperand (precedence t.typ) ts n
    → new_unary_op_node t.typ n ≡ ok m
    → ReadsPrimary (t ∷ ts) m
unfolding parse_expression
ReadsPrimary-unary t ts h d made rest zero s e v o f = absurd (omega arith)
ReadsPrimary-unary t ts {n} h d made rest (suc k) s e v o f =
    let six = precedence-unary t.typ h in
    let x = front s t (ts ++ rest) v (weight-unary t.typ h) o in
    let y =
      operand-Success ts n (precedence t.typ) d (omega arith) (omega arith) rest k (pop s).1
        (Stops-unary (precedence t.typ) rest 6 (omega arith) e) x.valid x.offers (omega arith) in
    record {
      behind = y.behind;
      valid = y.valid;
      offers = y.offers;
      shrinks = omega arith;
      equals = rw (x.is_next, h, y.equals, made);
    }

pub ReadsPrimary-group :
    (l r : Token) (ts : List Token) {n : Node}
    → l.typ ≡ token_left_paren
    → r.typ ≡ token_right_paren
    → ReadsWhole ts n
    → ReadsPrimary (l ∷ (ts ++ (r ∷ []))) n
unfolding parse_expression
ReadsPrimary-group l r ts p q d rest zero s e v o f = absurd (omega arith)
ReadsPrimary-group l r ts {n} p q d rest (suc k) s e v o f =
    let x = front s l (ts ++ (r ∷ rest)) v (ap weight p) (rw append_assoc at o) in
    let y =
      d (r ∷ rest) k (pop s).1 (ap (breaks 0) q ∙ breaks_right_paren) (ap (λ u. same u token_if) q)
        x.valid x.offers (omega arith) in
    let z = front y.behind r rest y.valid (ap weight q) y.offers in
    record {
      behind = (pop y.behind).1;
      valid = z.valid;
      offers = z.offers;
      shrinks = omega arith;
      equals =
          rw
            (x.is_next, p, unary_left_paren, y.equals, expect-Front token_right_paren y.behind z q);
    }
