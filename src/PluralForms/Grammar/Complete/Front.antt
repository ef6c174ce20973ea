-- ===== src/PluralForms/Grammar/Complete/Front.antt =====
-- gettext/pluralforms/parser.go: the token at the front of a stream, and the tokens that end a level.
use Prim.Native.Nat.{max}
use sadbox.Prelude.{ℕ, ◌+◌, ◌*◌, ◌≤◌, ◌≡◌, refl, ap, true, false, List, [], ◌∷◌, ◌++◌, arith}
use sadbox.PluralForms.Grammar.Complete.Results.{Stops, Success, ReadsOperand, Reaches-Success}
use sadbox.PluralForms.Grammar.Leads.{peek}
use sadbox.PluralForms.Grammar.Tokens.{eq→same, breaks_mono}
use sadbox.PluralForms.Lexer.Progress.{weight}
use sadbox.PluralForms.Node.{Node}
use sadbox.PluralForms.Operators.{ok, precedence, is_unary_op}
use sadbox.PluralForms.Parser.{breaks, expect, parse_expression}
use sadbox.PluralForms.Stream.Offers.{Offers, size, Offers-pop, size-pop}
use sadbox.PluralForms.Stream.Stack.{IsValid, pop-IsValid}
use sadbox.PluralForms.Stream.{TokenStream, pop}
use sadbox.PluralForms.Token.{
  TokenType, Token, token_error, token_if, token_else, token_left_paren, token_right_paren, same,
}

-- A proper token at the front of a stream, and the stream behind it.
pub record Front (s : TokenStream) (t : Token) (rest : List Token) : Type 0 where
  pub is_next : peek s ≡ t
  pub offers : Offers (pop s).1 rest
  pub valid : IsValid (pop s).1
  pub shrinks : size (pop s).1 + 1 ≤ size s

pub front :
    (s : TokenStream) (t : Token) (rest : List Token)
    → IsValid s
    → weight t.typ ≡ 1
    → Offers s (t ∷ rest)
    → Front s t rest
front s t rest v w h =
    let (e, o) = (Offers-pop s t rest).0 h in
    record {
      is_next = e;
      offers = o;
      valid = pop-IsValid v;
      shrinks = omega (arith, size-pop s, ap (λ (u : Token). weight u.typ) e, w);
    }

pub breaks_six : (t : TokenType) → breaks 6 t ≡ true
unfolding breaks
breaks_six token_error = refl
breaks_six _ = refl

-- No operator binds more tightly than itself.
pub breaks_above : (t : TokenType) → breaks (max (precedence t) 1 + 1) t ≡ true
unfolding breaks
breaks_above t = ground arith

-- No binary operator binds as tightly as `!`.
pub Stops-unary :
    (prec : ℕ) (rest : List Token) (level : ℕ) → 6 ≤ prec → Stops level rest → Stops prec rest
Stops-unary prec [] level h e = absurd e
Stops-unary prec (t ∷ ts) level h e = breaks_mono 6 prec t.typ h (breaks_six t.typ)

pub Stops-mono : (p q : ℕ) (rest : List Token) → p ≤ q → Stops p rest → Stops q rest
Stops-mono p q [] h e = absurd e
Stops-mono p q (t ∷ ts) h e = breaks_mono p q t.typ h e

-- An operand that is read to its end.
pub operand-Success :
    {level : ℕ} (ts : List Token) (n : Node) (prec : ℕ)
    → ReadsOperand level ts n
    → 1 ≤ prec
    → prec ≤ level
    → (rest : List Token) (f : ℕ) (s : TokenStream) → Stops prec rest
    → IsValid s
    → Offers s (ts ++ rest)
    → 2 * size s + 2 ≤ f
    → Success rest s n (parse_expression f prec s)
operand-Success {level} ts n prec h pos le rest f s stops v o enough =
    Reaches-Success stops (λ z. absurd (omega arith))
      (h prec rest f s (omega arith) (Stops-mono prec (max level 1 + 1) rest (omega arith) stops) v
        o enough)

-- `expect` at a token of the type.
pub expect-Front :
    (u : TokenType) (s : TokenStream) {t : Token} {rest : List Token}
    → Front s t rest
    → t.typ ≡ u
    → expect u s ≡ ok (tt, (pop s).1)
unfolding expect
expect-Front u s x e =
    let found : same (pop s).0.typ u ≡ true = rw (x.is_next, e) (eq→same u) in rw found

pub breaks_right_paren : breaks 0 token_right_paren ≡ true
unfolding breaks
breaks_right_paren = refl

pub breaks_else : breaks 0 token_else ≡ true
unfolding breaks
breaks_else = refl

pub breaks_if : (prec : ℕ) → breaks prec token_if ≡ true
unfolding breaks
breaks_if prec = refl

pub unary_left_paren : is_unary_op token_left_paren ≡ false
unfolding is_unary_op
unary_left_paren = refl
