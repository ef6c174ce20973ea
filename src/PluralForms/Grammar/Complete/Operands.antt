-- ===== src/PluralForms/Grammar/Complete/Operands.antt =====
-- gettext/pluralforms/parser.go: a binary operator and its operands are read by the loop of
-- `parseExpression`.
use Prim.Native.Nat.{max}
use sadbox.Prelude.{
  ℕ, suc, ◌+◌, ◌-◌, ◌≤◌, ◌≡◌, ap, ◌∙◌, true, false, List, ◌∷◌, ◌++◌, append_assoc, arith,
}
use sadbox.PluralForms.Grammar.Complete.Front.{
  Front, front, breaks_above, Stops-mono, operand-Success,
}
use sadbox.PluralForms.Grammar.Complete.Results.{finish, ReadsOperand}
use sadbox.PluralForms.Grammar.Tokens.{
  weight-binary, breaks-false_intro, right_precedence_lem, precedence-binary,
}
use sadbox.PluralForms.Node.{Node}
use sadbox.PluralForms.Operators.{ok, bind, precedence, is_binary_op, new_binary_op_node}
use sadbox.PluralForms.Parser.{breaks, parse_expression, parse_operators}
use sadbox.PluralForms.Stream.{TokenStream, pop}
use sadbox.PluralForms.Token.{Token}

-- A round of the loop of `parse_expression`.
parse_operators-round :
    (f k prec : ℕ) (n : Node) (s : TokenStream) {t : Token} {rest : List Token} {m b : Node}
    {s' : TokenStream}
    → f ≡ suc k
    → Front s t rest
    → breaks prec t.typ ≡ false
    → parse_expression k (precedence t.typ + 1) (pop s).1 ≡ ok (m, s')
    → new_binary_op_node t.typ n m ≡ ok b
    → parse_operators f prec n s ≡ parse_operators k prec b s'
unfolding parse_expression
parse_operators-round f k prec n s {t} e x goes right made =
    rw (e, x.is_next, goes, right_precedence_lem t.typ, right, made)

pub ReadsOperand-binary :
    (level : ℕ) (t : Token) (ts us : List Token) {n m b : Node}
    → is_binary_op t.typ ≡ true
    → level ≤ precedence t.typ
    → ReadsOperand (precedence t.typ) ts n
    → ReadsOperand (precedence t.typ + 1) us m
    → new_binary_op_node t.typ n m ≡ ok b
    → ReadsOperand level (ts ++ (t ∷ us)) b
ReadsOperand-binary level t ts us {n} {m} h above left right made prec rest f s le stops v o
      enough =
    let one = precedence-binary t.typ h in
    let tighter : breaks (max (precedence t.typ) 1 + 1) t.typ ≡ true = breaks_above t.typ in
    let x =
      left prec (t ∷ (us ++ rest)) f s (omega arith) tighter v (rw append_assoc at o) enough in
    let y = front x.behind t (us ++ rest) x.valid (weight-binary t.typ h) x.offers in
    let k = x.loop_fuel - 1 in
    let z =
      operand-Success us m (precedence t.typ + 1) right (omega arith) (omega arith) rest k
        (pop x.behind).1
        (Stops-mono (max level 1 + 1) (precedence t.typ + 1) rest (omega arith) stops) y.valid
        y.offers (omega arith) in
    record {
      loop_fuel = k;
      fuel = x.fuel;
      behind = z.behind;
      valid = z.valid;
      offers = z.offers;
      shrinks = omega arith;
      enough_loop = omega arith;
      enough = omega arith;
      equals =
          x.equals
          ∙ ap (λ r. bind r (finish x.fuel prec))
              (parse_operators-round x.loop_fuel k prec n x.behind (omega arith) y
                (breaks-false_intro prec t.typ h (omega arith)) z.equals made);
    }
