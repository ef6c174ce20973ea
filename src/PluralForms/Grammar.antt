-- ===== src/PluralForms/Grammar.antt =====
-- The grammar that gettext/pluralforms/parser.go is to accept, as derivations of a node from a list of
-- tokens at a precedence. It has no stream, no lookahead and no loop.
pub mod Outcome
pub mod Tokens
pub mod Leads
pub mod Sound
pub mod Complete
pub mod Decides
use sadbox.Prelude.{ℕ, ◌+◌, ◌≤◌, ◌≡◌, true, List, [], ◌∷◌, ◌++◌}
use sadbox.PluralForms.Node.{Node, if_node}
use sadbox.PluralForms.Operators.{
  ok, precedence, is_binary_op, is_unary_op, is_value, new_binary_op_node, new_unary_op_node,
  new_value_node,
}
use sadbox.PluralForms.Token.{Token, token_if, token_else, token_left_paren, token_right_paren}

-- `Derives prec ts n`: the tokens write the node where operators of at least `prec` may stand bare.
-- A binary operator takes a left operand of its own precedence and a right operand of the next, so
-- it groups to the left; a conditional stands bare at precedence 0 only.
pub data Derives : ℕ → List Token → Node → Type 0 where
  value :
      {prec : ℕ} {n : Node} (t : Token)
      → is_value t.typ ≡ true
      → new_value_node t ≡ ok n
      → Derives prec (t ∷ []) n
  group :
      {prec : ℕ} {ts : List Token} {n : Node} (l r : Token)
      → l.typ ≡ token_left_paren
      → r.typ ≡ token_right_paren
      → Derives 0 ts n
      → Derives prec (l ∷ (ts ++ (r ∷ []))) n
  unary :
      {prec : ℕ} {ts : List Token} {n m : Node} (t : Token)
      → is_unary_op t.typ ≡ true
      → Derives (precedence t.typ) ts n
      → new_unary_op_node t.typ n ≡ ok m
      → Derives prec (t ∷ ts) m
  binary :
      {prec : ℕ} {ts us : List Token} {n m b : Node} (t : Token)
      → is_binary_op t.typ ≡ true
      → prec ≤ precedence t.typ
      → Derives (precedence t.typ) ts n
      → Derives (precedence t.typ + 1) us m
      → new_binary_op_node t.typ n m ≡ ok b
      → Derives prec (ts ++ (t ∷ us)) b
  conditional :
      {prec : ℕ} {cs ts us : List Token} {c n m : Node} (q e : Token)
      → prec ≡ 0
      → q.typ ≡ token_if
      → e.typ ≡ token_else
      → Derives 1 cs c
      → Derives 0 ts n
      → Derives 0 us m
      → Derives prec (cs ++ (q ∷ (ts ++ (e ∷ us)))) (if_node c n m)
