-- ===== src/PluralForms/Parser.antt =====
-- gettext/pluralforms/parser.go: the precedence climbing parser. The state of each method is the
-- token stream. What a call leaves of the stream is no structural part of it, so each call costs a
-- unit of fuel; `out_of_fuel` has no counterpart in the program.
pub mod Running
use sadbox.Prelude.{
  ℕ, zero, suc, ◌+◌, ◌*◌, Bool, not, ◌&&◌, ◌||◌, Text, ◌==◌, ltb, if◌then◌else◌, length,
}
use sadbox.PluralForms.Node.{Node, if_node}
use sadbox.PluralForms.Operators.{
  expected, unexpected, Result, ok, failed, out_of_fuel, bind, precedence, right_associativity,
  is_binary_op, is_unary_op, is_value, new_binary_op_node, new_unary_op_node, new_value_node,
}
use sadbox.PluralForms.Stream.{TokenStream, new_token_stream, pop, push}
use sadbox.PluralForms.Token.{
  TokenType, Token, token_eof, token_if, token_else, token_left_paren, token_right_paren, same,
}

abbrev pub Parser {ℓ} : Type ℓ → Type ℓ
Parser A = TokenStream → Result (A × TokenStream)

-- A value that may be a panic.
abbrev pub lift {ℓ} : {A : Type ℓ} → Result A → Parser A
lift r s = bind r λ a. ok (a, s)

unfoldable pub expect : TokenType → Parser (Unit {0})
expect t s = if same (pop s).0.typ t then ok (tt, (pop s).1) else failed (expected t (pop s).0.typ)

-- The precedence of the right operand of an operator.
unfoldable pub right_precedence : TokenType → ℕ
unfolding right_associativity precedence
right_precedence t = if not (right_associativity t) then precedence t + 1 else precedence t

-- The test of the `break` in `parseExpression`.
unfoldable pub breaks : ℕ → TokenType → Bool
unfolding is_binary_op precedence
breaks prec t = not (is_binary_op t) || ltb (precedence t) prec

-- `parse_operators` is the loop of `parseExpression`; it returns the node and the token that ends it.
unfoldable mutual
  pub parse_expression : ℕ → ℕ → Parser Node
  parse_expression zero prec s = out_of_fuel
  parse_expression (suc f) prec s = bind (parse_primary f s) λ (n, s₁).
      bind (parse_operators f prec n s₁) λ ((m, t), s₂).
        let ternary = parse_ternary f m (push s₂ t) in
        if prec == 0 && same t.typ token_if then ternary else ok (m, push s₂ t)

  pub parse_operators : ℕ → ℕ → Node → Parser (Node × Token)
  parse_operators zero prec n s = out_of_fuel
  parse_operators (suc f) prec n s =
      let (t, s₁) = pop s in
      let more =
        bind (parse_expression f (right_precedence t.typ) s₁)
          λ (m, s₂). bind (new_binary_op_node t.typ n m) λ b. parse_operators f prec b s₂ in
      if breaks prec t.typ then ok ((n, t), s₁) else more

  pub parse_primary : ℕ → Parser Node
  parse_primary zero s = out_of_fuel
  parse_primary (suc f) s =
      let (t, s₁) = pop s in
      let operand =
        bind (parse_expression f (precedence t.typ) s₁)
          λ (n, s₂). lift (new_unary_op_node t.typ n) s₂ in
      let group =
        bind (parse_expression f 0 s₁)
          λ (n, s₂). bind (expect token_right_paren s₂) λ (_, s₃). ok (n, s₃) in
      if is_unary_op t.typ
      then operand
      else if same t.typ token_left_paren
      then group
      else if is_value t.typ
      then lift (new_value_node t) s₁
      else failed (unexpected t)

  pub parse_ternary : ℕ → Node → Parser Node
  parse_ternary zero n s = out_of_fuel
  parse_ternary (suc f) n s =
      let (t, s₁) = pop s in
      let more = bind (parse_expression f 0 s₁) λ (n₁, s₂). bind (expect token_else s₂) λ (_, s₃).
        bind (parse_expression f 0 s₃) λ (n₂, s₄). parse_ternary f (if_node n n₁ n₂) s₄ in
      if same t.typ token_if then more else ok (n, push s₁ t)

-- `parser.parse`; the error that it returns is the recovered panic.
unfoldable pub parse_stream : ℕ → TokenStream → Result Node
unfolding parse_expression expect
parse_stream f s =
    bind (parse_expression f 0 s) λ (n, s₁). bind (expect token_eof s₁) λ (_, s₂). ok n

-- `parse`, with fuel for the length of the text.
unfoldable pub parse : Text → Result Node
unfolding parse_stream
parse expr = parse_stream (2 * length expr + 2) (new_token_stream expr)
