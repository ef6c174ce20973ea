-- ===== src/PluralForms/Grammar/Sound.antt =====
-- gettext/pluralforms/parser.go: what the parser returns was derived by the grammar from the tokens
-- that it consumed, and its recursion ends.
pub mod Postconditions
mod Steps
mod Branches
use sadbox.Prelude.{
  ℕ, zero, suc, ◌+◌, ◌*◌, ◌≤◌, ◌≡◌, refl, true, false, List, [], ◌∷◌, ◌++◌, arith, ◌==◌, ◌&&◌,
  length, length-append, ltb, Text, codes, Bool, not,
}
use sadbox.PluralForms.Grammar.Leads.{Leads, peek, Leads-trans, Leads-pop}
use sadbox.PluralForms.Grammar.Outcome.{Meets, Meets-bind, Meets-if, Meets-map}
use sadbox.PluralForms.Grammar.Tokens.{
  same→eq, weight-same, weight-binary, weight-unary, weight-value, breaks-false,
}
use sadbox.PluralForms.Grammar.{Derives, value, group, unary}
use sadbox.PluralForms.Node.{Node, if_node}
use sadbox.PluralForms.Operators.{
  Result, is_unary_op, is_value, precedence, new_binary_op_node, new_unary_op_node, new_value_node,
}
use sadbox.PluralForms.Parser.{
  parse_expression, parse_operators, parse_primary, parse_ternary, expect, breaks, right_precedence,
}
use sadbox.PluralForms.Stream.Offers.{size}
use sadbox.PluralForms.Stream.Stack.{IsValid}
use sadbox.PluralForms.Stream.{TokenStream, pop, push}
use sadbox.PluralForms.Token.{
  Token, token_if, token_else, token_left_paren, token_right_paren, same,
}
use sadbox.PluralForms.Grammar.Sound.Postconditions.{
  Primary, Expression, Operators, Ternary, Operand, Condition,
}
use sadbox.PluralForms.Grammar.Sound.Branches.{
  Operators-Condition, Expression-Ternary, Ternary-stop, Condition-if, Ternary-step, Leads-if,
  Primary-unary, Primary-group, Primary-value,
}
use sadbox.PluralForms.Grammar.Sound.Steps.{
  Passed, expect-Meets, new_binary_op_node-Meets, new_unary_op_node-Meets, new_value_node-Meets,
  Primary-Operand, Operators-stop, Operand-binary, Operators-step, Operators-push, Expression-done,
}

-- One induction on the fuel: each call leaves a stream that is shorter by the tokens it consumed.
mutual
  unfolding parse_expression

  parse_expression-Meets :
      (f prec : ℕ) (s : TokenStream)
      → IsValid s
      → 2 * size s + 2 ≤ f
      → Meets (Expression prec s) (parse_expression f prec s)
  parse_expression-Meets zero prec s v h = absurd (omega arith)
  parse_expression-Meets (suc f) prec s v h =
      Meets-bind (Primary s) (Expression prec s) _ _ (parse_primary-Meets f s v (omega arith))
        λ (n, s₁) _ p.
          Meets-bind (Operators prec p.tokens s₁) (Expression prec s) _ _
            (parse_operators-Meets f prec p.tokens n s₁ p.leads.valid (omega arith)
              (Primary-Operand prec _ p))
            λ ((m, t), s₂) _ o.
              let (l, next) = Operators-push o in
              let both = Leads-trans p.tokens o.tokens p.leads l in
              Meets-if (Expression prec s) (prec == 0 && same t.typ token_if) _ _
                (λ e.
                  let z : prec ≡ 0 = ground arith in
                  let c = Operators-Condition (peek (push s₂ t)) z next o in
                  Meets-map (Ternary (p.tokens ++ o.tokens) (push s₂ t)) (Expression prec s) _
                    (λ r x.
                      Expression-Ternary (p.tokens ++ o.tokens) z both
                        (omega (arith, length-append p.tokens o.tokens)) x)
                    (parse_ternary-Meets f (p.tokens ++ o.tokens) m (push s₂ t) l.valid
                      (omega arith) c))
                (λ e. Expression-done p o e)

  parse_operators-Meets :
      (f prec : ℕ) (before : List Token) (n : Node) (s : TokenStream)
      → IsValid s
      → 2 * size s + 1 ≤ f
      → Operand prec before n (peek s)
      → Meets (Operators prec before s) (parse_operators f prec n s)
  parse_operators-Meets zero prec before n s v h o = absurd (omega arith)
  parse_operators-Meets (suc f) prec before n s v h o =
      Meets-if (Operators prec before s) (breaks prec (peek s).typ) _ _ (Operators-stop s v o) (λ e.
        let first = Leads-pop s v (weight-binary _ (breaks-false prec _ e).0) in
        let q = right_precedence (peek s).typ in
        Meets-bind (Expression q (pop s).1) (Operators prec before s) _ _
          (parse_expression-Meets f q (pop s).1 first.valid (omega arith))
          λ (m, s₂) _ x.
            Meets-bind (λ _. Unit {0}) (Operators prec before s) _ _
              (new_binary_op_node-Meets _ n m)
              λ b made _.
                let us = peek s ∷ x.tokens in
                Meets-map (Operators prec (before ++ us) s₂) (Operators prec before s) _
                  (λ r. Operators-step us (Leads-trans (peek s ∷ []) x.tokens first x.leads))
                  (parse_operators-Meets f prec (before ++ us) b s₂ x.leads.valid (omega arith)
                    (Operand-binary (peek s) (peek s₂) e o x.derives x.stops made)))

  parse_primary-Meets :
      (f : ℕ) (s : TokenStream)
      → IsValid s
      → 2 * size s + 1 ≤ f
      → Meets (Primary s) (parse_primary f s)
  parse_primary-Meets zero s v h = absurd (omega arith)
  parse_primary-Meets (suc f) s v h =
      Meets-if (Primary s) (is_unary_op (peek s).typ) _ _
        (λ is_unary.
          let first = Leads-pop s v (weight-unary _ is_unary) in
          let q = precedence (peek s).typ in
          Meets-bind (Expression q (pop s).1) (Primary s) _ _
            (parse_expression-Meets f q (pop s).1 first.valid (omega arith))
            λ (n, s₂) _ x.
              Meets-bind (λ _. Unit {0}) (Primary s) _ _ (new_unary_op_node-Meets _ n)
                λ b made _. Primary-unary s is_unary first x made)
        (λ _.
          Meets-if (Primary s) (same (peek s).typ token_left_paren) _ _
            (λ is_paren.
              let first = Leads-pop s v (weight-same _ token_left_paren refl is_paren) in
              Meets-bind (Expression 0 (pop s).1) (Primary s) _ _
                (parse_expression-Meets f 0 (pop s).1 first.valid (omega arith))
                λ (n, s₂) _ x.
                  Meets-bind (Passed token_right_paren s₂) (Primary s) _ _
                    (expect-Meets token_right_paren s₂ refl x.leads.valid)
                    λ (_, s₃) _ closed. Primary-group s is_paren first x closed.0 closed.1)
            (λ _.
              Meets-if (Primary s) (is_value (peek s).typ) _ _
                (λ is_val.
                  Meets-bind (λ _. Unit {0}) (Primary s) _ _ (new_value_node-Meets (peek s))
                    λ b made _. Primary-value s v is_val made)
                (λ _. tt)))

  parse_ternary-Meets :
      (f : ℕ) (before : List Token) (n : Node) (s : TokenStream)
      → IsValid s
      → 2 * size s + 1 ≤ f
      → Condition before n (peek s)
      → Meets (Ternary before s) (parse_ternary f n s)
  parse_ternary-Meets zero before n s v h c = absurd (omega arith)
  parse_ternary-Meets (suc f) before n s v h c =
      Meets-if (Ternary before s) (same (peek s).typ token_if) _ _
        (λ is_if.
          let first = Leads-pop s v (weight-same _ token_if refl is_if) in
          Meets-bind (Expression 0 (pop s).1) (Ternary before s) _ _
            (parse_expression-Meets f 0 (pop s).1 first.valid (omega arith))
            λ (n₁, s₂) _ x.
              Meets-bind (Passed token_else s₂) (Ternary before s) _ _
                (expect-Meets token_else s₂ refl x.leads.valid)
                λ (_, s₃) _ colon.
                  Meets-bind (Expression 0 s₃) (Ternary before s) _ _
                    (parse_expression-Meets f 0 s₃ colon.0.valid (omega arith))
                    λ (n₂, s₄) _ y.
                      let us = peek s ∷ (x.tokens ++ (peek s₂ ∷ y.tokens)) in
                      let l = Leads-if s first x.leads colon.0 y.leads in
                      Meets-map (Ternary (before ++ us) s₄) (Ternary before s) _
                        (λ r. Ternary-step l)
                        (parse_ternary-Meets f (before ++ us) (if_node n n₁ n₂) s₄ y.leads.valid
                          (omega arith)
                          (Condition-if (peek s) (peek s₂) (peek s₄) c is_if colon.1 x.derives
                            y.derives y.stops (y.no_if refl))))
        (λ no_if. Ternary-stop s v c no_if)

-- The recursion of the parser ends: with fuel above twice the runes and tokens left it fails, or it
-- returns a node that the grammar derives from the tokens consumed.
pub parse_expression_sound :
    (f prec : ℕ) (s : TokenStream)
    → IsValid s
    → 2 * size s + 2 ≤ f
    → Meets (Expression prec s) (parse_expression f prec s)
parse_expression_sound = parse_expression-Meets
