-- ===== src/PluralForms/Grammar/Sound/Steps.antt =====
-- gettext/pluralforms/parser.go: the steps of the parser's methods, each on the postconditions of the
-- calls that it makes.
use Prim.Native.Nat.{max}
use mathlib.Core.Path.{ap₂}
use sadbox.Prelude.{
  ℕ, ◌≡◌, refl, sym, subst, true, false, List, [], ◌∷◌, ◌++◌, append_assoc, append-nil, arith, ◌==◌,
  ◌&&◌, length-append,
}
use sadbox.PluralForms.Grammar.Leads.{
  Leads, peek, back, Leads-refl, Leads-trans, Leads-pop, Leads-back, peek-push,
}
use sadbox.PluralForms.Grammar.Outcome.{Meets, Meets-if}
use sadbox.PluralForms.Grammar.Sound.Postconditions.{
  Derives-mono, Primary, Expression, Operators, Operand,
}
use sadbox.PluralForms.Grammar.Tokens.{
  same→eq, weight-same, precedence-binary, breaks-false, precedence-le, right_precedence_lem,
}
use sadbox.PluralForms.Grammar.{Derives, binary}
use sadbox.PluralForms.Lexer.Progress.{weight}
use sadbox.PluralForms.Node.{Node}
use sadbox.PluralForms.Operators.{
  ok, precedence, new_binary_op_node, new_unary_op_node, new_value_node,
}
use sadbox.PluralForms.Parser.{expect, breaks, right_precedence}
use sadbox.PluralForms.Stream.Stack.{IsValid, pop-IsValid}
use sadbox.PluralForms.Stream.{TokenStream, pop, push}
use sadbox.PluralForms.Token.{TokenType, Token, token_error, token_if, same}

-- `expect`: the next token has the type, and was consumed.
abbrev pub Passed : TokenType → TokenStream → Unit {0} × TokenStream → Type 0
Passed u s r = Leads s (peek s ∷ []) r.1 × ((peek s).typ ≡ u)

-- `expect` passes a token of the type, or fails.
pub expect-Meets :
    (u : TokenType) (s : TokenStream) → weight u ≡ 1 → IsValid s → Meets (Passed u s) (expect u s)
unfolding expect
expect-Meets u s w v =
    Meets-if (Passed u s) (same (peek s).typ u) _ _
      (λ e. (Leads-pop s v (weight-same (peek s).typ u w e), same→eq (peek s).typ u e)) (λ _. tt)

-- The constructors of nodes take no fuel.
pub new_binary_op_node-Meets :
    (t : TokenType) (n m : Node) → Meets (λ b. Unit {0}) (new_binary_op_node t n m)
unfolding new_binary_op_node
new_binary_op_node-Meets token_error n m = tt
new_binary_op_node-Meets _ n m = tt

pub new_unary_op_node-Meets :
    (t : TokenType) (n : Node) → Meets (λ b. Unit {0}) (new_unary_op_node t n)
unfolding new_unary_op_node
new_unary_op_node-Meets token_error n = tt
new_unary_op_node-Meets _ n = tt

value_node_at :
    (t : TokenType) (text : List ℕ)
    → Meets (λ b. Unit {0}) (new_value_node (record { typ = t; val = text }))
unfolding new_value_node
value_node_at token_error text = tt
value_node_at _ text = tt

pub new_value_node-Meets : (t : Token) → Meets (λ b. Unit {0}) (new_value_node t)
new_value_node-Meets t = value_node_at t.typ t.val

-- A node that stands at every level is an operand.
pub Primary-Operand :
    {s : TokenStream} {r : Node × TokenStream} (prec : ℕ) (next : Token) (p : Primary s r)
    → Operand prec p.tokens r.0 next
Primary-Operand prec next p = record { derives = p.derives (max prec 1); left = λ _. p.derives _ }

-- The loop stops at once.
pub Operators-stop :
    {prec : ℕ} {before : List Token} {n : Node} (s : TokenStream)
    → IsValid s
    → Operand prec before n (peek s)
    → breaks prec (peek s).typ ≡ true
    → Operators prec before s ((n, peek s), (pop s).1)
Operators-stop {before} s v o e = record {
  tokens = [];
  derives = rw append-nil o.derives;
  last = s;
  leads = Leads-refl s v;
  next_token = refl;
  behind = refl;
  stops = e;
}

-- The node that the loop goes on with is an operand again.
pub Operand-binary :
    {prec : ℕ} {before us : List Token} {n m b : Node} (t next : Token)
    → breaks prec t.typ ≡ false
    → Operand prec before n t
    → Derives (right_precedence t.typ) us m
    → breaks (right_precedence t.typ) next.typ ≡ true
    → new_binary_op_node t.typ n m ≡ ok b
    → Operand prec (before ++ (t ∷ us)) b next
Operand-binary {prec} t next e o d stops made =
    let (bin, le) = breaks-false prec t.typ e in
    let right = rw (right_precedence_lem t.typ) at d in
    record {
      derives = binary t bin (omega (arith, precedence-binary t.typ bin)) (o.left e) right made;
      left = λ goes.
          binary t bin
            (precedence-le prec (precedence t.typ) next.typ goes
              (rw (right_precedence_lem t.typ) at stops))
            (o.left e) right made;
    }

-- The loop's later rounds.
pub Operators-step :
    {prec : ℕ} {before : List Token} {s s' : TokenStream} {r : (Node × Token) × TokenStream}
    (us : List Token)
    → Leads s us s'
    → Operators prec (before ++ us) s' r
    → Operators prec before s r
Operators-step {before} us l o = record {
  tokens = us ++ o.tokens;
  derives = rw (← append_assoc) o.derives;
  last = o.last;
  leads = Leads-trans us o.tokens l o.leads;
  next_token = o.next_token;
  behind = o.behind;
  stops = o.stops;
}

-- The stream once the token that ended the loop is put back.
pub Operators-push :
    {prec : ℕ} {before : List Token} {s s' : TokenStream} {m : Node} {t : Token}
    (o : Operators prec before s ((m, t), s'))
    → Leads s o.tokens (push s' t) × (peek (push s' t) ≡ t)
Operators-push {s} {s'} {t} o =
    let same_stream : back o.last ≡ push s' t = ap₂ push (sym o.behind) (sym o.next_token) in
    let l = Leads-trans o.tokens [] o.leads (Leads-back o.last o.leads.valid) in
    (
      subst (λ k. Leads s o.tokens k) same_stream (rw append-nil at l),
      peek-push s' t (rw (o.behind) (pop-IsValid o.leads.valid)),
    )

-- The end of `parse_expression` at a level above the conditional's, or before another token.
pub Expression-done :
    {prec : ℕ} {s s₁ s₂ : TokenStream} {n m : Node} {t : Token} (p : Primary s (n, s₁))
    → Operators prec p.tokens s₁ ((m, t), s₂)
    → (prec == 0 && same t.typ token_if) ≡ false
    → Expression prec s (m, push s₂ t)
Expression-done {prec} {s₂ = s₂} {t = t} p o e =
    let (l, next) = Operators-push o in
    record {
      tokens = p.tokens ++ o.tokens;
      derives = Derives-mono (omega arith) o.derives;
      leads = Leads-trans p.tokens o.tokens p.leads l;
      some_token = omega (arith, p.some_token, length-append p.tokens o.tokens);
      stops = rw next o.stops;
      no_if = λ z. rw next (ground arith);
    }
