-- ===== src/PluralForms/Grammar/Sound/Branches.antt =====
-- gettext/pluralforms/parser.go: what the steps of conditionals and of primary expressions derive.
use sadbox.Prelude.{
  ℕ, ◌≤◌, ◌≡◌, refl, subst, true, false, List, [], ◌∷◌, ◌++◌, append_assoc, append-nil, arith,
  length, length-append,
}
use sadbox.PluralForms.Grammar.Leads.{
  Leads, peek, back, Leads-trans, Leads-pop, Leads-back, peek-push,
}
use sadbox.PluralForms.Grammar.Sound.Postconditions.{
  Derives-mono, Primary, Expression, Operators, Ternary, Condition,
}
use sadbox.PluralForms.Grammar.Tokens.{same→eq, weight-value}
use sadbox.PluralForms.Grammar.{Derives, value, group, unary, conditional}
use sadbox.PluralForms.Node.{Node, if_node}
use sadbox.PluralForms.Operators.{
  ok, precedence, is_unary_op, is_value, new_unary_op_node, new_value_node,
}
use sadbox.PluralForms.Parser.{breaks}
use sadbox.PluralForms.Stream.Stack.{IsValid, pop-IsValid}
use sadbox.PluralForms.Stream.{TokenStream, pop}
use sadbox.PluralForms.Token.{
  Token, token_if, token_else, token_left_paren, token_right_paren, same,
}

-- The node in front of a `?`.
pub Operators-Condition :
    {prec : ℕ} {s s' : TokenStream} {before : List Token} {m : Node} {t : Token} (next : Token)
    → prec ≡ 0
    → next ≡ t
    → (o : Operators prec before s ((m, t), s')) → Condition (before ++ o.tokens) m next
Operators-Condition {t = t} next z e o = record {
  derives = Derives-mono (omega arith) o.derives;
  cond = λ _. Derives-mono (omega arith) o.derives;
  stops = λ _. rw e (subst (λ p. breaks p t.typ ≡ true) z o.stops);
}

-- The end of `parse_expression` in a conditional.
pub Expression-Ternary :
    {prec : ℕ} {s s' : TokenStream} {r : Node × TokenStream} (before : List Token)
    → prec ≡ 0
    → Leads s before s'
    → 1 ≤ length before
    → Ternary before s' r
    → Expression prec s r
Expression-Ternary before z l some x = record {
  tokens = before ++ x.tokens;
  derives = rw z x.derives;
  leads = Leads-trans before x.tokens l x.leads;
  some_token = omega (arith, length-append before x.tokens);
  stops = rw z x.stops;
  no_if = λ _. x.no_if;
}

-- The loop of `parse_ternary` ends at a token that is no `?`.
pub Ternary-stop :
    {before : List Token} {n : Node} (s : TokenStream)
    → IsValid s
    → Condition before n (peek s)
    → same (peek s).typ token_if ≡ false
    → Ternary before s (n, back s)
Ternary-stop {before} s v c e =
    let next = peek-push (pop s).1 (pop s).0 (pop-IsValid v) in
    record {
      tokens = [];
      derives = rw append-nil c.derives;
      leads = Leads-back s v;
      stops = rw next (c.stops e);
      no_if = rw next e;
    }

-- The node that a round of `parse_ternary` makes: no `?` follows it.
pub Condition-if :
    {before ts us : List Token} {n n₁ n₂ : Node} (q e next : Token)
    → Condition before n q
    → same q.typ token_if ≡ true
    → e.typ ≡ token_else
    → Derives 0 ts n₁
    → Derives 0 us n₂
    → breaks 0 next.typ ≡ true
    → same next.typ token_if ≡ false
    → Condition (before ++ (q ∷ (ts ++ (e ∷ us)))) (if_node n n₁ n₂) next
Condition-if q e next c is_if is_else d₁ d₂ stops no_if = record {
  derives = conditional q e refl (same→eq q.typ token_if is_if) is_else (c.cond is_if) d₁ d₂;
  cond = λ yes_if. cc;
  stops = λ _. stops;
}

pub Ternary-step :
    {before us : List Token} {s s' : TokenStream} {r : Node × TokenStream}
    → Leads s us s'
    → Ternary (before ++ us) s' r
    → Ternary before s r
Ternary-step {before} {us} l x = record {
  tokens = us ++ x.tokens;
  derives = rw (← append_assoc) x.derives;
  leads = Leads-trans us x.tokens l x.leads;
  stops = x.stops;
  no_if = x.no_if;
}

-- The tokens of a round of `parse_ternary`.
pub Leads-if :
    (s : TokenStream) {s₂ s₃ s₄ : TokenStream} {ts us : List Token}
    → Leads s (peek s ∷ []) (pop s).1
    → Leads (pop s).1 ts s₂
    → Leads s₂ (peek s₂ ∷ []) s₃
    → Leads s₃ us s₄
    → Leads s (peek s ∷ (ts ++ (peek s₂ ∷ us))) s₄
Leads-if s {s₂} {ts = ts} {us = us} first a colon b =
    Leads-trans (peek s ∷ []) (ts ++ (peek s₂ ∷ us)) first
      (Leads-trans ts (peek s₂ ∷ us) a (Leads-trans (peek s₂ ∷ []) us colon b))

pub Primary-unary :
    (s : TokenStream) {n m : Node} {s₂ : TokenStream}
    → is_unary_op (peek s).typ ≡ true
    → Leads s (peek s ∷ []) (pop s).1
    → Expression (precedence (peek s).typ) (pop s).1 (n, s₂)
    → new_unary_op_node (peek s).typ n ≡ ok m
    → Primary s (m, s₂)
Primary-unary s u first x made = record {
  tokens = peek s ∷ x.tokens;
  derives = λ prec. unary (peek s) u x.derives made;
  leads = Leads-trans (peek s ∷ []) x.tokens first x.leads;
  some_token = omega arith;
}

pub Primary-group :
    (s : TokenStream) {n : Node} {s₂ s₃ : TokenStream}
    → same (peek s).typ token_left_paren ≡ true
    → Leads s (peek s ∷ []) (pop s).1
    → Expression 0 (pop s).1 (n, s₂)
    → Leads s₂ (peek s₂ ∷ []) s₃
    → (peek s₂).typ ≡ token_right_paren
    → Primary s (n, s₃)
Primary-group s {s₂ = s₂} p first x close q = record {
  tokens = peek s ∷ (x.tokens ++ (peek s₂ ∷ []));
  derives = λ prec. group (peek s) (peek s₂) (same→eq _ token_left_paren p) q x.derives;
  leads =
      Leads-trans (peek s ∷ []) (x.tokens ++ (peek s₂ ∷ [])) first
        (Leads-trans x.tokens (peek s₂ ∷ []) x.leads close);
  some_token = omega arith;
}

pub Primary-value :
    (s : TokenStream) {n : Node}
    → IsValid s
    → is_value (peek s).typ ≡ true
    → new_value_node (peek s) ≡ ok n
    → Primary s (n, (pop s).1)
Primary-value s v h made = record {
  tokens = peek s ∷ [];
  derives = λ prec. value (peek s) h made;
  leads = Leads-pop s v (weight-value _ h);
  some_token = omega arith;
}
