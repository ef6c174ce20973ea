-- ===== src/PluralForms/Grammar/Complete/Conditionals.antt =====
-- gettext/pluralforms/parser.go: a conditional is read by `parseExpression` and `parseTernary`.
use sadbox.Prelude.{
  ℕ, zero, suc, ◌+◌, ◌-◌, ◌*◌, ◌≤◌, ◌≡◌, ap, ◌∙◌, false, List, ◌∷◌, ◌++◌, append_assoc, arith,
}
use sadbox.PluralForms.Grammar.Complete.Front.{Front, front, expect-Front, breaks_else, breaks_if}
use sadbox.PluralForms.Grammar.Complete.Results.{
  finish, Stops, NoIf, Success, ReadsOperand, ReadsWhole, Offers-back_intro, parse_operators-stop,
  NoIf-peek,
}
use sadbox.PluralForms.Grammar.Leads.{peek, back, Leads-back}
use sadbox.PluralForms.Lexer.Progress.{weight}
use sadbox.PluralForms.Node.{Node, if_node}
use sadbox.PluralForms.Operators.{ok, bind}
use sadbox.PluralForms.Parser.{breaks, expect, parse_expression, parse_ternary}
use sadbox.PluralForms.Stream.Offers.{Offers, size}
use sadbox.PluralForms.Stream.Stack.{IsValid}
use sadbox.PluralForms.Stream.{TokenStream, pop, push}
use sadbox.PluralForms.Token.{Token, token_if, token_else, same}

parse_ternary-stop :
    (f : ℕ) (n : Node) (s : TokenStream)
    → 1 ≤ f
    → same (peek s).typ token_if ≡ false
    → parse_ternary f n s ≡ ok (n, back s)
unfolding parse_expression
parse_ternary-stop zero n s h e = absurd (omega arith)
parse_ternary-stop (suc f) n s h e = rw e

-- A round of `parse_ternary`.
parse_ternary-round :
    (f k : ℕ) (c : Node) (s : TokenStream) {q : Token} {rest : List Token} {n m : Node}
    {s₂ s₃ s₄ : TokenStream}
    → f ≡ suc k
    → Front s q rest
    → q.typ ≡ token_if
    → parse_expression k 0 (pop s).1 ≡ ok (n, s₂)
    → expect token_else s₂ ≡ ok (tt, s₃)
    → parse_expression k 0 s₃ ≡ ok (m, s₄)
    → parse_ternary f c s ≡ parse_ternary k (if_node c n m) s₄
unfolding parse_expression
parse_ternary-round f k c s e x is_if first colon second =
    rw (e, x.is_next, is_if, first, colon, second)

parse_ternary-reads :
    (q e : Token) (ts us : List Token) {n m : Node}
    → q.typ ≡ token_if
    → e.typ ≡ token_else
    → ReadsWhole ts n
    → ReadsWhole us m
    → (c : Node) (rest : List Token) (f : ℕ) (s : TokenStream) → Stops 0 rest
    → NoIf rest
    → IsValid s
    → Offers s (q ∷ (ts ++ (e ∷ (us ++ rest))))
    → 2 * size s + 1 ≤ f
    → Success rest s (if_node c n m) (parse_ternary f c s)
parse_ternary-reads q e ts us {n} {m} is_if is_else first second c rest f s stops no_if v o enough =
    let k = f - 1 in
    let x = front s q (ts ++ (e ∷ (us ++ rest))) v (ap weight is_if) o in
    let a =
      first (e ∷ (us ++ rest)) k (pop s).1 (ap (breaks 0) is_else ∙ breaks_else)
        (ap (λ t. same t token_if) is_else) x.valid x.offers (omega arith) in
    let b = front a.behind e (us ++ rest) a.valid (ap weight is_else) a.offers in
    let d = second rest k (pop a.behind).1 stops no_if b.valid b.offers (omega arith) in
    let put_back = Leads-back d.behind d.valid in
    record {
      behind = back d.behind;
      valid = put_back.valid;
      offers = Offers-back_intro d.behind rest d.valid d.offers;
      shrinks = omega arith;
      equals =
          parse_ternary-round f k c s (omega arith) x is_if a.equals
            (expect-Front token_else a.behind b is_else) d.equals
          ∙ parse_ternary-stop k (if_node c n m) d.behind (omega arith)
              (NoIf-peek rest d.behind no_if d.offers);
    }

finish-ternary :
    (f : ℕ) (n : Node) (t : Token) (s : TokenStream)
    → t.typ ≡ token_if
    → finish f 0 ((n, t), s) ≡ parse_ternary f n (push s t)
finish-ternary f n t s e = rw e

pub ReadsWhole-conditional :
    (q e : Token) (cs ts us : List Token) {c n m : Node}
    → q.typ ≡ token_if
    → e.typ ≡ token_else
    → ReadsOperand 1 cs c
    → ReadsWhole ts n
    → ReadsWhole us m
    → ReadsWhole (cs ++ (q ∷ (ts ++ (e ∷ us)))) (if_node c n m)
ReadsWhole-conditional q e cs ts us {c} is_if is_else cond first second rest f s stops no_if v o
      enough =
    let behind = q ∷ (ts ++ (e ∷ (us ++ rest))) in
    let x =
      cond 0 behind f s (omega arith) (ap (breaks 2) is_if ∙ breaks_if 2) v (simp append_assoc at o)
        enough in
    let y = front x.behind q (ts ++ (e ∷ (us ++ rest))) x.valid (ap weight is_if) x.offers in
    let next_if : (peek x.behind).typ ≡ token_if = ap (λ (t : Token). t.typ) y.is_next ∙ is_if in
    let put_back = Leads-back x.behind x.valid in
    let z =
      parse_ternary-reads q e ts us is_if is_else first second c rest x.fuel (back x.behind) stops
        no_if put_back.valid (Offers-back_intro x.behind behind x.valid x.offers) (omega arith) in
    record {
      behind = z.behind;
      valid = z.valid;
      offers = z.offers;
      shrinks = omega arith;
      equals =
          x.equals
          ∙ ap (λ r. bind r (finish x.fuel 0))
              (parse_operators-stop x.loop_fuel 0 c x.behind (omega arith)
                (ap (breaks 0) next_if ∙ breaks_if 0))
          ∙ finish-ternary x.fuel c (peek x.behind) (pop x.behind).1 next_if
          ∙ z.equals;
    }
