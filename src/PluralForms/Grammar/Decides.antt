-- ===== src/PluralForms/Grammar/Decides.antt =====
-- gettext/pluralforms/parser.go: `parse` accepts exactly what the grammar derives, and always returns.
use sadbox.Prelude.{
  ◌+◌, ◌*◌, ◌≡◌, ◌≢◌, ◌↔◌, refl, ap, ◌∙◌, List, [], ◌∷◌, ◌++◌, Text, arith, length, true,
}
use sadbox.PluralForms.Grammar.Complete.Results.{Success}
use sadbox.PluralForms.Grammar.Complete.{parse_expression_complete}
use sadbox.PluralForms.Grammar.Leads.{peek}
use sadbox.PluralForms.Grammar.Outcome.{Meets, Meets-bind, Meets-if, Meets-ok, Meets-ne-out_of_fuel}
use sadbox.PluralForms.Grammar.Sound.Postconditions.{Expression}
use sadbox.PluralForms.Grammar.Sound.{parse_expression_sound}
use sadbox.PluralForms.Grammar.Tokens.{same→eq, eq→same}
use sadbox.PluralForms.Grammar.{Derives}
use sadbox.PluralForms.Node.{Node}
use sadbox.PluralForms.Operators.{ok, out_of_fuel}
use sadbox.PluralForms.Parser.{parse, parse_stream, expect, breaks}
use sadbox.PluralForms.Stream.Offers.{
  Offers, OffersFrom, Offers-nil, Offers-pop, Offers-new, size-new,
}
use sadbox.PluralForms.Stream.Stack.{new_token_stream-IsValid}
use sadbox.PluralForms.Stream.{TokenStream, new_token_stream, pop}
use sadbox.PluralForms.Token.{Token, token_eof, token_if, same}

-- The text is these tokens and the end of the input, and the grammar derives the node from them.
pub record Writes (expr : Text) (n : Node) : Type 0 where
  pub tokens : List Token
  pub last : Token
  pub last_eof : last.typ ≡ token_eof
  pub lexes : OffersFrom [] expr (tokens ++ (last ∷ []))
  pub derives : Derives 0 tokens n

expect_eof-Writes :
    (expr : Text) (n : Node) (s : TokenStream)
    → Expression 0 (new_token_stream expr) (n, s)
    → Meets (λ r. Writes expr n) (expect token_eof s)
unfolding expect
expect_eof-Writes expr n s x =
    Meets-if (λ r. Writes expr n) (same (peek s).typ token_eof) _ _
      (λ e. record {
        tokens = x.tokens;
        last = peek s;
        last_eof = same→eq (peek s).typ token_eof e;
        lexes = (Offers-new expr (x.tokens ++ (peek s ∷ []))).0 (
            x.leads.offers (peek s ∷ [])
              ((Offers-pop s (peek s) []).1 (refl, Offers-nil (pop s).1)));
        derives = x.derives;
      })
      (λ _. tt)

parse-Meets : (expr : Text) → Meets (Writes expr) (parse expr)
unfolding parse parse_stream
parse-Meets expr =
    let s = new_token_stream expr in
    Meets-bind (Expression 0 s) (Writes expr) _ _
      (parse_expression_sound (2 * length expr + 2) 0 s (new_token_stream-IsValid expr)
        (omega (arith, size-new expr)))
      λ (n, s₁) _ x.
        Meets-bind (λ _. Writes expr n) (Writes expr) _ _ (expect_eof-Writes expr n s₁ x) λ _ _ w. w

breaks_eof : breaks 0 token_eof ≡ true
unfolding breaks
breaks_eof = refl

expect_eof :
    (s : TokenStream) (t : Token)
    → t.typ ≡ token_eof
    → Offers s (t ∷ [])
    → expect token_eof s ≡ ok (tt, (pop s).1)
unfolding expect
expect_eof s t e o =
    let found : same (peek s).typ token_eof ≡ true =
      rw ((Offers-pop s t []).0 o).0 (rw e (eq→same token_eof)) in
    rw found

Writes-parse : (expr : Text) (n : Node) → Writes expr n → parse expr ≡ ok n
unfolding parse parse_stream
Writes-parse expr n w =
    let s = new_token_stream expr in
    let x : Success (w.last ∷ []) s n _ =
      parse_expression_complete (w.last ∷ []) (2 * length expr + 2) s w.derives
        (ap (breaks 0) w.last_eof ∙ breaks_eof) (ap (λ t. same t token_if) w.last_eof)
        (new_token_stream-IsValid expr) ((Offers-new expr _).1 w.lexes)
        (omega (arith, size-new expr)) in
    rw (x.equals, expect_eof x.behind w.last w.last_eof x.offers)

-- The parser returns a node exactly when the text is a list of tokens, up to the end of the input,
-- from which the grammar derives that node.
pub parse-eq-ok_iff : (expr : Text) (n : Node) → (parse expr ≡ ok n) ↔ Writes expr n
parse-eq-ok_iff expr n =
    ((λ h. Meets-ok (Writes expr) (parse expr) (parse-Meets expr) h), Writes-parse expr n)

-- The parser returns a node or an error on every text: the fuel that the model hands out, two units
-- for each rune and two more, is enough.
pub parse-ne-out_of_fuel : (expr : Text) → parse expr ≢ out_of_fuel
parse-ne-out_of_fuel expr = Meets-ne-out_of_fuel (Writes expr) (parse expr) (parse-Meets expr)
