-- ===== src/PluralForms/Grammar/Complete/Results.antt =====
-- gettext/pluralforms/parser.go: what the parser's calls are equal to on a stream that begins with
-- derived tokens.
use Prim.Native.Nat.{max}
use sadbox.Prelude.{
  ℕ, zero, suc, ◌+◌, ◌*◌, ◌≤◌, ◌≡◌, sym, subst, ◌∙◌, inl, inr, true, false, List, [], ◌∷◌, ◌++◌,
  arith, ◌==◌, ◌&&◌, if◌then◌else◌, Bool-cases, ==_iff,
}
use sadbox.PluralForms.Grammar.Leads.{peek, back, Leads-back}
use sadbox.PluralForms.Node.{Node}
use sadbox.PluralForms.Operators.{Result, ok, bind}
use sadbox.PluralForms.Parser.{
  breaks, parse_expression, parse_operators, parse_primary, parse_ternary,
}
use sadbox.PluralForms.Stream.Offers.{Offers, size, Offers-pop, Offers-push, Offers-nil}
use sadbox.PluralForms.Stream.Stack.{IsValid, pop-IsValid}
use sadbox.PluralForms.Stream.{TokenStream, pop, push}
use sadbox.PluralForms.Token.{Token, token_if, same}

-- The part of `parse_expression` behind its loop.
abbrev pub finish : ℕ → ℕ → (Node × Token) × TokenStream → Result (Node × TokenStream)
finish f prec ((m, t), s) =
    if prec == 0 && same t.typ token_if then parse_ternary f m (push s t) else ok (m, push s t)

-- The next token ends the level.
abbrev pub Stops : ℕ → List Token → Type 0
Stops prec [] = ⊥
Stops prec (t ∷ ts) = breaks prec t.typ ≡ true

-- The next token is no `?`.
abbrev pub NoIf : List Token → Type 0
NoIf [] = ⊥
NoIf (t ∷ ts) = same t.typ token_if ≡ false

-- A result, and the stream that is left.
pub record Success (rest : List Token) (s : TokenStream) (n : Node)
    (r : Result (Node × TokenStream)) : Type 0 where
  pub behind : TokenStream
  pub valid : IsValid behind
  pub offers : Offers behind rest
  pub shrinks : size behind + 1 ≤ size s
  pub equals : r ≡ ok (n, behind)

-- `parse_expression` comes to its loop with the node `n` and `rest` ahead.
pub record Reaches (prec : ℕ) (rest : List Token) (s : TokenStream) (n : Node)
    (r : Result (Node × TokenStream)) : Type 0 where
  pub loop_fuel : ℕ
  pub fuel : ℕ
  pub behind : TokenStream
  pub valid : IsValid behind
  pub offers : Offers behind rest
  pub shrinks : size behind + 1 ≤ size s
  pub enough_loop : 2 * size behind + 1 ≤ loop_fuel
  pub enough : 2 * size behind + 1 ≤ fuel
  pub equals : r ≡ bind (parse_operators loop_fuel prec n behind) (finish fuel prec)

-- Tokens that write a node wherever a primary stands. No operator has the precedence 6, so the
-- premise on `rest` says only that there is a next token.
abbrev pub ReadsPrimary : List Token → Node → Type 0
ReadsPrimary ts n =
    (rest : List Token) (f : ℕ) (s : TokenStream)
    → Stops 6 rest
    → IsValid s
    → Offers s (ts ++ rest)
    → 2 * size s + 1 ≤ f
    → Success rest s n (parse_primary f s)

-- Tokens that write an operand of the precedence `level`.
abbrev pub ReadsOperand : ℕ → List Token → Node → Type 0
ReadsOperand level ts n =
    (prec : ℕ) (rest : List Token) (f : ℕ) (s : TokenStream)
    → prec ≤ max level 1
    → Stops (max level 1 + 1) rest
    → IsValid s
    → Offers s (ts ++ rest)
    → 2 * size s + 2 ≤ f
    → Reaches prec rest s n (parse_expression f prec s)

-- Tokens that write a whole expression.
abbrev pub ReadsWhole : List Token → Node → Type 0
ReadsWhole ts n =
    (rest : List Token) (f : ℕ) (s : TokenStream)
    → Stops 0 rest
    → NoIf rest
    → IsValid s
    → Offers s (ts ++ rest)
    → 2 * size s + 2 ≤ f
    → Success rest s n (parse_expression f 0 s)

-- What a stream offers, it offers again after a pop and a push.
pub Offers-back_intro :
    (s : TokenStream) (ts : List Token) → IsValid s → Offers s ts → Offers (back s) ts
Offers-back_intro s [] v h = Offers-nil (back s)
Offers-back_intro s (t ∷ ts) v h =
    (Offers-push (pop s).1 (pop s).0 t ts (pop-IsValid v)).1 ((Offers-pop s t ts).0 h)

pub peek-Offers : (s : TokenStream) (t : Token) (ts : List Token) → Offers s (t ∷ ts) → peek s ≡ t
peek-Offers s t ts h = ((Offers-pop s t ts).0 h).0

Stops-peek :
    (prec : ℕ) (rest : List Token) (s : TokenStream)
    → Stops prec rest
    → Offers s rest
    → breaks prec (peek s).typ ≡ true
Stops-peek prec [] s h o = absurd h
Stops-peek prec (t ∷ ts) s h o = rw (peek-Offers s t ts o) h

pub NoIf-peek :
    (rest : List Token) (s : TokenStream)
    → NoIf rest
    → Offers s rest
    → same (peek s).typ token_if ≡ false
NoIf-peek [] s h o = absurd h
NoIf-peek (t ∷ ts) s h o = subst (λ u. same u.typ token_if ≡ false) (sym (peek-Offers s t ts o)) h

-- The loop ends at a token that ends the level.
pub parse_operators-stop :
    (f prec : ℕ) (n : Node) (s : TokenStream)
    → 1 ≤ f
    → breaks prec (peek s).typ ≡ true
    → parse_operators f prec n s ≡ ok ((n, peek s), (pop s).1)
unfolding parse_expression
parse_operators-stop zero prec n s h e = absurd (omega arith)
parse_operators-stop (suc f) prec n s h e = rw e

finish-done :
    (f prec : ℕ) (n : Node) (t : Token) (s : TokenStream)
    → (prec ≡ 0 → same t.typ token_if ≡ false)
    → finish f prec ((n, t), s) ≡ ok (n, push s t)
finish-done f prec n t s h = elim (Bool-cases (prec == 0)) [
  | inl z ↦ rw (z, h ((==_iff prec 0).0 z))
  | inr z ↦ rw z
]

-- An operand before a token that ends the level, and that is no `?` at the lowest, is the expression.
pub Reaches-Success :
    {prec : ℕ} {rest : List Token} {s : TokenStream} {n : Node} {r : Result (Node × TokenStream)}
    → Stops prec rest
    → (prec ≡ 0 → NoIf rest)
    → Reaches prec rest s n r
    → Success rest s n r
Reaches-Success {prec} {rest} {n = n} h k x =
    let stop = Stops-peek prec rest x.behind h x.offers in
    let put_back = Leads-back x.behind x.valid in
    record {
      behind = back x.behind;
      valid = put_back.valid;
      offers = Offers-back_intro x.behind rest x.valid x.offers;
      shrinks = omega arith;
      equals =
          x.equals
          ∙ rw (parse_operators-stop x.loop_fuel prec n x.behind (omega arith) stop) (
              finish-done x.fuel prec n (peek x.behind) (pop x.behind).1
                (λ z. NoIf-peek rest x.behind (k z) x.offers));
    }
