-- ===== src/PluralForms/Stream/Offers.antt =====
-- gettext/pluralforms/lexer.go: the tokens that a stream will give out, and how much it has left.
use sadbox.Prelude.{ℕ, ◌+◌, ◌≤◌, ◌≡◌, ◌↔◌, sym, ap, subst, ◌∙◌, List, [], ◌∷◌, Text, arith, length}
use sadbox.PluralForms.Lexer.Progress.{weight, left-next}
use sadbox.PluralForms.Lexer.Reference.{ahead, lex, next-Agrees}
use sadbox.PluralForms.Lexer.{Lexer, left}
use sadbox.PluralForms.Stream.Stack.{
  stacked, Stack, pop_stack, push_stack, IsValid, pop-view, push-view,
}
use sadbox.PluralForms.Stream.{TokenStream, new_token_stream, pop, push}
use sadbox.PluralForms.Token.{Token}

-- The tokens put back and then those of the text begin with these tokens.
abbrev pub OffersFrom : List Token → Text → List Token → Type 0
OffersFrom stack text [] = Unit
OffersFrom [] text (t ∷ ts) = ((lex text).0 ≡ t) × OffersFrom [] (lex text).1 ts
OffersFrom (u ∷ stack) text (t ∷ ts) = (u ≡ t) × OffersFrom stack text ts

abbrev StackOffers : Stack → List Token → Type 0
StackOffers k ts = OffersFrom k.items (ahead k.source) ts

-- A stream gives out these tokens first.
pub Offers : TokenStream → List Token → Type 0
Offers s ts = OffersFrom (stacked s) (ahead s.lexer) ts

abbrev weights : List Token → ℕ
weights [] = 0
weights (t ∷ ts) = weight t.typ + weights ts

abbrev stack_size : Stack → ℕ
stack_size k = weights k.items + left k.source

-- The proper tokens put back and the runes ahead.
pub size : TokenStream → ℕ
size s = weights (stacked s) + left s.lexer

pop_stack-Offers :
    (items : List Token) (l : Lexer) (t : Token) (ts : List Token)
    → let k : Stack = record { items = items; source = l } in
      StackOffers k (t ∷ ts) ↔ (((pop_stack k).0 ≡ t) × StackOffers (pop_stack k).1 ts)
unfolding pop_stack
pop_stack-Offers [] l t ts =
    let (token, text) = next-Agrees l in rw (token, text) ((λ h. h), (λ h. h))
pop_stack-Offers (u ∷ items) l t ts = ((λ h. h), (λ h. h))

pop_stack-size :
    (items : List Token) (l : Lexer)
    → let k : Stack = record { items = items; source = l } in
      stack_size (pop_stack k).1 + weight (pop_stack k).0.typ ≤ stack_size k
unfolding pop_stack
pop_stack-size [] l = omega (arith, left-next l)
pop_stack-size (u ∷ items) l = omega arith

-- What a stream offers is what `pop` returns, and then what the stream behind it offers.
pub Offers-pop :
    (s : TokenStream) (t : Token) (ts : List Token)
    → Offers s (t ∷ ts) ↔ (((pop s).0 ≡ t) × Offers (pop s).1 ts)
unfolding Offers
Offers-pop s t ts =
    let (token, behind) = pop-view s in
    let at = pop_stack-Offers (stacked s) s.lexer t ts in
    (
      (λ h. (token ∙ (at.0 h).0, subst (λ k. StackOffers k ts) (sym behind) (at.0 h).1)),
      (λ h. at.1 (sym token ∙ h.0, subst (λ k. StackOffers k ts) behind h.1)),
    )

pub Offers-push :
    (s : TokenStream) (u t : Token) (ts : List Token)
    → IsValid s
    → Offers (push s u) (t ∷ ts) ↔ ((u ≡ t) × Offers s ts)
unfolding Offers
Offers-push s u t ts v =
    let e = push-view s u v in
    (
      (λ h. unfold push_stack in subst (λ k. StackOffers k (t ∷ ts)) e h),
      (λ h. unfold push_stack in subst (λ k. StackOffers k (t ∷ ts)) (sym e) h),
    )

pub size-pop : (s : TokenStream) → size (pop s).1 + weight (pop s).0.typ ≤ size s
unfolding size
size-pop s =
    let (token, behind) = pop-view s in
    rw token (omega (arith, ap stack_size behind, pop_stack-size (stacked s) s.lexer))

pub size-push : (s : TokenStream) (t : Token) → IsValid s → size (push s t) ≡ size s + weight t.typ
unfolding size push_stack
size-push s t v = omega (arith, ap stack_size (push-view s t v))

pub Offers-nil : (s : TokenStream) → Offers s []
unfolding Offers
Offers-nil s = tt

-- A new stream offers the tokens of its text.
pub Offers-new :
    (expr : Text) (ts : List Token) → Offers (new_token_stream expr) ts ↔ OffersFrom [] expr ts
unfolding Offers new_token_stream
Offers-new expr ts = ((λ h. h), (λ h. h))

pub size-new : (expr : Text) → size (new_token_stream expr) ≡ length expr
unfolding size new_token_stream
size-new expr = omega arith
