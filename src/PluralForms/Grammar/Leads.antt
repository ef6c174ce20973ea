-- ===== src/PluralForms/Grammar/Leads.antt =====
-- One stream behind another: the tokens between them, and what the parser's steps do to the stream.
use sadbox.Prelude.{
  ◌+◌, ◌≤◌, ◌≡◌, refl, List, [], ◌∷◌, ◌++◌, append_assoc, arith, length, length-append,
}
use sadbox.PluralForms.Lexer.Progress.{weight}
use sadbox.PluralForms.Stream.Offers.{
  Offers, size, Offers-nil, Offers-pop, Offers-push, size-pop, size-push,
}
use sadbox.PluralForms.Stream.Stack.{IsValid, pop-IsValid, push-IsValid}
use sadbox.PluralForms.Stream.{TokenStream, pop, push}
use sadbox.PluralForms.Token.{Token}

-- `s'` is what is left of `s` behind the tokens `ts`.
pub record Leads (s : TokenStream) (ts : List Token) (s' : TokenStream) : Type 0 where
  pub valid : IsValid s'
  pub shrinks : size s' + length ts ≤ size s
  pub offers : (rest : List Token) → Offers s' rest → Offers s (ts ++ rest)

-- The token that `pop` would return.
abbrev pub peek : TokenStream → Token
peek s = (pop s).0

-- The stream after a token was popped and put back.
abbrev pub back : TokenStream → TokenStream
back s = push (pop s).1 (pop s).0

pub Leads-trans :
    {s s' s'' : TokenStream} (ts us : List Token)
    → Leads s ts s'
    → Leads s' us s''
    → Leads s (ts ++ us) s''
Leads-trans ts us h k = record {
  valid = k.valid;
  shrinks = omega (arith, h.shrinks, k.shrinks, length-append ts us);
  offers = λ rest r. rw append_assoc (h.offers (us ++ rest) (k.offers rest r));
}

pub Leads-refl : (s : TokenStream) → IsValid s → Leads s [] s
Leads-refl s v = record { valid = v; shrinks = omega arith; offers = λ rest r. r }

-- A pop passes a proper token.
pub Leads-pop :
    (s : TokenStream) → IsValid s → weight (peek s).typ ≡ 1 → Leads s (peek s ∷ []) (pop s).1
Leads-pop s v w = record {
  valid = pop-IsValid v;
  shrinks = omega (arith, size-pop s);
  offers = λ rest r. (Offers-pop s (peek s) rest).1 (refl, r);
}

Offers-back : (s : TokenStream) (ts : List Token) → IsValid s → Offers (back s) ts → Offers s ts
Offers-back s [] v h = Offers-nil s
Offers-back s (t ∷ ts) v h =
    let at = (Offers-push (pop s).1 (pop s).0 t ts (pop-IsValid v)).0 h in (Offers-pop s t ts).1 at

-- Putting back what was popped passes nothing.
pub Leads-back : (s : TokenStream) → IsValid s → Leads s [] (back s)
Leads-back s v = record {
  valid = push-IsValid (pop s).0 (pop-IsValid v);
  shrinks = omega (arith, size-pop s, size-push (pop s).1 (pop s).0 (pop-IsValid v));
  offers = λ rest r. Offers-back s rest v r;
}

pub peek-push : (s : TokenStream) (t : Token) → IsValid s → peek (push s t) ≡ t
peek-push s t v =
    ((Offers-pop (push s t) t []).0 ((Offers-push s t t [] v).1 (refl, Offers-nil _))).0
