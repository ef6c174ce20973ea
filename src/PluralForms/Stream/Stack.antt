-- ===== src/PluralForms/Stream/Stack.antt =====
-- gettext/pluralforms/lexer.go: tokenStream is a stack of tokens over a lexer, whatever the array
-- holds beyond its count and however often it has grown.
use native.Mathlib.Numerals.{add-one}
use sadbox.Prelude.{
  ℕ, zero, suc, ◌-◌, ◌≤◌, ◌<◌, ◌≡◌, refl, ap, ◌∙◌, false, inl, inr, List, [], ◌∷◌, ◌++◌, Text,
  arith, ◌==◌, leb, Bool-cases, length, get_or, set, replicate, length-append, length-set,
  length-replicate, get_or-set_self, get_or-set_lt, get_or-append_lt,
}
use sadbox.PluralForms.Lexer.{Lexer, next}
use sadbox.PluralForms.Stream.{TokenStream, zero_token, new_token_stream, pop, push, grown}
use sadbox.PluralForms.Token.{Token}

-- The tokens that were put back, the last one first.
abbrev pub top_first : ℕ → List Token → List Token
top_first zero xs = []
top_first (suc k) xs = get_or xs k zero_token ∷ top_first k xs

abbrev pub stacked : TokenStream → List Token
stacked s = top_first s.count s.tokens

pub record IsValid (s : TokenStream) : Type 0 where
  pub within : s.count ≤ length s.tokens
  pub not_nil : 0 < length s.tokens

-- The stack over the lexer that `pop` and `push` are to implement.
pub record Stack : Type 0 where
  pub items : List Token
  pub source : Lexer

abbrev pub view : TokenStream → Stack
view s = record { items = stacked s; source = s.lexer }

unfoldable pub pop_stack : Stack → Token × Stack
pop_stack s = elim s.items [
  | [] ↦ ((next s.source).0, record { items = []; source = (next s.source).1 })
  | t ∷ ts ↦ (t, record { items = ts; source = s.source })
]

unfoldable pub push_stack : Stack → Token → Stack
push_stack s t = record { items = t ∷ s.items; source = s.source }

top_first-append :
    (k : ℕ) (xs ys : List Token) → k ≤ length xs → top_first k (xs ++ ys) ≡ top_first k xs
top_first-append zero xs ys h = refl
top_first-append (suc k) xs ys h =
    cc (get_or-append_lt xs ys k zero_token h, top_first-append k xs ys (omega arith))

top_first-set :
    (k i : ℕ) (xs : List Token) (t : Token) → k ≤ i → top_first k (set xs i t) ≡ top_first k xs
top_first-set zero i xs t h = refl
top_first-set (suc k) i xs t h =
    cc (get_or-set_lt xs i k t zero_token h, top_first-set k i xs t (omega arith))

count-lt-grown : (s : TokenStream) → IsValid s → s.count < length (grown s)
unfolding grown
count-lt-grown s v = ground (
  arith,
  length-append s.tokens (replicate (length s.tokens) zero_token),
  length-replicate (length s.tokens) zero_token,
)

top_first-grown : (s : TokenStream) → IsValid s → top_first s.count (grown s) ≡ stacked s
unfolding grown
top_first-grown s v = elim (Bool-cases (leb (length s.tokens) s.count)) [
  | inl full ↦ rw full (top_first-append s.count s.tokens _ v.within)
  | inr room ↦ rw room
]

pub new_token_stream-IsValid : (expr : Text) → IsValid (new_token_stream expr)
unfolding new_token_stream
new_token_stream-IsValid expr = omega arith

pub pop-IsValid : {s : TokenStream} → IsValid s → IsValid (pop s).1
unfolding pop
pop-IsValid v = ground arith

pub push-IsValid : {s : TokenStream} (t : Token) → IsValid s → IsValid (push s t)
unfolding push
push-IsValid {s} t v = omega (arith, count-lt-grown s v, length-set (grown s) s.count t)

suc-eq-zero : (k : ℕ) → (suc k == 0) ≡ false
suc-eq-zero k = ground arith

sub_one : (k : ℕ) → suc k - 1 ≡ k
sub_one k = omega arith

pop-view_at :
    (k : ℕ) (xs : List Token) (l : Lexer)
    → let s : TokenStream = record { lexer = l; tokens = xs; count = k } in
      ((pop s).0 ≡ (pop_stack (view s)).0) × (view (pop s).1 ≡ (pop_stack (view s)).1)
unfolding pop pop_stack
pop-view_at zero xs l = (refl, refl)
pop-view_at (suc k) xs l = rw (suc-eq-zero, pop, sub_one k) (refl, refl)

-- `pop` is the pop of the stack.
pub pop-view :
    (s : TokenStream)
    → ((pop s).0 ≡ (pop_stack (view s)).0) × (view (pop s).1 ≡ (pop_stack (view s)).1)
pop-view s = pop-view_at s.count s.tokens s.lexer

items-push :
    (s : TokenStream) (t : Token)
    → IsValid s
    → top_first (suc s.count) (set (grown s) s.count t) ≡ t ∷ stacked s
items-push s t v = cc (
  get_or-set_self (grown s) s.count t zero_token (count-lt-grown s v),
  top_first-set s.count s.count (grown s) t (omega arith),
  top_first-grown s v,
)

-- `push` is the push of the stack.
pub push-view : (s : TokenStream) (t : Token) → IsValid s → view (push s t) ≡ push_stack (view s) t
unfolding push push_stack
push-view s t v = rw add-one (λ i. record { items = items-push s t v i; source = s.lexer })

-- On a valid stream, `pop` returns what the stack's pop returns, and both operations leave a valid
-- stream that shows what the stack's operation leaves; so the token that was pushed is the one that is
-- popped, and the stack behind it is the one that was there.
pub pop-push-Refines :
    (s : TokenStream) (t : Token)
    → IsValid s
    → (IsValid (pop s).1 × IsValid (push s t))
      × ((pop s).0 ≡ (pop_stack (view s)).0)
      × (view (pop s).1 ≡ (pop_stack (view s)).1)
      × (view (push s t) ≡ push_stack (view s) t)
      × ((pop (push s t)).0 ≡ t)
      × (view (pop (push s t)).1 ≡ view s)
unfolding pop_stack push_stack
pop-push-Refines s t v =
    let (popped, behind) = pop-view s in
    let pushed = push-view s t v in
    let (back, rest) = pop-view (push s t) in
    (
      (pop-IsValid v, push-IsValid t v),
      popped,
      behind,
      pushed,
      back ∙ ap (λ k. (pop_stack k).0) pushed,
      rest ∙ ap (λ k. (pop_stack k).1) pushed,
    )
