-- ===== src/Template/Parse/Lex/Slices.antt =====
-- template/parse/lex.go: the items are slices of the input, one behind the other.
use sadbox.Prelude.{
  ℕ, ◌+◌, ◌≤◌, ◌≡◌, refl, sym, ◌∙◌, Bool, true, false, none, some, List, [], ◌∷◌, ◌++◌,
  append_assoc, Text, arith, length, take, drop, length-append, take-append, take-drop, drop-append,
}
use sadbox.Template.Parse.Lex.{
  Item, item, item_error, ItemType, item_eof, LexError, StateFn, TemplateLexer, advance, emit,
  ignore, Next, errorf,
}

abbrev pub is_eof : ItemType → Bool
is_eof item_eof = true
is_eof t = false

-- What happens to a lexer that goes on.
pub data Moves (l : TemplateLexer) : TemplateLexer → Type 0 where
  stays : Moves l l
  advances : {m : TemplateLexer} (n : ℕ) → Moves l m → Moves l (advance n m)
  emits : {m : TemplateLexer} (t : ItemType) → is_eof t ≡ false → Moves l m → Moves l (emit t m)
  ignores : {m : TemplateLexer} → Moves l m → Moves l (ignore m)

-- What a state function answers: it goes on, or the last item is an error or the end.
pub data Goes (l : TemplateLexer) : Next → Type 0 where
  goes : {s : StateFn} {m : TemplateLexer} → Moves l m → Goes l (some s, m)
  errs : {m : TemplateLexer} (e : LexError) → Moves l m → Goes l (errorf e m)
  ends : {m : TemplateLexer} → Moves l m → Goes l (none, emit item_eof m)

-- The items from a place on lie one behind the other in the input, the last one in front of another place.
abbrev pub Lies : Text → ℕ → List Item → ℕ → Type 0
Lies input a [] b = a ≤ b
Lies input a (item t p val ∷ l) b =
    (a ≤ p) × (val ≡ take (length val) (drop p input)) × Lies input (p + length val) l b
Lies input a (item_error p e ∷ l) b = (a ≤ p) × Lies input p l b

Lies-append_item :
    (input : Text) (a : ℕ) (l : List Item) (t : ItemType) (p : ℕ) (val : Text)
    → Lies input a l p
    → val ≡ take (length val) (drop p input)
    → Lies input a (l ++ (item t p val ∷ [])) (p + length val)
Lies-append_item input a [] t p val h e = (h, e, omega arith)
Lies-append_item input a (item u q v ∷ l) t p val (h, g, r) e =
    (h, g, Lies-append_item input (q + length v) l t p val r e)
Lies-append_item input a (item_error q x ∷ l) t p val (h, r) e =
    (h, Lies-append_item input q l t p val r e)

Lies-append_error :
    (input : Text) (a : ℕ) (l : List Item) (e : LexError) (p : ℕ)
    → Lies input a l p
    → Lies input a (l ++ (item_error p e ∷ [])) p
Lies-append_error input a [] e p h = (h, omega arith)
Lies-append_error input a (item u q v ∷ l) e p (h, g, r) =
    (h, g, Lies-append_error input (q + length v) l e p r)
Lies-append_error input a (item_error q x ∷ l) e p (h, r) = (h, Lies-append_error input q l e p r)

Lies-longer :
    (input : Text) (a : ℕ) (l : List Item) (b c : ℕ) → Lies input a l b → b ≤ c → Lies input a l c
Lies-longer input a [] b c h k = omega arith
Lies-longer input a (item u q v ∷ l) b c (h, g, r) k =
    (h, g, Lies-longer input (q + length v) l b c r k)
Lies-longer input a (item_error q x ∷ l) b c (h, r) k = (h, Lies-longer input q l b c r k)

-- The lexer holds the input: what it is done with, the item that it is at and what is ahead.
pub record Holds (input : Text) (l : TemplateLexer) : Type 0 where
  pub before : Text
  pub split : input ≡ before ++ (l.pending ++ l.ahead)
  pub place : length before ≡ l.start
  pub lies : Lies input 0 l.items l.start

module _ (input : Text) (l : TemplateLexer) (h : Holds input l) where
  advance-Holds : (n : ℕ) → Holds input (advance n l)
  unfolding advance
  advance-Holds n = record {
    before = h.before;
    split =
        h.split
        ∙ rw (append_assoc l.pending (take n l.ahead) (drop n l.ahead), take-drop n l.ahead) refl;
    place = h.place;
    lies = h.lies;
  }

  pending_slice : l.pending ≡ take (length l.pending) (drop l.start input)
  pending_slice =
      rw
        (
          ← h.place,
          h.split,
          drop-append h.before (l.pending ++ l.ahead),
          take-append l.pending l.ahead,
        )
        refl

  ignore-Holds : Holds input (ignore l)
  unfolding ignore
  ignore-Holds = record {
    before = h.before ++ l.pending;
    split = h.split ∙ sym (append_assoc h.before l.pending l.ahead);
    place = omega (arith, h.place, length-append h.before l.pending);
    lies = Lies-longer input 0 l.items _ _ h.lies (omega arith);
  }

  emit-Holds : (t : ItemType) → Holds input (emit t l)
  unfolding emit
  emit-Holds t = record {
    before = h.before ++ l.pending;
    split = h.split ∙ sym (append_assoc h.before l.pending l.ahead);
    place = omega (arith, h.place, length-append h.before l.pending);
    lies = Lies-append_item input 0 l.items t l.start l.pending h.lies pending_slice;
  }

  errorf-Holds : (e : LexError) → Holds input (errorf e l).1
  unfolding errorf
  errorf-Holds e = record {
    before = h.before;
    split = h.split;
    place = h.place;
    lies = Lies-append_error input 0 l.items e l.start h.lies;
  }

Moves-Holds : (input : Text) {l m : TemplateLexer} → Moves l m → Holds input l → Holds input m
Moves-Holds input stays h = h
Moves-Holds input (advances {m} n p) h = advance-Holds input m (Moves-Holds input p h) n
Moves-Holds input (emits {m} t q p) h = emit-Holds input m (Moves-Holds input p h) t
Moves-Holds input (ignores {m} p) h = ignore-Holds input m (Moves-Holds input p h)

pub Goes-Holds :
    (input : Text) {l : TemplateLexer} {x : Next} → Goes l x → Holds input l → Holds input x.1
Goes-Holds input (goes p) h = Moves-Holds input p h
Goes-Holds input (errs {m} e p) h = errorf-Holds input m (Moves-Holds input p h) e
Goes-Holds input (ends {m} p) h = emit-Holds input m (Moves-Holds input p h) item_eof
