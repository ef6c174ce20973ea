-- ===== src/Template/Parse/Lex/Final.antt =====
-- template/parse/lex.go: a run sends the end or an error, and then nothing.
use sadbox.Prelude.{
  ℕ, ◌≡◌, refl, Bool, true, false, not, ◌&&◌, some, List, [], ◌∷◌, ◌++◌, arith, Text,
}
use sadbox.Template.Parse.Lex.{
  Item, item, item_error, lex_text, TemplateLexer, advance, emit, ignore, errorf, Next,
  new_template_lexer, new_delims,
}
use sadbox.Template.Parse.Lex.Actions.{run_lexer}
use sadbox.Template.Parse.Lex.Slices.{
  is_eof, Moves, stays, advances, emits, ignores, Goes, goes, errs, ends,
}
use sadbox.Template.Parse.Lex.Runs.{After, run_from-After}
use sadbox.Template.Parse.Lex.Total.{run_lexer-some}

abbrev pub is_open : Item → Bool
is_open (item t p val) = not (is_eof t)
is_open (item_error p e) = false

abbrev pub all_open : List Item → Bool
all_open [] = true
all_open (x ∷ l) = is_open x && all_open l

-- The last item, and no other one, is the end or an error.
unfoldable pub closed : List Item → Bool
closed [] = false
closed (x ∷ []) = not (is_open x)
closed (x ∷ y ∷ l) = is_open x && closed (y ∷ l)

all_open-append :
    (l : List Item) (x : Item)
    → all_open l ≡ true
    → is_open x ≡ true
    → all_open (l ++ (x ∷ [])) ≡ true
all_open-append [] x h k = ground arith
all_open-append (y ∷ l) x h k =
    let r : (all_open l ≡ true → all_open (l ++ (x ∷ [])) ≡ true) = λ q. all_open-append l x q k in
    ground arith

closed-append :
    (l : List Item) (x : Item)
    → all_open l ≡ true
    → is_open x ≡ false
    → closed (l ++ (x ∷ [])) ≡ true
unfolding closed
closed-append [] x h k = ground arith
closed-append (y ∷ []) x h k = ground arith
closed-append (y ∷ z ∷ l) x h k =
    let r : (all_open (z ∷ l) ≡ true → closed (z ∷ (l ++ (x ∷ []))) ≡ true) =
      λ q. closed-append (z ∷ l) x q k in
    ground arith

Moves-open : {l m : TemplateLexer} → Moves l m → all_open l.items ≡ true → all_open m.items ≡ true
unfolding advance emit ignore
Moves-open stays h = h
Moves-open (advances n p) h = Moves-open p h
Moves-open (emits {m} t q p) h =
    all_open-append m.items (item t m.start m.pending) (Moves-open p h) (rw q refl)
Moves-open (ignores p) h = Moves-open p h

abbrev Opened : TemplateLexer → Type 0
Opened l = all_open l.items ≡ true

abbrev Closed : TemplateLexer → Type 0
Closed l = closed l.items ≡ true

keeps : (l : TemplateLexer) (x : Next) → Goes l x → Opened l → After Opened Closed x
unfolding errorf emit
keeps l x (goes p) h = Moves-open p h
keeps l x (errs {m} e p) h = closed-append m.items _ (Moves-open p h) refl
keeps l x (ends {m} p) h = closed-append m.items _ (Moves-open p h) refl

module _ (is_word : ℕ → Bool) (left right : Text) (input : Text) where
  run_lexer-Closed_of_some :
      (m : TemplateLexer) → run_lexer is_word (new_delims left right) input ≡ some m → Closed m
  unfolding run_lexer new_template_lexer
  run_lexer-Closed_of_some m e =
      run_from-After Opened Closed keeps is_word (new_delims left right) _ lex_text _ m refl e

  -- Whatever the delimiters and the input, the lexer's run ends within three calls of state functions for
  -- each rune and three more, and it has sent the end of the input or an error as its last item, and
  -- neither of them before.
  pub run_lexer-closed :
      (m : TemplateLexer) × (run_lexer is_word (new_delims left right) input ≡ some m)
      × (closed m.items ≡ true)
  run_lexer-closed =
      let (m, e) = run_lexer-some is_word left right input in (m, e, run_lexer-Closed_of_some m e)
