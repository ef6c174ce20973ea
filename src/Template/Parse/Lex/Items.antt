-- ===== src/Template/Parse/Lex/Items.antt =====
-- template/parse/lex.go: the items of a whole run are slices of the input, one behind the other.
use sadbox.Prelude.{ℕ, ◌≡◌, refl, Bool, none, some, [], arith, Text}
use sadbox.Template.Parse.Lex.{lex_text, TemplateLexer, Delims, Next, new_template_lexer}
use sadbox.Template.Parse.Lex.Actions.{run_lexer}
use sadbox.Template.Parse.Lex.Slices.{Holds, Lies, Goes, Goes-Holds}
use sadbox.Template.Parse.Lex.Runs.{After, run_from-After}

module _ (input : Text) where
  holds :
      (l : TemplateLexer) (x : Next)
      → Goes l x
      → Holds input l
      → After (Holds input) (Holds input) x
  holds l (none, m) p h = Goes-Holds input p h
  holds l (some s, m) p h = Goes-Holds input p h

  new_template_lexer-Holds : Holds input (new_template_lexer input)
  unfolding new_template_lexer
  new_template_lexer-Holds = record { before = []; split = refl; place = refl; lies = omega arith }

  module _ (is_word : ℕ → Bool) (d : Delims) where
    -- The items of a run lie in the input one behind the other, in the order in which they are sent: each
    -- one starts where the one before it ends or later, and its text is the input's text at its position.
    pub run_lexer-Lies :
        (m : TemplateLexer) → run_lexer is_word d input ≡ some m → Lies input 0 m.items m.start
    unfolding run_lexer
    run_lexer-Lies m e =
        (run_from-After (Holds input) (Holds input) holds is_word d _ lex_text _ m
          new_template_lexer-Holds e).lies
