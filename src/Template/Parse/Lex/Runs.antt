-- ===== src/Template/Parse/Lex/Runs.antt =====
-- template/parse/lex.go: what every call of a state function keeps, a run keeps.
use sadbox.Prelude.{ℕ, zero, suc, ◌≡◌, Bool, Option, none, some}
use sadbox.Template.Parse.Lex.{StateFn, TemplateLexer, Delims, Next}
use sadbox.Template.Parse.Lex.Actions.{run_from, call_state}
use sadbox.Template.Parse.Lex.Slices.{Goes}
use sadbox.Template.Parse.Lex.Moves.{call_state-Goes}

module _ (P Q : TemplateLexer → Type 0) where
  -- One predicate of a lexer that goes on, another one of a lexer that has stopped.
  abbrev pub After : Next → Type 0
  After (none, l) = Q l
  After (some s, l) = P l

  stopped : (l m : TemplateLexer) → Q l → some l ≡ some m → Q m
  stopped l m h e = let q : l ≡ m = cc in rw (← q) h

  called :
      (f : StateFn → TemplateLexer → Option TemplateLexer) (m : TemplateLexer) (x : Next)
      → ((s : StateFn) (l : TemplateLexer) → P l → f s l ≡ some m → Q m)
      → After x
      → (elim x.0 [ none ↦ some x.1 | some s ↦ f s x.1 ]) ≡ some m
      → Q m
  called f m (none, l) k h e = stopped l m h e
  called f m (some s, l) k h e = k s l h e

  module _ (keeps : (l : TemplateLexer) (x : Next) → Goes l x → P l → After x) (is_word : ℕ → Bool)
      (d : Delims) where
    pub run_from-After :
        (k : ℕ) (s : StateFn) (l m : TemplateLexer) → P l → run_from is_word k d s l ≡ some m → Q m
    unfolding run_from
    run_from-After zero s l m h e = cc
    run_from-After (suc k) s l m h e =
        called (run_from is_word k d) m (call_state is_word d s l)
          (λ s' l' h' q. run_from-After k s' l' m h' q)
          (keeps l (call_state is_word d s l) (call_state-Goes l is_word d s) h) e
