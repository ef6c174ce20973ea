-- ===== src/Template/Escape/Markup/Entries.antt =====
-- template/escape: the replacements of a table.
use sadbox.Prelude.{ℕ, ◌≡◌, Bool, true, ◌&&◌, some, [], ◌∷◌, Text, arith, ◌==◌, if_elim}
use sadbox.Template.Escape.Replace.Safe.{all}
use sadbox.Template.Escape.Markup.{Table, table_entry}

pub same_values : (ok : ℕ → Bool) (u t : Text) → all ok u ≡ true → some u ≡ some t → all ok t ≡ true
same_values ok u t h e = let q : u ≡ t = cc in rw (← q) h

-- Bytes that are allowed, by a test.
abbrev pub values : (ℕ → Bool) → Table → Bool
values ok [] = true
values ok ((k, t) ∷ m) = all ok t && values ok m

pub table_entry-values :
    (ok : ℕ → Bool) (m : Table) (r : ℕ) (t : Text)
    → values ok m ≡ true
    → table_entry m r ≡ some t
    → all ok t ≡ true
table_entry-values ok [] r t h e = cc
table_entry-values ok ((k, u) ∷ m) r t h e =
    if_elim (λ o. o ≡ some t → all ok t ≡ true) (k == r)
      (λ _ q. same_values ok u t (ground arith) q)
      (λ _ e. table_entry-values ok m r t (ground arith) e) e
