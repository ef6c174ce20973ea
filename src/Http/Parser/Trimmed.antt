-- ===== src/Http/Parser/Trimmed.antt =====
-- http/parser/parser.go: the parts of a list have no blanks around them.
use sadbox.Prelude.{
  ℕ, Bool, true, false, ◌≡◌, refl, ap, ◌∙◌, inl, inr, List, [], ◌∷◌, ◌++◌, Text, ◌==◌, Bool-cases,
  if◌then◌else◌,
}
use sadbox.Http.Parser.{
  is_space, trim_left, keep, trim_right, trim_space, ListState, step, run, finish, start,
  parse_list,
}

keep-keep : (r : ℕ) (xs : Text) → trim_right xs ≡ xs → trim_right (keep r xs) ≡ keep r xs
unfolding keep trim_right
keep-keep r [] h = elim (Bool-cases (is_space r)) [
  | inl space ↦ rw space
  | inr other ↦ rw (other, keep, other)
]
keep-keep r (x ∷ xs) h = rw h

trim_right_idem : (s : Text) → trim_right (trim_right s) ≡ trim_right s
unfolding trim_right
trim_right_idem [] = refl
trim_right_idem (r ∷ rs) = keep-keep r (trim_right rs) (trim_right_idem rs)

trim_left-bare : (r : ℕ) (xs : Text) → is_space r ≡ false → trim_left (keep r xs) ≡ keep r xs
unfolding keep trim_left
trim_left-bare r [] h = rw (h, trim_left, h)
trim_left-bare r (x ∷ xs) h = rw h

-- Trimming the right end of a text that begins with no space leaves such a text, or nothing.
trim_left-trim_right : (s : Text) → trim_left (trim_right (trim_left s)) ≡ trim_right (trim_left s)
unfolding trim_left trim_right
trim_left-trim_right [] = refl
trim_left-trim_right (r ∷ rs) = elim (Bool-cases (is_space r)) [
  | inl space ↦ rw space (trim_left-trim_right rs)
  | inr other ↦ rw other (trim_left-bare r (trim_right rs) other)
]

abbrev pub IsTrimmed : Text → Type 0
IsTrimmed s = trim_space s ≡ s

trim_space-IsTrimmed : (s : Text) → IsTrimmed (trim_space s)
unfolding trim_space
trim_space-IsTrimmed s = ap trim_right (trim_left-trim_right s) ∙ trim_right_idem (trim_left s)

abbrev pub AllTrimmed : List Text → Type 0
AllTrimmed [] = Unit
AllTrimmed (p ∷ ps) = IsTrimmed p × AllTrimmed ps

AllTrimmed-append :
    (ps : List Text) (s : Text) → AllTrimmed ps → AllTrimmed (ps ++ (trim_space s ∷ []))
AllTrimmed-append [] s h = (trim_space-IsTrimmed s, tt)
AllTrimmed-append (p ∷ ps) s h = (h.0, AllTrimmed-append ps s h.1)

if-AllTrimmed :
    (c : Bool) (s t : ListState)
    → AllTrimmed s.list
    → AllTrimmed t.list
    → AllTrimmed (if c then s else t).list
if-AllTrimmed true s t h g = h
if-AllTrimmed false s t h g = g

step-AllTrimmed : (s : ListState) (r : ℕ) → AllTrimmed s.list → AllTrimmed (step s r).list
unfolding step
step-AllTrimmed s r h = if-AllTrimmed s.escape _ _ h (
    if-AllTrimmed s.quote _ _ (if-AllTrimmed (r == b'\\') _ _ h (if-AllTrimmed (r == b'"') _ _ h h))
      (if-AllTrimmed (r == b',') _ _ (AllTrimmed-append s.list s.b h)
        (if-AllTrimmed (r == b'"') _ _ h h)))

run-AllTrimmed : (s : ListState) (rs : Text) → AllTrimmed s.list → AllTrimmed (run s rs).list
unfolding run
run-AllTrimmed s [] h = h
run-AllTrimmed s (r ∷ rs) h = run-AllTrimmed (step s r) rs (step-AllTrimmed s r h)

finish-AllTrimmed :
    (l : List Text) (e q : Bool) (b : Text)
    → AllTrimmed l
    → AllTrimmed (finish (record { list = l; escape = e; quote = q; b = b }))
unfolding finish
finish-AllTrimmed l e q [] h = h
finish-AllTrimmed l e q (r ∷ rs) h = AllTrimmed-append l (r ∷ rs) h

-- No part of a list has a blank at its front or at its end, also where the quotes around it are not
-- closed.
pub parse_list-AllTrimmed : (value : Text) → AllTrimmed (parse_list value)
unfolding parse_list
parse_list-AllTrimmed value =
    let s = run start value in
    finish-AllTrimmed s.list s.escape s.quote s.b (run-AllTrimmed start value tt)
