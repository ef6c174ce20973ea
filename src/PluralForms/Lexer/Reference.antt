-- ===== src/PluralForms/Lexer/Reference.antt =====
-- gettext/pluralforms/lexer.go: the lexer as a function of the text that is still ahead, with no
-- position, no width and no backup; and the proof that `next` computes it.
use sadbox.Prelude.{
  ℕ, zero, suc, ◌+◌, ◌-◌, ◌<◌, ◌≡◌, refl, ap, subst, ◌∙◌, false, inl, inr, none, some, [], ◌∷◌,
  ◌++◌, Text, arith, ◌==◌, if◌then◌else◌, Bool-cases, length, take, drop, has_rune, length-drop,
  drop-add, get_elem?-of_drop_nil, get_elem?-of_drop_cons, drop-suc_of_cons,
}
use sadbox.PluralForms.Lexer.{
  Lexer, numbers, symbols, next_rune, backup, skip_run, left, next_run, not_empty,
  invalid_character, symbol_token, next_default, single_runes, single_token, next_switch, next_loop,
  next,
}
use sadbox.PluralForms.Token.{Token, token, token_eof, token_int, token_var}

-- The text ahead of a lexer.
abbrev pub ahead : Lexer → Text
ahead l = drop l.pos l.input

-- The longest run of runes of a set, and what follows it.
abbrev pub take_in : Text → Text → Text
take_in valid [] = []
take_in valid (x ∷ xs) = if has_rune valid x then x ∷ take_in valid xs else []

abbrev pub drop_in : Text → Text → Text
drop_in valid [] = []
drop_in valid (x ∷ xs) = if has_rune valid x then drop_in valid xs else x ∷ xs

pub take_in-append-drop_in : (valid xs : Text) → take_in valid xs ++ drop_in valid xs ≡ xs
take_in-append-drop_in valid [] = refl
take_in-append-drop_in valid (x ∷ xs) = elim (Bool-cases (has_rune valid x)) [
  | inl e ↦ rw e (ap (◌∷◌ x) (take_in-append-drop_in valid xs))
  | inr e ↦ rw e
]

-- The `default` case at a text that begins with `r`.
abbrev pub lex_default : ℕ → Text → Token × Text
lex_default r text =
    if not_empty (take_in numbers text)
    then (record { typ = token_int; val = take_in numbers text }, drop_in numbers text)
    else if not_empty (take_in symbols text)
    then (symbol_token r (take_in symbols text), drop_in symbols text)
    else (invalid_character r, text)

-- The next token of a text, and the text behind it.
unfoldable pub lex : Text → Token × Text
lex [] = (token token_eof, [])
lex (r ∷ rs) =
    if r == b' '
    then lex rs
    else if r == b'n'
    then (token token_var, rs)
    else if has_rune single_runes r
    then (single_token r, rs)
    else lex_default r (r ∷ rs)

next_rune_nil : (l : Lexer) → ahead l ≡ [] → next_rune l ≡ (none, record l { width = 0 })
unfolding next_rune
next_rune_nil l h = rw (get_elem?-of_drop_nil l.pos l.input h, next_rune)

next_rune_cons :
    (l : Lexer) {r : ℕ} {rs : Text}
    → ahead l ≡ r ∷ rs
    → next_rune l ≡ (some r, record l { pos = l.pos + 1; width = 1 })
unfolding next_rune
next_rune_cons l h = rw (get_elem?-of_drop_cons l.pos l.input h, next_rune)

take-length-take_in : (valid xs : Text) → take (length (take_in valid xs)) xs ≡ take_in valid xs
take-length-take_in valid [] = refl
take-length-take_in valid (x ∷ xs) = elim (Bool-cases (has_rune valid x)) [
  | inl e ↦ rw e (ap (◌∷◌ x) (take-length-take_in valid xs))
  | inr e ↦ rw e
]

drop-length-take_in : (valid xs : Text) → drop (length (take_in valid xs)) xs ≡ drop_in valid xs
drop-length-take_in valid [] = refl
drop-length-take_in valid (x ∷ xs) = elim (Bool-cases (has_rune valid x)) [
  | inl e ↦ rw e (drop-length-take_in valid xs)
  | inr e ↦ rw e
]

-- With a round for each rune ahead and one more, the loop of `nextRun` stops behind the run.
skip_run_lem :
    (xs : Text) (k : ℕ) (valid : Text) (l : Lexer)
    → ahead l ≡ xs
    → length xs < k
    → ((backup (skip_run k valid l)).input ≡ l.input)
      × ((backup (skip_run k valid l)).pos ≡ l.pos + length (take_in valid xs))
unfolding skip_run
skip_run_lem xs zero valid l e h = elim h [ ]
skip_run_lem [] (suc k) valid l e h = rw (next_rune_nil l e) (refl, omega arith)
skip_run_lem (x ∷ xs) (suc k) valid l e h = elim (Bool-cases (has_rune valid x)) [
  | inl v ↦
      let next_pos = drop-suc_of_cons l.pos l.input e in
      let ih =
        skip_run_lem xs k valid (record l { pos = l.pos + 1; width = 1 }) next_pos (omega arith) in
      rw (next_rune_cons l e, v) (ih.0, omega (arith, ih.1))
  | inr v ↦ rw (next_rune_cons l e, v) (refl, omega arith)
]

-- `nextRun` returns the run ahead, and leaves what follows it.
pub next_run_lem :
    (valid : Text) (l : Lexer)
    → ((next_run valid l).0 ≡ take_in valid (ahead l))
      × (ahead (next_run valid l).1 ≡ drop_in valid (ahead l))
unfolding next_run
next_run_lem valid l =
    let n = length (take_in valid (ahead l)) in
    let at =
      skip_run_lem (ahead l) (suc (left l)) valid l refl
        (omega (arith, length-drop l.pos l.input)) in
    let moved : (l.pos + n) - l.pos ≡ n = omega arith in
    (
      rw (at.1, moved) (take-length-take_in valid (ahead l)),
      rw (at.0, at.1, drop-add l.pos n l.input) (drop-length-take_in valid (ahead l)),
    )

-- A lexer's answer agrees with the reference: the same token, and the same text ahead.
abbrev pub Agrees : Token × Lexer → Token × Text → Type 0
Agrees a b = (a.0 ≡ b.0) × (ahead a.1 ≡ b.1)

drop_in_of_empty : (valid xs : Text) → not_empty (take_in valid xs) ≡ false → drop_in valid xs ≡ xs
drop_in_of_empty valid [] h = refl
drop_in_of_empty valid (x ∷ xs) h = ground arith

-- The symbols' run starts where the empty run of digits did.
second_run :
    (l : Lexer)
    → not_empty (take_in numbers (ahead l)) ≡ false
    → ((next_run symbols (next_run numbers l).1).0 ≡ take_in symbols (ahead l))
      × (ahead (next_run symbols (next_run numbers l).1).1 ≡ drop_in symbols (ahead l))
second_run l h =
    let first = (next_run_lem numbers l).1 ∙ drop_in_of_empty numbers (ahead l) h in
    let second = next_run_lem symbols (next_run numbers l).1 in rw first at second

next_default-Agrees : (r : ℕ) (l : Lexer) → Agrees (next_default r l) (lex_default r (ahead l))
unfolding next_default
next_default-Agrees r l = elim (Bool-cases (not_empty (take_in numbers (ahead l)))) [
  | inl digits ↦ rw ((next_run_lem numbers l).0, digits) (refl, (next_run_lem numbers l).1)
  | inr no_digits ↦
      let (run, rest) = second_run l no_digits in
      elim (Bool-cases (not_empty (take_in symbols (ahead l)))) [
        | inl found ↦ rw ((next_run_lem numbers l).0, no_digits, run, found) (refl, rest)
        | inr none_found ↦
            rw ((next_run_lem numbers l).0, no_digits, run, none_found)
              (refl, rest ∙ drop_in_of_empty symbols (ahead l) none_found)
      ]
]

lex_cons-Agrees :
    (r : ℕ) {rs : Text} (again : Token × Lexer) (l' : Lexer)
    → Agrees again (lex rs)
    → ahead l' ≡ rs
    → ahead (backup l') ≡ r ∷ rs
    → Agrees (next_switch again (some r) l') (lex (r ∷ rs))
unfolding next_switch lex
lex_cons-Agrees r {rs} again l' h e b = elim (Bool-cases (r == b' ')) [
  | inl space ↦ rw space h
  | inr not_space ↦ elim (Bool-cases (r == b'n')) [
    | inl n ↦ rw (not_space, n) (refl, e)
    | inr not_n ↦ elim (Bool-cases (has_rune single_runes r)) [
      | inl one ↦ rw (not_space, not_n, one) (refl, e)
      | inr more ↦
          rw (not_space, not_n, more)
            (subst (λ t. Agrees (next_default r (backup l')) (lex_default r t)) b
              (next_default-Agrees r (backup l')))
    ]
  ]
]

next_loop-Agrees :
    (xs : Text) (k : ℕ) (l : Lexer) → ahead l ≡ xs → length xs < k → Agrees (next_loop k l) (lex xs)
unfolding next_loop
next_loop-Agrees xs zero l e h = elim h [ ]
next_loop-Agrees [] (suc k) l e h = rw (next_rune_nil l e) (unfold next_switch lex in (refl, e))
next_loop-Agrees (x ∷ xs) (suc k) l e h =
    let l' : Lexer = record l { pos = l.pos + 1; width = 1 } in
    let behind = drop-suc_of_cons l.pos l.input e in
    let back : l.pos + 1 - 1 ≡ l.pos = omega arith in
    rw (next_rune_cons l e)
      (lex_cons-Agrees x _ l' (next_loop-Agrees xs k l' behind (omega arith)) behind (rw back e))

-- `next` returns the first token of the text ahead, and leaves the text behind that token: the
-- lexer's loops end, whatever the text holds.
pub next-Agrees : (l : Lexer) → Agrees (next l) (lex (ahead l))
unfolding next
next-Agrees l =
    next_loop-Agrees (ahead l) (suc (left l)) l refl (omega (arith, length-drop l.pos l.input))
