-- ===== src/Http/Parser/RoundTrip.antt =====
-- http/parser/parser.go: `ParsePairs` reads back the pairs that were written with quoted values.
use sadbox.Prelude.{
  ℕ, Bool, true, false, ◌≡◌, refl, ap, sym, ◌∙◌, inl, inr, some, List, [], ◌∷◌, ◌++◌, map,
  append_assoc, append-nil, Text, arith, ◌==◌, Bool-cases,
}
use sadbox.Http.Parser.{
  is_space, trim_left, keep, trim_right, trim_space, ListState, step, run, finish, parse_list, cut,
  split_last, unquote, parse_pair, Pairs, assign, parse_pairs,
}
use sadbox.Http.Parser.Format.{
  escaped, quoted, format_pair, format_pairs, KeyRunes, StartsBare, HasKeys, assigned,
}

-- The states between the runes, inside and outside the quotes.
abbrev bare : List Text → Text → ListState
bare l b = record { list = l; escape = false; quote = false; b = b }

abbrev inside : List Text → Text → ListState
inside l b = record { list = l; escape = false; quote = true; b = b }

run-append : (s : ListState) (xs ys : Text) → run s (xs ++ ys) ≡ run (run s xs) ys
unfolding run
run-append s [] ys = refl
run-append s (x ∷ xs) ys = run-append (step s x) xs ys

run-key : (l : List Text) (b k : Text) → KeyRunes k → run (bare l b) k ≡ bare l (b ++ k)
unfolding run step
run-key l b [] h = rw append-nil
run-key l b (r ∷ rs) (plain, more) =
    let no_comma : (r == b',') ≡ false = ground arith in
    let no_mark : (r == b'"') ≡ false = ground arith in
    rw (no_comma, no_mark)
      (run-key l (b ++ (r ∷ [])) rs more ∙ ap (bare l) (append_assoc b (r ∷ []) rs))

escaped-plain :
    (r : ℕ) (rs : Text)
    → (r == b'\\') ≡ false
    → (r == b'"') ≡ false
    → escaped (r ∷ rs) ≡ r ∷ escaped rs
escaped-plain r rs no_slash no_mark = rw (no_slash, no_mark)

step-plain :
    (l : List Text) (b : Text) (r : ℕ)
    → (r == b'\\') ≡ false
    → (r == b'"') ≡ false
    → step (inside l b) r ≡ inside l (b ++ (r ∷ []))
unfolding step
step-plain l b r no_slash no_mark = rw (no_slash, no_mark)

run-plain :
    (l : List Text) (b : Text) (r : ℕ) (rs : Text)
    → (r == b'\\') ≡ false
    → (r == b'"') ≡ false
    → run (inside l b) (escaped (r ∷ rs)) ≡ run (inside l (b ++ (r ∷ []))) (escaped rs)
unfolding run
run-plain l b r rs no_slash no_mark =
    ap (run (inside l b)) (escaped-plain r rs no_slash no_mark)
    ∙ ap (λ s. run s (escaped rs)) (step-plain l b r no_slash no_mark)

run-escaped : (l : List Text) (b v : Text) → run (inside l b) (escaped v) ≡ inside l (b ++ v)
unfolding run step
run-escaped l b [] = rw append-nil
run-escaped l b (r ∷ rs) = elim (Bool-cases (r == b'\\')) [
  | inl slash ↦
      rw slash (run-escaped l (b ++ (r ∷ [])) rs ∙ ap (inside l) (append_assoc b (r ∷ []) rs))
  | inr no_slash ↦ elim (Bool-cases (r == b'"')) [
    | inl mark ↦
        rw (no_slash, mark)
          (run-escaped l (b ++ (r ∷ [])) rs ∙ ap (inside l) (append_assoc b (r ∷ []) rs))
    | inr no_mark ↦
        run-plain l b r rs no_slash no_mark
        ∙ run-escaped l (b ++ (r ∷ [])) rs
        ∙ ap (inside l) (append_assoc b (r ∷ []) rs)
  ]
]

-- Trimming keeps a text that ends in a quote.
trim_right-mark : (xs : Text) → trim_right (xs ++ (b'"' ∷ [])) ≡ xs ++ (b'"' ∷ [])
unfolding trim_right keep is_space
trim_right-mark [] = refl
trim_right-mark (x ∷ []) = refl
trim_right-mark (x ∷ y ∷ xs) = rw (trim_right-mark (y ∷ xs))

split_last-mark : (r : ℕ) (xs : Text) → split_last r (xs ++ (b'"' ∷ [])) ≡ (r ∷ xs, b'"')
unfolding split_last
split_last-mark r [] = refl
split_last-mark r (x ∷ xs) = rw (split_last-mark x xs)

unquote-quoted : (v : Text) → unquote (b'"' ∷ (v ++ (b'"' ∷ []))) ≡ some v
unfolding unquote split_last
unquote-quoted [] = refl
unquote-quoted (x ∷ v) = rw (split_last-mark x v)

cut-key : (k v : Text) → KeyRunes k → cut (k ++ (b'=' ∷ v)) ≡ some (k, v)
unfolding cut
cut-key [] v h = refl
cut-key (r ∷ k) v (plain, more) =
    let no_equals : (r == b'=') ≡ false = ground arith in rw (no_equals, cut-key k v more)

parse_pair-quoted : (k v : Text) → KeyRunes k → parse_pair (k ++ quoted v) ≡ some (k, v)
unfolding parse_pair
parse_pair-quoted k v h = rw (parse_pair, cut-key k (b'"' ∷ (v ++ (b'"' ∷ []))) h, unquote-quoted v)

-- Trimming takes the blanks in front of a part.
abbrev blanks : Bool → Text
blanks true = b' ' ∷ []
blanks false = []

trim_left-bare : (k v : Text) → StartsBare k → trim_left (k ++ quoted v) ≡ k ++ quoted v
unfolding trim_left is_space
trim_left-bare [] v h = refl
trim_left-bare (r ∷ k) v h = rw h

trim_left-blanks :
    (w : Bool) (k v : Text) → StartsBare k → trim_left (blanks w ++ (k ++ quoted v)) ≡ k ++ quoted v
unfolding trim_left is_space
trim_left-blanks true k v h = trim_left-bare k v h
trim_left-blanks false k v h = trim_left-bare k v h

ends_in_mark : (k v : Text) → k ++ quoted v ≡ (k ++ (b'=' ∷ b'"' ∷ v)) ++ (b'"' ∷ [])
ends_in_mark k v = sym (append_assoc k (b'=' ∷ b'"' ∷ v) (b'"' ∷ []))

trim_space-part :
    (w : Bool) (k v : Text)
    → StartsBare k
    → trim_space (blanks w ++ (k ++ quoted v)) ≡ k ++ quoted v
unfolding trim_space
trim_space-part w k v h =
    rw (trim_left-blanks w k v h, ends_in_mark k v) (trim_right-mark (k ++ (b'=' ∷ b'"' ∷ v)))

run-quoted :
    (l : List Text) (b v : Text) → run (bare l b) (quoted (escaped v)) ≡ bare l (b ++ quoted v)
unfolding run step
run-quoted l b v =
    let opened = (b ++ (b'=' ∷ [])) ++ (b'"' ∷ []) in
    run-append (inside l opened) (escaped v) (b'"' ∷ [])
    ∙ ap (λ s. run s (b'"' ∷ [])) (run-escaped l opened v)
    ∙ ap (bare l) (simp append_assoc)

-- What the loop does on a written pair.
run-pair :
    (l : List Text) (w k v : Text)
    → KeyRunes k
    → run (bare l w) (format_pair (k, v)) ≡ bare l (w ++ (k ++ quoted v))
run-pair l w k v h =
    rw (run-append (bare l w) k (quoted (escaped v)), run-key l w k h, run-quoted l (w ++ k) v)
      (ap (bare l) (append_assoc w k (quoted v)))

-- The part that a pair is written as.
abbrev part : Text × Text → Text
part (k, v) = k ++ quoted v

finish-part :
    (l : List Text) (w : Bool) (k v : Text)
    → StartsBare k
    → finish (bare l (blanks w ++ (k ++ quoted v))) ≡ l ++ (part (k, v) ∷ [])
unfolding finish
finish-part l true k v h = ap (λ t. l ++ (t ∷ [])) (trim_space-part true k v h)
finish-part l false [] v h = ap (λ t. l ++ (t ∷ [])) (trim_space-part false [] v h)
finish-part l false (r ∷ k) v h = ap (λ t. l ++ (t ∷ [])) (trim_space-part false (r ∷ k) v h)

run-comma :
    (l : List Text) (w : Bool) (k v rest : Text)
    → StartsBare k
    → run (bare l (blanks w ++ (k ++ quoted v))) (b',' ∷ b' ' ∷ rest)
      ≡ run (bare (l ++ (part (k, v) ∷ [])) (blanks true)) rest
unfolding run step
run-comma l w k v rest h =
    ap (λ t. run (bare (l ++ (t ∷ [])) (blanks true)) rest) (trim_space-part w k v h)

run-pairs :
    (l : List Text) (w : Bool) (p : Text × Text) (ps : Pairs)
    → HasKeys (p ∷ ps)
    → finish (run (bare l (blanks w)) (format_pairs (p ∷ ps))) ≡ l ++ map part (p ∷ ps)
run-pairs l w (k, v) [] h = ap finish (run-pair l (blanks w) k v h.0.0) ∙ finish-part l w k v h.0.1
run-pairs l w (k, v) (q ∷ ps) h =
    let rest = b',' ∷ b' ' ∷ format_pairs (q ∷ ps) in
    ap finish (
      run-append (bare l (blanks w)) (format_pair (k, v)) rest
      ∙ ap (λ s. run s rest) (run-pair l (blanks w) k v h.0.0)
      ∙ run-comma l w k v (format_pairs (q ∷ ps)) h.0.1)
    ∙ run-pairs (l ++ (part (k, v) ∷ [])) true q ps h.1
    ∙ append_assoc l (part (k, v) ∷ []) (map part (q ∷ ps))

assign-parts : (m ps : Pairs) → HasKeys ps → assign m (map part ps) ≡ some (assigned m ps)
unfolding assign
assign-parts m [] h = refl
assign-parts m ((k, v) ∷ ps) h =
    rw (assign, parse_pair-quoted k v h.0.0) (assign-parts ((k, v) ∷ m) ps h.1)

parse_list-format_pairs : (ps : Pairs) → HasKeys ps → parse_list (format_pairs ps) ≡ map part ps
unfolding parse_list
parse_list-format_pairs [] h = unfold run finish in refl
parse_list-format_pairs (p ∷ ps) h = run-pairs [] false p ps h

-- `ParsePairs` reads back every list of pairs `key="value"`, separated by a comma and a blank, in which
-- each quote and each backslash of a value has a backslash in front: it returns the map that the
-- assignments of the pairs make, in their order. A value is any text; a key holds no comma, no quote
-- and no `=`, and begins with no space.
pub parse_pairs-format_pairs :
    (ps : Pairs) → HasKeys ps → parse_pairs (format_pairs ps) ≡ some (assigned [] ps)
unfolding parse_pairs
parse_pairs-format_pairs ps h = ap (assign []) (parse_list-format_pairs ps h) ∙ assign-parts [] ps h
