-- ===== src/Http/Parser/Panics.antt =====
-- http/parser/parser.go: on which texts `ParsePairs` panics.
use sadbox.Prelude.{
  ℕ, false, ◌&&◌, ◌≡◌, ◌≢◌, ◌↔◌, ◌⊎◌, refl, ap, ◌∙◌, inl, inr, none, some, List, [], ◌∷◌, ◌++◌,
  Text, arith, ◌==◌, ==_iff, Bool-cases, Option-cases,
}
use sadbox.Http.Parser.{
  parse_list, cut, split_last, unquote, parse_pair, Pairs, assign, parse_pairs,
}

abbrev pub NoEquals : Text → Type 0
NoEquals [] = Unit
NoEquals (r ∷ rs) = (r ≢ b'=') × NoEquals rs

-- A part that ends in its first `=`, or in `="` with its first `=`.
abbrev pub IsFatal : Text → Type 0
IsFatal pair =
    (k : Text) × NoEquals k × ((pair ≡ k ++ (b'=' ∷ [])) ⊎ (pair ≡ k ++ (b'=' ∷ b'"' ∷ [])))

abbrev pub HasFatal : List Text → Type 0
HasFatal [] = ⊥
HasFatal (p ∷ ps) = IsFatal p ⊎ HasFatal ps

cut-NoEquals : (k v : Text) → NoEquals k → cut (k ++ (b'=' ∷ v)) ≡ some (k, v)
unfolding cut
cut-NoEquals [] v h = refl
cut-NoEquals (r ∷ k) v (other, more) =
    let no_equals : (r == b'=') ≡ false = ground arith in rw (no_equals, cut-NoEquals k v more)

IsFatal-parse_pair : (pair : Text) → IsFatal pair → parse_pair pair ≡ none
unfolding parse_pair unquote
IsFatal-parse_pair pair (k, h, inl e) = rw (e, parse_pair, cut-NoEquals k [] h)
IsFatal-parse_pair pair (k, h, inr e) = rw (e, parse_pair, cut-NoEquals k (b'"' ∷ []) h)

ne_of_false : (a b : ℕ) → (a == b) ≡ false → a ≢ b
ne_of_false a b h = ground arith

-- What `cut` finds is in the text.
cut_sound :
    (s : Text)
    → (cut s ≡ none) ⊎ ((k v : Text) × (cut s ≡ some (k, v)) × NoEquals k × (s ≡ k ++ (b'=' ∷ v)))
unfolding cut
cut_sound [] = inl refl
cut_sound (r ∷ rs) = elim (Bool-cases (r == b'=')) [
  | inl equals ↦ inr ([], rs, rw equals, tt, ap (λ t. t ∷ rs) ((==_iff r b'=').0 equals))
  | inr other ↦ elim (cut_sound rs) [
    | inl missing ↦ inl (rw (other, missing))
    | inr (k, v, found, h, e) ↦
        inr (r ∷ k, v, rw (other, found), (ne_of_false r b'=' other, h), ap (◌∷◌ r) e)
  ]
]

unquote-none : (v : Text) → unquote v ≡ none → (v ≡ []) ⊎ (v ≡ b'"' ∷ [])
unfolding unquote
unquote-none [] h = inl refl
unquote-none (r ∷ []) h = elim (Bool-cases (r == b'"')) [
  | inl mark ↦ inr (ap (λ t. t ∷ []) ((==_iff r b'"').0 mark))
  | inr other ↦ let bad = rw other at h in cc
]
unquote-none (r ∷ x ∷ xs) h = elim (Bool-cases (r == b'"' && (split_last x xs).1 == b'"')) [
  | inl both ↦ let bad = rw both at h in cc
  | inr other ↦ let bad = rw other at h in cc
]

parse_pair-IsFatal : (pair : Text) → parse_pair pair ≡ none → IsFatal pair
unfolding parse_pair
parse_pair-IsFatal pair h = elim (cut_sound pair) [
  | inl missing ↦ let bad = rw (missing, parse_pair) at h in cc
  | inr (k, v, found, no_equals, e) ↦ elim (Option-cases (unquote v)) [
    | inl panics ↦ elim (unquote-none v panics) [
      | inl nothing ↦ (k, no_equals, inl (e ∙ ap (λ w. k ++ (b'=' ∷ w)) nothing))
      | inr mark ↦ (k, no_equals, inr (e ∙ ap (λ w. k ++ (b'=' ∷ w)) mark))
    ]
    | inr (u, fine) ↦ let bad = rw (parse_pair, found, fine) at h in cc
  ]
]

assign-HasFatal : (m : Pairs) (ps : List Text) → (assign m ps ≡ none) ↔ HasFatal ps
unfolding assign
assign-HasFatal m [] = (λ h. cc, λ h. absurd h)
assign-HasFatal m (p ∷ ps) = elim (Option-cases (parse_pair p)) [
  | inl panics ↦ (λ h. inl (parse_pair-IsFatal p panics), λ h. rw (assign, panics))
  | inr (q, fine) ↦ (
    λ h. inr ((assign-HasFatal (q ∷ m) ps).0 (rw (assign, fine) at h)),
    λ h. elim h [
      | inl fatal ↦ let bad = IsFatal-parse_pair p fatal in cc
      | inr more ↦ rw (assign, fine) ((assign-HasFatal (q ∷ m) ps).1 more)
    ],
  )
]

-- `ParsePairs` panics exactly where a part of the list ends in its first `=`, or has a single quote and
-- nothing else behind its first `=`.
pub parse_pairs-eq-none_iff :
    (value : Text) → (parse_pairs value ≡ none) ↔ HasFatal (parse_list value)
unfolding parse_pairs
parse_pairs-eq-none_iff value = assign-HasFatal [] (parse_list value)
