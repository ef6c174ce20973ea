-- ===== src/PluralForms/Plural/Table.antt =====
-- gettext/pluralforms/pluralforms.go: the precomputed functions are those of their expressions.
use sadbox.Prelude.{
  ◌≡◌, refl, sym, subst, inl, inr, Option, some, List, [], ◌∷◌, Text, arith, text_eq, text_eq_lem,
  text_lookup, Option-cases, Bool-cases,
}
use sadbox.Prelude.Int.{ℤ}
use sadbox.PluralForms.Node.{eval}
use sadbox.PluralForms.Operators.{Result, ok, bind}
use sadbox.PluralForms.Parser.Running.{running}
use sadbox.PluralForms.Plural.{
  PluralFunc, plural_index, create_plural_func, plural_func1, plural_func2, plural_func3,
  plural_func4, plural_func5, plural_func6, plural_func7, plural_func8, plural_func9, plural_func10,
  plural_func11, plural_funcs, remove_spaces, parse_plural,
}

-- The outcome of a plural function that may not have been made.
abbrev pub apply_plural : Result PluralFunc → ℤ → Result (Option ℤ)
apply_plural r n = bind r λ f. ok (f n)

-- Each entry of a table is the function that its key is compiled to.
abbrev Compiled : List (Text × PluralFunc) → Type 0
Compiled [] = Unit
Compiled ((key, f) ∷ m) =
    ((n : ℤ) → apply_plural (create_plural_func key) n ≡ ok (f n)) × Compiled m

plural_funcs-Compiled : Compiled plural_funcs
unfolding create_plural_func plural_index eval running plural_func1 plural_func2 plural_func3
    plural_func4 plural_func5 plural_func6 plural_func7 plural_func8 plural_func9 plural_func10
    plural_func11
plural_funcs-Compiled = (
  λ n. refl,
  (
    λ n. ground arith,
    (
      λ n. ground arith,
      (
        λ n. ground arith,
        (
          λ n. ground arith,
          (
            λ n. ground arith,
            (
              λ n. ground arith,
              (
                λ n. ground arith,
                (λ n. ground arith, (λ n. ground arith, (λ n. ground arith, tt))),
              ),
            ),
          ),
        ),
      ),
    ),
  ),
)

Compiled-lookup :
    (m : List (Text × PluralFunc)) (k : Text) {f : PluralFunc}
    → Compiled m
    → text_lookup m k ≡ some f
    → (n : ℤ) → apply_plural (create_plural_func k) n ≡ ok (f n)
Compiled-lookup [] k c h n = cc
Compiled-lookup ((j, g) ∷ m) k {f} c h n = elim (Bool-cases (text_eq j k)) [
  | inl found ↦
      let same_key = (text_eq_lem j k).0 found in
      let same_entry = rw found at h in
      let same_func : g ≡ f = cc in
      subst (λ t. apply_plural (create_plural_func t) n ≡ ok (f n)) same_key
        (subst (λ (e : PluralFunc). apply_plural (create_plural_func j) n ≡ ok (e n)) same_func
          (c.0 n))
  | inr other ↦ Compiled-lookup m k c.1 (rw other at h) n
]

-- The table changes no result: on every text `Parse` gives the error, or the function, that parsing
-- the text without its spaces gives.
pub parse_plural-create_plural_func :
    (expr : Text) (n : ℤ)
    → apply_plural (parse_plural expr) n ≡ apply_plural (create_plural_func (remove_spaces expr)) n
unfolding parse_plural
parse_plural-create_plural_func expr n =
    elim (Option-cases (text_lookup plural_funcs (remove_spaces expr))) [
      | inl missing ↦ rw (missing, parse_plural)
      | inr (f, found) ↦
          rw (found, parse_plural)
            (sym (Compiled-lookup plural_funcs _ plural_funcs-Compiled found n))
    ]
