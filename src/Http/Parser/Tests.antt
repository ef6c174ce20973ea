-- ===== src/Http/Parser/Tests.antt =====
-- http/parser/parser.go: runs of the model, and the theorems at concrete inputs.
use sadbox.Prelude.{◌≡◌, ◌↔◌, refl, none, some, [], ◌∷◌, codes}
use sadbox.Http.Parser.Format.{format_pairs, assigned}
use sadbox.Http.Parser.Panics.{HasFatal, parse_pairs-eq-none_iff}
use sadbox.Http.Parser.Trimmed.{AllTrimmed, parse_list-AllTrimmed}
use sadbox.Http.Parser.RoundTrip.{parse_pairs-format_pairs}
use sadbox.Http.Parser.{
  is_space, trim_left, keep, trim_right, trim_space, step, run, finish, parse_list, cut, split_last,
  unquote, parse_pair, Pairs, assign, parse_pairs,
}

test_list :
    parse_list (codes "a, \"b,\\\"c\" ,, d") ≡ codes "a" ∷ codes "\"b,\"c\"" ∷ [] ∷ codes "d" ∷ []
unfolding parse_list run step finish trim_space trim_right trim_left keep is_space
test_list = refl

test_pairs :
    parse_pairs (codes "k=v, q=\"a b\", alone")
    ≡ some ((codes "alone", []) ∷ (codes "q", codes "a b") ∷ (codes "k", codes "v") ∷ [])
unfolding parse_pairs assign parse_pair unquote split_last cut parse_list run step finish trim_space
    trim_right trim_left keep is_space
test_pairs = refl

test_empty_value : parse_pairs (codes "a=b, k=") ≡ none
unfolding parse_pairs assign parse_pair unquote split_last cut parse_list run step finish trim_space
    trim_right trim_left keep is_space
test_empty_value = refl

abbrev two_pairs : Pairs
two_pairs = (codes "realm", codes "a, \"b\"") ∷ (codes "nonce", []) ∷ []

parse_pairs-format_pairs_example :
    parse_pairs (format_pairs two_pairs) ≡ some (assigned [] two_pairs)
unfolding is_space
parse_pairs-format_pairs_example = parse_pairs-format_pairs two_pairs (
  ((refl, (refl, (refl, (refl, (refl, tt))))), refl),
  (((refl, (refl, (refl, (refl, (refl, tt))))), refl), tt),
)

parse_pairs-eq-none_iff_example :
    (parse_pairs (codes "a=b, k=") ≡ none) ↔ HasFatal (parse_list (codes "a=b, k="))
parse_pairs-eq-none_iff_example = parse_pairs-eq-none_iff (codes "a=b, k=")

parse_list-AllTrimmed_example : AllTrimmed (parse_list (codes " a , \" b\" "))
parse_list-AllTrimmed_example = parse_list-AllTrimmed (codes " a , \" b\" ")
