-- ===== src/PluralForms/Tests.antt =====
-- gettext/pluralforms: runs of the model, and the theorems at concrete inputs.
use sadbox.Prelude.{◌≡◌, ◌≢◌, ◌↔◌, refl, none, some, codes, arith}
use sadbox.Prelude.Int.{pos, negsuc, rem_int}
use sadbox.PluralForms.Grammar.Decides.{Writes, parse-eq-ok_iff, parse-ne-out_of_fuel}
use sadbox.PluralForms.Lexer.Reference.{ahead, lex, Agrees, next-Agrees}
use sadbox.PluralForms.Lexer.{next, new_lexer}
use sadbox.PluralForms.Node.Typing.{an_int, literal, var, kind_mod, IsOfKind, eval-IsOfKind}
use sadbox.PluralForms.Node.{
  Node, int_node, var_node, not_node, mul_node, div_node, mod_node, add_node, sub_node, gt_node,
  or_node, and_node, eq_node, eval,
}
use sadbox.PluralForms.Operators.{
  ok, failed, out_of_fuel, expected, precedence, is_binary_op, new_binary_op_node,
}
use sadbox.PluralForms.Parser.Running.{running}
use sadbox.PluralForms.Parser.{parse}
use sadbox.PluralForms.Plural.Panics.{create_plural_func-or_panics}
use sadbox.PluralForms.Plural.Table.{apply_plural, parse_plural-create_plural_func}
use sadbox.PluralForms.Plural.{plural_index, create_plural_func, remove_spaces, parse_plural}
use sadbox.PluralForms.Printer.Precedence.{parse-bare_left, parse-bare_right, parse-or_and}
use sadbox.PluralForms.Printer.RoundTrip.{parse-string}
use sadbox.PluralForms.Printer.{string}
use sadbox.PluralForms.Stream.Stack.{
  IsValid, view, pop_stack, push_stack, new_token_stream-IsValid, pop-push-Refines,
}
use sadbox.PluralForms.Stream.{TokenStream, new_token_stream, pop, push}
use sadbox.PluralForms.Token.{token, token_eof, token_right_paren, token_add, token_sub, token_mul}

abbrev one : Node
one = int_node (pos 1)

abbrev two : Node
two = int_node (pos 2)

-- `n>1`.
abbrev more_than_one : Node
more_than_one = gt_node var_node one

-- `n*2+1` groups to the left, `1+n*2` to the right.
test_mul_first : parse (codes "n * 2 + 1") ≡ ok (add_node (mul_node var_node two) one)
unfolding running
test_mul_first = refl

test_add_first : parse (codes "1 + n * 2") ≡ ok (add_node one (mul_node var_node two))
unfolding running
test_add_first = refl

test_unclosed : parse (codes "(n") ≡ failed (expected token_right_paren token_eof)
unfolding running
test_unclosed = refl

test_many_forms :
    apply_plural (create_plural_func (codes "n%10==1 ? 0 : n>4 ? 2 : 1")) (pos 7)
    ≡ ok (some (pos 2))
unfolding running create_plural_func plural_index eval rem_int
test_many_forms = refl

-- An integer where a Boolean belongs has the index -1.
test_no_bool : apply_plural (create_plural_func (codes "!n")) (pos 7) ≡ ok (some (negsuc 0))
unfolding running create_plural_func plural_index eval
test_no_bool = refl

test_division : apply_plural (create_plural_func (codes "1/n")) (pos 0) ≡ ok none
unfolding running create_plural_func plural_index eval
test_division = refl

parse-eq-ok_iff_example :
    (parse (codes "n > 1") ≡ ok more_than_one) ↔ Writes (codes "n > 1") more_than_one
parse-eq-ok_iff_example = parse-eq-ok_iff (codes "n > 1") more_than_one

parse-ne-out_of_fuel_example : parse (codes "n > (1") ≢ out_of_fuel
parse-ne-out_of_fuel_example = parse-ne-out_of_fuel (codes "n > (1")

parse-string_example :
    parse (string (not_node (or_node more_than_one (eq_node var_node two))))
    ≡ ok (not_node (or_node more_than_one (eq_node var_node two)))
parse-string_example =
    parse-string (not_node (or_node more_than_one (eq_node var_node two)))
      ((tt, omega arith), (tt, omega arith))

parse_plural-create_plural_func_example :
    apply_plural (parse_plural (codes "n != 1")) (pos 5)
    ≡ apply_plural (create_plural_func (remove_spaces (codes "n != 1"))) (pos 5)
parse_plural-create_plural_func_example = parse_plural-create_plural_func (codes "n != 1") (pos 5)

eval-IsOfKind_example : IsOfKind an_int (eval (mod_node var_node (int_node (pos 10))) (pos 21))
eval-IsOfKind_example =
    eval-IsOfKind (mod_node var_node (int_node (pos 10))) an_int (pos 21) (omega arith)
      (kind_mod var (literal (omega arith)))

abbrev stream : TokenStream
stream = new_token_stream (codes "n+1")

pop-push-Refines_example :
    (IsValid (pop stream).1 × IsValid (push stream (token token_add)))
    × ((pop stream).0 ≡ (pop_stack (view stream)).0)
    × (view (pop stream).1 ≡ (pop_stack (view stream)).1)
    × (view (push stream (token token_add)) ≡ push_stack (view stream) (token token_add))
    × ((pop (push stream (token token_add))).0 ≡ token token_add)
    × (view (pop (push stream (token token_add))).1 ≡ view stream)
pop-push-Refines_example =
    pop-push-Refines stream (token token_add) (new_token_stream-IsValid (codes "n+1"))

next-Agrees_example :
    Agrees (next (new_lexer (codes "  12>=n"))) (lex (ahead (new_lexer (codes "  12>=n"))))
next-Agrees_example = next-Agrees (new_lexer (codes "  12>=n"))

parse-bare_left_example : parse (codes "n-1+2") ≡ ok (add_node (sub_node var_node one) two)
unfolding string is_binary_op precedence new_binary_op_node
parse-bare_left_example =
    parse-bare_left var_node one two tt (omega arith) (omega arith) token_sub token_add refl refl
      (omega arith) refl refl

parse-bare_right_example : parse (codes "n+1*2") ≡ ok (add_node var_node (mul_node one two))
unfolding string is_binary_op precedence new_binary_op_node
parse-bare_right_example =
    parse-bare_right var_node one two tt (omega arith) (omega arith) token_add token_mul refl refl
      (omega arith) refl refl

parse-or_and_example :
    (parse (codes "n||1&&2") ≡ ok (and_node (or_node var_node one) two))
    × (parse (codes "n&&1||2") ≡ ok (and_node var_node (or_node one two)))
unfolding string
parse-or_and_example = parse-or_and var_node one two tt (omega arith) (omega arith)

create_plural_func-or_panics_example :
    apply_plural
      (create_plural_func
        (string (or_node (eq_node var_node var_node) (eq_node (div_node one var_node) two))))
      (pos 0)
    ≡ ok none
unfolding eval
create_plural_func-or_panics_example =
    create_plural_func-or_panics (eq_node var_node var_node) (eq_node (div_node one var_node) two)
      (pos 0) (tt, tt) ((omega arith, tt), omega arith) refl refl
