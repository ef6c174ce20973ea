-- ===== src/PluralForms/Operators.antt =====
-- gettext/pluralforms/parser.go: the operators' precedence, the kinds of tokens, the constructors of
-- nodes, and the parser's result. A panic of the parser, which `parse` recovers into an error, is the
-- outcome `failed`.
use sadbox.Prelude.{ℕ, ◌+◌, ◌-◌, ◌*◌, Bool, true, false, [], ◌∷◌, Text, ltb, if◌then◌else◌}
use sadbox.Prelude.Int.{pos, int_half}
use sadbox.PluralForms.Node.{
  Node, invalid_expression, bool_node, int_node, var_node, not_node, mul_node, div_node, mod_node,
  add_node, sub_node, eq_node, not_eq_node, gt_node, gte_node, lt_node, lte_node, or_node, and_node,
}
use sadbox.PluralForms.Token.{
  TokenType, token_bool, token_int, token_var, token_mul, token_div, token_mod, token_add,
  token_sub, token_eq, token_not_eq, token_gt, token_gte, token_lt, token_lte, token_or, token_and,
  token_not, Token,
}

-- What the parser panics with.
pub data ParseError : Type 0 where
  expected : TokenType → TokenType → ParseError
  unexpected : Token → ParseError
  unreachable : ParseError

-- `out_of_fuel` has no counterpart in the program.
pub data Result {ℓ} (A : Type ℓ) : Type ℓ where
  ok : A → Result A
  failed : ParseError → Result A
  out_of_fuel : Result A

abbrev pub bind {ℓ κ} : {A : Type ℓ} {B : Type κ} → Result A → (A → Result B) → Result B
bind (ok a) f = f a
bind (failed e) f = failed e
bind out_of_fuel f = out_of_fuel

-- 0 is what the map gives for a type that it lacks.
unfoldable pub precedence : TokenType → ℕ
precedence token_not = 6
precedence token_mul = 5
precedence token_div = 5
precedence token_mod = 5
precedence token_add = 4
precedence token_sub = 4
precedence token_eq = 3
precedence token_not_eq = 3
precedence token_gt = 3
precedence token_gte = 3
precedence token_lt = 3
precedence token_lte = 3
precedence token_or = 2
precedence token_and = 1
precedence _ = 0

-- The map is empty.
unfoldable pub right_associativity : TokenType → Bool
right_associativity t = false

unfoldable pub is_binary_op : TokenType → Bool
is_binary_op token_mul = true
is_binary_op token_div = true
is_binary_op token_mod = true
is_binary_op token_add = true
is_binary_op token_sub = true
is_binary_op token_eq = true
is_binary_op token_not_eq = true
is_binary_op token_gt = true
is_binary_op token_gte = true
is_binary_op token_lt = true
is_binary_op token_lte = true
is_binary_op token_or = true
is_binary_op token_and = true
is_binary_op _ = false

unfoldable pub is_unary_op : TokenType → Bool
is_unary_op token_not = true
is_unary_op _ = false

unfoldable pub is_value : TokenType → Bool
is_value token_bool = true
is_value token_int = true
is_value token_var = true
is_value _ = false

unfoldable pub new_binary_op_node : TokenType → Node → Node → Result Node
new_binary_op_node token_mul n m = ok (mul_node n m)
new_binary_op_node token_div n m = ok (div_node n m)
new_binary_op_node token_mod n m = ok (mod_node n m)
new_binary_op_node token_add n m = ok (add_node n m)
new_binary_op_node token_sub n m = ok (sub_node n m)
new_binary_op_node token_eq n m = ok (eq_node n m)
new_binary_op_node token_not_eq n m = ok (not_eq_node n m)
new_binary_op_node token_gt n m = ok (gt_node n m)
new_binary_op_node token_gte n m = ok (gte_node n m)
new_binary_op_node token_lt n m = ok (lt_node n m)
new_binary_op_node token_lte n m = ok (lte_node n m)
new_binary_op_node token_or n m = ok (or_node n m)
new_binary_op_node token_and n m = ok (and_node n m)
new_binary_op_node _ n m = failed unreachable

unfoldable pub new_unary_op_node : TokenType → Node → Result Node
new_unary_op_node token_not n = ok (not_node n)
new_unary_op_node _ n = failed unreachable

-- The number that decimal digits write, from the value read so far.
unfoldable pub decimal : ℕ → Text → ℕ
decimal acc [] = acc
decimal acc (c ∷ cs) = decimal (acc * 10 + (c - b'0')) cs

-- `strconv.ParseInt` of a run of digits refuses what an `int` cannot hold.
unfoldable pub int_literal : Text → Node
unfolding decimal
int_literal val =
    if ltb (decimal 0 val) int_half then int_node (pos (decimal 0 val)) else invalid_expression

unfoldable pub new_value_node : Token → Result Node
unfolding int_literal
new_value_node t = elim t.typ [
  | token_bool ↦ ok (bool_node false)
  | token_int ↦ ok (int_literal t.val)
  | token_var ↦ ok var_node
  | _ ↦ failed unreachable
]
