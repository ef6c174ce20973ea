-- ===== src/PluralForms/Node.antt =====
-- gettext/pluralforms/parser.go: the nodes of a parse tree, and their evaluation.
pub mod Typing
use sadbox.Prelude.{Bool, true, false, not, ◌&&◌, ◌||◌, Option, none, some, if◌then◌else◌}
use sadbox.Prelude.Int.{ℤ, pos, lt_int, le_int, eq_int, add_int, sub_int, mul_int, div_int, rem_int}

pub data Node : Type 0 where
  error_node : Node
  bool_node : Bool → Node
  int_node : ℤ → Node
  var_node : Node
  not_node : Node → Node
  mul_node div_node mod_node add_node sub_node : Node → Node → Node
  eq_node not_eq_node gt_node gte_node lt_node lte_node : Node → Node → Node
  or_node and_node : Node → Node → Node
  if_node : Node → Node → Node → Node

-- The one value of `errorNode` in the package.
abbrev pub invalid_expression : Node
invalid_expression = error_node

-- The result of an evaluation; `none` is a run-time panic, which only a division by zero raises.
abbrev pub Value : Type 0
Value = Option Node

-- `if x, ok := v.(intNode); ok { … }`, and `invalidExpression` behind it.
abbrev pub as_int : Value → (ℤ → Value) → Value
as_int none k = none
as_int (some (int_node x)) k = k x
as_int (some _) k = some invalid_expression

abbrev pub as_bool : Value → (Bool → Value) → Value
as_bool none k = none
as_bool (some (bool_node x)) k = k x
as_bool (some _) k = some invalid_expression

-- Both operands as integers, then the operator; the second is evaluated only if the first is one.
abbrev pub on_ints : (ℤ → ℤ → Value) → Value → Value → Value
on_ints op v w = as_int v (λ x. as_int w (λ y. op x y))

abbrev pub on_bools : (Bool → Bool → Bool) → Value → Value → Value
on_bools op v w = as_bool v (λ x. as_bool w (λ y. some (bool_node (op x y))))

abbrev pub some_int : ℤ → Value
some_int x = some (int_node x)

abbrev pub some_bool : Bool → Value
some_bool b = some (bool_node b)

abbrev pub divide : (ℤ → ℤ → ℤ) → ℤ → ℤ → Value
divide op x y = if eq_int y (pos 0) then none else some_int (op x y)

abbrev pub bool_eq : Bool → Bool → Bool
bool_eq true b = b
bool_eq false b = not b

-- The switch on the type of the first operand in `eqNode.Eval` and `notEqNode.Eval`.
abbrev pub compare_values : (Bool → Bool → Bool) → (ℤ → ℤ → Bool) → Value → Value → Value
compare_values on_b on_i none w = none
compare_values on_b on_i (some (bool_node x)) w = as_bool w (λ y. some_bool (on_b x y))
compare_values on_b on_i (some (int_node x)) w = as_int w (λ y. some_bool (on_i x y))
compare_values on_b on_i (some _) w = some invalid_expression

abbrev pub choose : Value → Value → Value → Value
choose c v w = as_bool c (λ x. if x then v else w)

unfoldable pub eval : Node → ℤ → Value
eval error_node ctx = some error_node
eval (bool_node b) ctx = some_bool b
eval (int_node x) ctx = some_int x
eval var_node ctx = some_int ctx
eval (not_node n) ctx = as_bool (eval n ctx) (λ x. some_bool (not x))
eval (mul_node n m) ctx = on_ints (λ x y. some_int (mul_int x y)) (eval n ctx) (eval m ctx)
eval (div_node n m) ctx = on_ints (divide div_int) (eval n ctx) (eval m ctx)
eval (mod_node n m) ctx = on_ints (divide rem_int) (eval n ctx) (eval m ctx)
eval (add_node n m) ctx = on_ints (λ x y. some_int (add_int x y)) (eval n ctx) (eval m ctx)
eval (sub_node n m) ctx = on_ints (λ x y. some_int (sub_int x y)) (eval n ctx) (eval m ctx)
eval (eq_node n m) ctx = compare_values bool_eq eq_int (eval n ctx) (eval m ctx)
eval (not_eq_node n m) ctx =
    compare_values (λ x y. not (bool_eq x y)) (λ x y. not (eq_int x y)) (eval n ctx) (eval m ctx)
eval (gt_node n m) ctx = on_ints (λ x y. some_bool (lt_int y x)) (eval n ctx) (eval m ctx)
eval (gte_node n m) ctx = on_ints (λ x y. some_bool (le_int y x)) (eval n ctx) (eval m ctx)
eval (lt_node n m) ctx = on_ints (λ x y. some_bool (lt_int x y)) (eval n ctx) (eval m ctx)
eval (lte_node n m) ctx = on_ints (λ x y. some_bool (le_int x y)) (eval n ctx) (eval m ctx)
eval (or_node n m) ctx = on_bools ◌||◌ (eval n ctx) (eval m ctx)
eval (and_node n m) ctx = on_bools ◌&&◌ (eval n ctx) (eval m ctx)
eval (if_node c n m) ctx = choose (eval c ctx) (eval n ctx) (eval m ctx)
