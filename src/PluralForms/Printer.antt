-- ===== src/PluralForms/Printer.antt =====
-- gettext/pluralforms/parser.go: the `String` methods of the nodes.
pub mod Digits
pub mod Lexes
mod Pieces
pub mod RoundTrip
pub mod Precedence
use sadbox.Prelude.{
  ℕ, zero, suc, ◌+◌, ◌/◌, ◌%◌, ◌<◌, Bool, true, false, [], ◌∷◌, ◌++◌, Text, codes, ltb,
  if◌then◌else◌,
}
use sadbox.Prelude.Int.{ℤ, pos, negsuc, int_half}
use sadbox.PluralForms.Node.{
  Node, error_node, bool_node, int_node, var_node, not_node, mul_node, div_node, mod_node, add_node,
  sub_node, eq_node, not_eq_node, gt_node, gte_node, lt_node, lte_node, or_node, and_node, if_node,
}

-- Decimal digits; the first argument bounds their number.
unfoldable pub digits_loop : ℕ → ℕ → Text
digits_loop zero k = (b'0' + k % 10) ∷ []
digits_loop (suc f) k =
    let more = digits_loop f (k / 10) ++ ((b'0' + k % 10) ∷ []) in
    if ltb k 10 then (b'0' + k) ∷ [] else more

unfoldable pub digits : ℕ → Text
unfolding digits_loop
digits k = digits_loop k k

-- `%v` of an `int`.
unfoldable pub int_string : ℤ → Text
unfolding digits
int_string (pos k) = digits k
int_string (negsuc k) = b'-' ∷ digits (suc k)

abbrev pub bool_string : Bool → Text
bool_string true = codes "true"
bool_string false = codes "false"

-- `(%s…%s)`.
abbrev pub infix_string : Text → Text → Text → Text
infix_string op a b = b'(' ∷ (a ++ (op ++ (b ++ (b')' ∷ []))))

unfoldable pub string : Node → Text
unfolding int_string
string error_node = codes "Invalid expression"
string (bool_node b) = bool_string b
string (int_node x) = int_string x
string var_node = codes "n"
string (not_node n) = b'(' ∷ b'!' ∷ (string n ++ (b')' ∷ []))
string (mul_node n m) = infix_string (codes "*") (string n) (string m)
string (div_node n m) = infix_string (codes "/") (string n) (string m)
string (mod_node n m) = infix_string (codes "%") (string n) (string m)
string (add_node n m) = infix_string (codes "+") (string n) (string m)
string (sub_node n m) = infix_string (codes "-") (string n) (string m)
string (eq_node n m) = infix_string (codes "==") (string n) (string m)
string (not_eq_node n m) = infix_string (codes "!=") (string n) (string m)
string (gt_node n m) = infix_string (codes ">") (string n) (string m)
string (gte_node n m) = infix_string (codes ">=") (string n) (string m)
string (lt_node n m) = infix_string (codes "<") (string n) (string m)
string (lte_node n m) = infix_string (codes "<=") (string n) (string m)
string (or_node n m) = infix_string (codes "||") (string n) (string m)
string (and_node n m) = infix_string (codes "&&") (string n) (string m)
string (if_node c n m) =
    b'(' ∷ (string c ++ (b'?' ∷ (string n ++ (b':' ∷ (string m ++ (b')' ∷ []))))))
