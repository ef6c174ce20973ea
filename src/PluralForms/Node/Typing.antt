-- ===== src/PluralForms/Node/Typing.antt =====
-- gettext/pluralforms/parser.go: which nodes evaluate to an integer and which to a Boolean.
use native.Mathlib.Nat.{mod-le}
use sadbox.Prelude.{
  ◌+◌, Bool, true, false, not, none, some, inl, inr, arith, Bool-cases, if◌then◌else◌,
}
use sadbox.Prelude.Int.{
  ℤ, pos, FitsInt, wrap_fits, eq_int, add_int, sub_int, mul_int, div_int, rem_int, pos_part,
  neg_part,
}
use sadbox.PluralForms.Node.{
  Node, error_node, bool_node, int_node, var_node, not_node, mul_node, div_node, mod_node, add_node,
  sub_node, eq_node, not_eq_node, gt_node, gte_node, lt_node, lte_node, or_node, and_node, if_node,
  Value, some_bool, divide, eval, as_int, as_bool, on_ints, on_bools, compare_values,
}

pub data Kind : Type 0 where
  an_int a_bool : Kind

-- The nodes whose operands are of the kinds that their operators want, with literals that an `int`
-- holds.
pub data HasKind : Node → Kind → Type 0 where
  literal : {x : ℤ} → FitsInt x → HasKind (int_node x) an_int
  truth : {b : Bool} → HasKind (bool_node b) a_bool
  var : HasKind var_node an_int
  negation : {n : Node} → HasKind n a_bool → HasKind (not_node n) a_bool
  kind_mul : {n m : Node} → HasKind n an_int → HasKind m an_int → HasKind (mul_node n m) an_int
  kind_div : {n m : Node} → HasKind n an_int → HasKind m an_int → HasKind (div_node n m) an_int
  kind_mod : {n m : Node} → HasKind n an_int → HasKind m an_int → HasKind (mod_node n m) an_int
  kind_add : {n m : Node} → HasKind n an_int → HasKind m an_int → HasKind (add_node n m) an_int
  kind_sub : {n m : Node} → HasKind n an_int → HasKind m an_int → HasKind (sub_node n m) an_int
  kind_gt : {n m : Node} → HasKind n an_int → HasKind m an_int → HasKind (gt_node n m) a_bool
  kind_gte : {n m : Node} → HasKind n an_int → HasKind m an_int → HasKind (gte_node n m) a_bool
  kind_lt : {n m : Node} → HasKind n an_int → HasKind m an_int → HasKind (lt_node n m) a_bool
  kind_lte : {n m : Node} → HasKind n an_int → HasKind m an_int → HasKind (lte_node n m) a_bool
  kind_eq : {n m : Node} {k : Kind} → HasKind n k → HasKind m k → HasKind (eq_node n m) a_bool
  kind_not_eq :
      {n m : Node} {k : Kind} → HasKind n k → HasKind m k → HasKind (not_eq_node n m) a_bool
  kind_or : {n m : Node} → HasKind n a_bool → HasKind m a_bool → HasKind (or_node n m) a_bool
  kind_and : {n m : Node} → HasKind n a_bool → HasKind m a_bool → HasKind (and_node n m) a_bool
  conditional :
      {c n m : Node} {k : Kind}
      → HasKind c a_bool
      → HasKind n k
      → HasKind m k
      → HasKind (if_node c n m) k

-- A panic, or a value of the kind that an `int` holds.
abbrev pub IsOfKind : Kind → Value → Type 0
IsOfKind k none = Unit
IsOfKind an_int (some (int_node x)) = FitsInt x
IsOfKind a_bool (some (bool_node b)) = Unit
IsOfKind an_int (some _) = ⊥
IsOfKind a_bool (some _) = ⊥

as_int-IsOfKind :
    (k : Kind) (v : Value) (f : ℤ → Value)
    → IsOfKind an_int v
    → ((x : ℤ) → FitsInt x → IsOfKind k (f x))
    → IsOfKind k (as_int v f)
as_int-IsOfKind k none f h g = tt
as_int-IsOfKind k (some (int_node x)) f h g = g x h
as_int-IsOfKind k (some _) f h g = absurd h

as_bool-IsOfKind :
    (k : Kind) (v : Value) (f : Bool → Value)
    → IsOfKind a_bool v
    → ((b : Bool) → IsOfKind k (f b))
    → IsOfKind k (as_bool v f)
as_bool-IsOfKind k none f h g = tt
as_bool-IsOfKind k (some (bool_node b)) f h g = g b
as_bool-IsOfKind k (some _) f h g = absurd h

on_ints-IsOfKind :
    (k : Kind) (op : ℤ → ℤ → Value) (v w : Value)
    → ((x y : ℤ) → FitsInt x → FitsInt y → IsOfKind k (op x y))
    → IsOfKind an_int v
    → IsOfKind an_int w
    → IsOfKind k (on_ints op v w)
on_ints-IsOfKind k op v w h hv hw =
    as_int-IsOfKind k v (λ x. as_int w (λ y. op x y)) hv
      λ x fx. as_int-IsOfKind k w (λ y. op x y) hw λ y fy. h x y fx fy

on_bools-IsOfKind :
    (op : Bool → Bool → Bool) (v w : Value)
    → IsOfKind a_bool v
    → IsOfKind a_bool w
    → IsOfKind a_bool (on_bools op v w)
on_bools-IsOfKind op v w hv hw =
    as_bool-IsOfKind a_bool v (λ x. as_bool w (λ y. some_bool (op x y))) hv
      λ x. as_bool-IsOfKind a_bool w (λ y. some_bool (op x y)) hw λ y. tt

compare_values-IsOfKind :
    (k : Kind) (f : Bool → Bool → Bool) (g : ℤ → ℤ → Bool) (v w : Value)
    → IsOfKind k v
    → IsOfKind k w
    → IsOfKind a_bool (compare_values f g v w)
compare_values-IsOfKind k f g none w h hw = tt
compare_values-IsOfKind a_bool f g (some (bool_node x)) w h hw =
    as_bool-IsOfKind a_bool w (λ y. some_bool (f x y)) hw λ y. tt
compare_values-IsOfKind an_int f g (some (int_node x)) w h hw =
    as_int-IsOfKind a_bool w (λ y. some_bool (g x y)) hw λ y fy. tt
compare_values-IsOfKind an_int f g (some _) w h hw = absurd h
compare_values-IsOfKind a_bool f g (some _) w h hw = absurd h

if-IsOfKind :
    (k : Kind) (b : Bool) (v w : Value)
    → IsOfKind k v
    → IsOfKind k w
    → IsOfKind k (if b then v else w)
if-IsOfKind k true v w hv hw = hv
if-IsOfKind k false v w hv hw = hw

rem_int-FitsInt : (x y : ℤ) → FitsInt x → FitsInt (rem_int x y)
unfolding rem_int
rem_int-FitsInt x y h = ground (arith, mod-le (pos_part x + neg_part x) (pos_part y + neg_part y))

mul_int-FitsInt : (x y : ℤ) → FitsInt (mul_int x y)
unfolding mul_int
mul_int-FitsInt x y = wrap_fits _

add_int-FitsInt : (x y : ℤ) → FitsInt (add_int x y)
unfolding add_int
add_int-FitsInt x y = wrap_fits _

sub_int-FitsInt : (x y : ℤ) → FitsInt (sub_int x y)
unfolding sub_int
sub_int-FitsInt x y = wrap_fits _

div_int-FitsInt : (x y : ℤ) → FitsInt (div_int x y)
unfolding div_int
div_int-FitsInt x y = wrap_fits _

divide-IsOfKind : (op : ℤ → ℤ → ℤ) (x y : ℤ) → FitsInt (op x y) → IsOfKind an_int (divide op x y)
divide-IsOfKind op x y h = elim (Bool-cases (eq_int y (pos 0))) [
  | inl zero_divisor ↦ rw zero_divisor tt
  | inr other ↦ rw other h
]

-- A node of a kind evaluates to a value of that kind, never to the error node; and each integer on
-- the way is one that an `int` holds. A division by zero is left: it panics.
pub eval-IsOfKind :
    (n : Node) (k : Kind) (ctx : ℤ) → FitsInt ctx → HasKind n k → IsOfKind k (eval n ctx)
unfolding eval
eval-IsOfKind error_node k ctx c h = elim h [ ]
eval-IsOfKind (int_node x) k ctx c (literal h) = h
eval-IsOfKind (bool_node b) k ctx c truth = tt
eval-IsOfKind var_node k ctx c var = c
eval-IsOfKind (not_node n) k ctx c (negation h) =
    as_bool-IsOfKind a_bool (eval n ctx) (λ x. some_bool (not x)) (eval-IsOfKind n a_bool ctx c h)
      λ x. tt
eval-IsOfKind (mul_node n m) k ctx c (kind_mul h g) =
    on_ints-IsOfKind an_int _ (eval n ctx) (eval m ctx) (λ x y _ _. mul_int-FitsInt x y)
      (eval-IsOfKind n an_int ctx c h) (eval-IsOfKind m an_int ctx c g)
eval-IsOfKind (add_node n m) k ctx c (kind_add h g) =
    on_ints-IsOfKind an_int _ (eval n ctx) (eval m ctx) (λ x y _ _. add_int-FitsInt x y)
      (eval-IsOfKind n an_int ctx c h) (eval-IsOfKind m an_int ctx c g)
eval-IsOfKind (sub_node n m) k ctx c (kind_sub h g) =
    on_ints-IsOfKind an_int _ (eval n ctx) (eval m ctx) (λ x y _ _. sub_int-FitsInt x y)
      (eval-IsOfKind n an_int ctx c h) (eval-IsOfKind m an_int ctx c g)
eval-IsOfKind (div_node n m) k ctx c (kind_div h g) =
    on_ints-IsOfKind an_int (divide div_int) (eval n ctx) (eval m ctx)
      (λ x y _ _. divide-IsOfKind div_int x y (div_int-FitsInt x y))
      (eval-IsOfKind n an_int ctx c h) (eval-IsOfKind m an_int ctx c g)
eval-IsOfKind (mod_node n m) k ctx c (kind_mod h g) =
    on_ints-IsOfKind an_int (divide rem_int) (eval n ctx) (eval m ctx)
      (λ x y fx _. divide-IsOfKind rem_int x y (rem_int-FitsInt x y fx))
      (eval-IsOfKind n an_int ctx c h) (eval-IsOfKind m an_int ctx c g)
eval-IsOfKind (gt_node n m) k ctx c (kind_gt h g) =
    on_ints-IsOfKind a_bool _ (eval n ctx) (eval m ctx) (λ x y _ _. tt)
      (eval-IsOfKind n an_int ctx c h) (eval-IsOfKind m an_int ctx c g)
eval-IsOfKind (gte_node n m) k ctx c (kind_gte h g) =
    on_ints-IsOfKind a_bool _ (eval n ctx) (eval m ctx) (λ x y _ _. tt)
      (eval-IsOfKind n an_int ctx c h) (eval-IsOfKind m an_int ctx c g)
eval-IsOfKind (lt_node n m) k ctx c (kind_lt h g) =
    on_ints-IsOfKind a_bool _ (eval n ctx) (eval m ctx) (λ x y _ _. tt)
      (eval-IsOfKind n an_int ctx c h) (eval-IsOfKind m an_int ctx c g)
eval-IsOfKind (lte_node n m) k ctx c (kind_lte h g) =
    on_ints-IsOfKind a_bool _ (eval n ctx) (eval m ctx) (λ x y _ _. tt)
      (eval-IsOfKind n an_int ctx c h) (eval-IsOfKind m an_int ctx c g)
eval-IsOfKind (eq_node n m) k ctx c (kind_eq {k = j} h g) =
    compare_values-IsOfKind j _ _ (eval n ctx) (eval m ctx) (eval-IsOfKind n j ctx c h)
      (eval-IsOfKind m j ctx c g)
eval-IsOfKind (not_eq_node n m) k ctx c (kind_not_eq {k = j} h g) =
    compare_values-IsOfKind j _ _ (eval n ctx) (eval m ctx) (eval-IsOfKind n j ctx c h)
      (eval-IsOfKind m j ctx c g)
eval-IsOfKind (or_node n m) k ctx c (kind_or h g) =
    on_bools-IsOfKind _ (eval n ctx) (eval m ctx) (eval-IsOfKind n a_bool ctx c h)
      (eval-IsOfKind m a_bool ctx c g)
eval-IsOfKind (and_node n m) k ctx c (kind_and h g) =
    on_bools-IsOfKind _ (eval n ctx) (eval m ctx) (eval-IsOfKind n a_bool ctx c h)
      (eval-IsOfKind m a_bool ctx c g)
eval-IsOfKind (if_node d n m) k ctx c (conditional b h g) =
    as_bool-IsOfKind k (eval d ctx) _ (eval-IsOfKind d a_bool ctx c b) λ x.
      if-IsOfKind k x (eval n ctx) (eval m ctx) (eval-IsOfKind n k ctx c h)
        (eval-IsOfKind m k ctx c g)
