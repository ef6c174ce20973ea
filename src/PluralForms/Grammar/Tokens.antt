-- ===== src/PluralForms/Grammar/Tokens.antt =====
-- gettext/pluralforms/parser.go: facts about the kinds of tokens that the proofs share.
use sadbox.Prelude.{
  ℕ, ◌+◌, ◌≤◌, ◌≡◌, refl, ap, ◌∙◌, true, false, arith, ◌==◌, if◌then◌else◌, ==_iff,
}
use sadbox.PluralForms.Lexer.Progress.{weight}
use sadbox.PluralForms.Operators.{precedence, is_binary_op, is_unary_op, is_value}
use sadbox.PluralForms.Parser.{breaks, right_precedence}
use sadbox.PluralForms.Token.{
  TokenType, token_error, token_eof, token_bool, token_int, token_var, token_mul, token_div,
  token_mod, token_add, token_sub, token_eq, token_not_eq, token_gt, token_gte, token_lt, token_lte,
  token_or, token_and, token_if, token_else, token_not, token_left_paren, token_right_paren, iota,
  same,
}

of_iota : ℕ → TokenType
of_iota k =
    if k == 0
    then token_error
    else if k == 1
    then token_eof
    else if k == 2
    then token_bool
    else if k == 3
    then token_int
    else if k == 4
    then token_var
    else if k == 5
    then token_mul
    else if k == 6
    then token_div
    else if k == 7
    then token_mod
    else if k == 8
    then token_add
    else if k == 9
    then token_sub
    else if k == 10
    then token_eq
    else if k == 11
    then token_not_eq
    else if k == 12
    then token_gt
    else if k == 13
    then token_gte
    else if k == 14
    then token_lt
    else if k == 15
    then token_lte
    else if k == 16
    then token_or
    else if k == 17
    then token_and
    else if k == 18
    then token_if
    else if k == 19
    then token_else
    else if k == 20
    then token_not
    else if k == 21
    then token_left_paren
    else token_right_paren

of_iota-iota : (t : TokenType) → of_iota (iota t) ≡ t
unfolding of_iota
of_iota-iota token_error = refl
of_iota-iota _ = refl

-- Two constants with one number are one constant.
pub same→eq : (t u : TokenType) → same t u ≡ true → t ≡ u
same→eq t u h = cc (of_iota-iota t, of_iota-iota u, (==_iff (iota t) (iota u)).0 h)

pub eq→same : (t : TokenType) → same t t ≡ true
eq→same t = (==_iff (iota t) (iota t)).1 refl

pub weight-binary : (t : TokenType) → is_binary_op t ≡ true → weight t ≡ 1
unfolding is_binary_op
weight-binary token_error h = cc
weight-binary _ h = ground arith

pub precedence-binary : (t : TokenType) → is_binary_op t ≡ true → 1 ≤ precedence t
unfolding is_binary_op precedence
precedence-binary token_error h = cc
precedence-binary _ h = ground arith

pub weight-unary : (t : TokenType) → is_unary_op t ≡ true → weight t ≡ 1
unfolding is_unary_op
weight-unary token_error h = cc
weight-unary _ h = ground arith

pub weight-value : (t : TokenType) → is_value t ≡ true → weight t ≡ 1
unfolding is_value
weight-value token_error h = cc
weight-value _ h = ground arith

pub weight-same : (t u : TokenType) → weight u ≡ 1 → same t u ≡ true → weight t ≡ 1
weight-same t u w h = ap weight (same→eq t u h) ∙ w

-- The loop goes on at a binary operator of enough precedence, and nowhere else.
pub breaks-false :
    (prec : ℕ) (t : TokenType)
    → breaks prec t ≡ false
    → (is_binary_op t ≡ true) × (prec ≤ precedence t)
unfolding breaks
breaks-false prec t h = (ground arith, ground arith)

pub breaks-false_intro :
    (prec : ℕ) (t : TokenType) → is_binary_op t ≡ true → prec ≤ precedence t → breaks prec t ≡ false
unfolding breaks
breaks-false_intro prec t b h = ground arith

-- Where the loop goes on at `prec` but not at `q + 1`, the operator's precedence is at most `q`.
pub precedence-le :
    (prec q : ℕ) (t : TokenType)
    → breaks prec t ≡ false
    → breaks (q + 1) t ≡ true
    → precedence t ≤ q
unfolding breaks
precedence-le prec q t h k = ground arith

pub breaks_mono : (p q : ℕ) (t : TokenType) → p ≤ q → breaks p t ≡ true → breaks q t ≡ true
unfolding breaks
breaks_mono p q t h k = ground arith

pub right_precedence_lem : (t : TokenType) → right_precedence t ≡ precedence t + 1
unfolding right_precedence
right_precedence_lem t = refl

-- An operator that ends a level: no binary one of that level or above.
pub breaks_not_binary : (p : ℕ) (t : TokenType) → is_binary_op t ≡ false → breaks p t ≡ true
unfolding breaks
breaks_not_binary p t h = ground arith
