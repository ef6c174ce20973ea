-- ===== src/PluralForms/Grammar/Sound/Postconditions.antt =====
-- What a success of each method of the parser means, and the precedences at which a node may stand.
use sadbox.Prelude.{ℕ, ◌≤◌, ◌≡◌, true, false, List, ◌++◌, arith, length}
use Prim.Native.Nat.{max}
use sadbox.PluralForms.Grammar.Leads.{Leads, peek}
use sadbox.PluralForms.Grammar.{Derives, value, group, unary, binary, conditional}
use sadbox.PluralForms.Node.{Node}
use sadbox.PluralForms.Operators.{precedence}
use sadbox.PluralForms.Parser.{breaks}
use sadbox.PluralForms.Stream.{TokenStream, pop}
use sadbox.PluralForms.Token.{Token, token_if, same}

pub Derives-mono : {p q : ℕ} {ts : List Token} {n : Node} → q ≤ p → Derives p ts n → Derives q ts n
Derives-mono h (value t v e) = value t v e
Derives-mono h (group l r p q d) = group l r p q d
Derives-mono h (unary t u d e) = unary t u d e
Derives-mono h (binary t b le d e f) = binary t b (omega arith) d e f
Derives-mono h (conditional q e z i j c d f) = conditional q e (omega arith) i j c d f

-- `parse_primary`: the node stands bare at every precedence.
pub record Primary (s : TokenStream) (r : Node × TokenStream) : Type 0 where
  pub tokens : List Token
  pub derives : (prec : ℕ) → Derives prec tokens r.0
  pub leads : Leads s tokens r.1
  pub some_token : 1 ≤ length tokens

-- `parse_expression`: the next token is one that ends the level.
pub record Expression (prec : ℕ) (s : TokenStream) (r : Node × TokenStream) : Type 0 where
  pub tokens : List Token
  pub derives : Derives prec tokens r.0
  pub leads : Leads s tokens r.1
  pub some_token : 1 ≤ length tokens
  pub stops : breaks prec (peek r.1).typ ≡ true
  pub no_if : prec ≡ 0 → same (peek r.1).typ token_if ≡ false

-- `parse_operators`, on a node that was derived from `before`; the returned token is the next one of
-- the stream `last`.
pub record Operators (prec : ℕ) (before : List Token) (s : TokenStream)
    (r : (Node × Token) × TokenStream) : Type 0 where
  pub tokens : List Token
  pub derives : Derives (max prec 1) (before ++ tokens) r.0.0
  pub last : TokenStream
  pub leads : Leads s tokens last
  pub next_token : r.0.1 ≡ peek last
  pub behind : r.1 ≡ (pop last).1
  pub stops : breaks prec r.0.1.typ ≡ true

-- `parse_ternary`, on a node that was derived from `before`.
pub record Ternary (before : List Token) (s : TokenStream) (r : Node × TokenStream) : Type 0 where
  pub tokens : List Token
  pub derives : Derives 0 (before ++ tokens) r.0
  pub leads : Leads s tokens r.1
  pub stops : breaks 0 (peek r.1).typ ≡ true
  pub no_if : same (peek r.1).typ token_if ≡ false

-- What the loop of `parse_expression` knows of its node: it stands at the level, and as the left
-- operand of the operator that comes next.
pub record Operand (prec : ℕ) (before : List Token) (n : Node) (next : Token) : Type 0 where
  pub derives : Derives (max prec 1) before n
  pub left : breaks prec next.typ ≡ false → Derives (precedence next.typ) before n

-- What the loop of `parse_ternary` knows of its node.
pub record Condition (before : List Token) (n : Node) (next : Token) : Type 0 where
  pub derives : Derives 0 before n
  pub cond : same next.typ token_if ≡ true → Derives 1 before n
  pub stops : same next.typ token_if ≡ false → breaks 0 next.typ ≡ true
