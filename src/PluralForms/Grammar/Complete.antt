-- ===== src/PluralForms/Grammar/Complete.antt =====
-- gettext/pluralforms/parser.go: the parser accepts whatever the grammar derives.
pub mod Results
mod Front
mod Primaries
mod Operands
mod Conditionals
use Prim.Native.Nat.{max}
use sadbox.Prelude.{ℕ, ◌+◌, ◌*◌, ◌≤◌, ◌≡◌, ◌⊎◌, inl, inr, List, [], ◌∷◌, ◌++◌, arith}
use sadbox.PluralForms.Grammar.Complete.Conditionals.{ReadsWhole-conditional}
use sadbox.PluralForms.Grammar.Complete.Front.{Stops-mono}
use sadbox.PluralForms.Grammar.Complete.Operands.{ReadsOperand-binary}
use sadbox.PluralForms.Grammar.Complete.Primaries.{
  precedence-unary, ReadsPrimary-operand, ReadsPrimary-value, ReadsPrimary-unary,
  ReadsPrimary-group,
}
use sadbox.PluralForms.Grammar.Complete.Results.{
  Stops, NoIf, Success, ReadsOperand, ReadsWhole, Reaches-Success,
}
use sadbox.PluralForms.Grammar.Tokens.{precedence-binary}
use sadbox.PluralForms.Grammar.{Derives, value, group, unary, binary, conditional}
use sadbox.PluralForms.Node.{Node}
use sadbox.PluralForms.Operators.{precedence}
use sadbox.PluralForms.Parser.{parse_expression}
use sadbox.PluralForms.Stream.Offers.{Offers, size}
use sadbox.PluralForms.Stream.Stack.{IsValid}
use sadbox.PluralForms.Stream.{TokenStream}
use sadbox.PluralForms.Token.{Token}

-- A bare conditional is a whole expression; all else is an operand of its level.
abbrev Reads : ℕ → List Token → Node → Type 0
Reads level ts n = ReadsOperand level ts n ⊎ (level ≡ 0) × ReadsWhole ts n

whole : (level : ℕ) (ts : List Token) (n : Node) → Reads level ts n → ReadsWhole ts n
whole level ts n (inl h) = λ rest f s stops no_if v o enough.
    Reaches-Success stops (λ _. no_if)
      (h 0 rest f s (omega arith) (Stops-mono 0 (max level 1 + 1) rest (omega arith) stops) v o
        enough)
whole level ts n (inr h) = h.1

operand :
    (level : ℕ) (ts : List Token) (n : Node)
    → 1 ≤ level
    → Reads level ts n
    → ReadsOperand level ts n
operand level ts n h (inl r) = r
operand level ts n h (inr r) = absurd (omega arith)

Derives-Reads : {level : ℕ} {ts : List Token} {n : Node} → Derives level ts n → Reads level ts n
Derives-Reads {level} (value t h made) =
    inl (ReadsPrimary-operand level (t ∷ []) _ (ReadsPrimary-value t h made))
Derives-Reads {level} (group {ts} {n} l r p q d) = inl (
    ReadsPrimary-operand level (l ∷ (ts ++ (r ∷ []))) n
      (ReadsPrimary-group l r ts p q (whole 0 ts n (Derives-Reads d))))
Derives-Reads {level} (unary {ts} {n} {m} t h d made) =
    let six = precedence-unary t.typ h in
    let operand_read = operand (precedence t.typ) ts n (omega arith) (Derives-Reads d) in
    inl (ReadsPrimary-operand level (t ∷ ts) m (ReadsPrimary-unary t ts h operand_read made))
Derives-Reads {level} (binary {ts} {us} {n} {m} t h le d e made) =
    let one = precedence-binary t.typ h in
    inl (
      ReadsOperand-binary level t ts us h le (operand (precedence t.typ) ts n one (Derives-Reads d))
        (operand (precedence t.typ + 1) us m (omega arith) (Derives-Reads e)) made)
Derives-Reads {level} (conditional {cs} {ts} {us} {c} {n} {m} q e z is_if is_else d d₁ d₂) = inr (
  z,
  ReadsWhole-conditional q e cs ts us is_if is_else (operand 1 cs c (omega arith) (Derives-Reads d))
      (whole 0 ts n (Derives-Reads d₁)) (whole 0 us m (Derives-Reads d₂)),
)

-- With enough fuel the parser reads a derived expression off the front of a stream, if what follows
-- begins with no operator and no `?`.
pub parse_expression_complete :
    {ts : List Token} {n : Node} (rest : List Token) (f : ℕ) (s : TokenStream)
    → Derives 0 ts n
    → Stops 0 rest
    → NoIf rest
    → IsValid s
    → Offers s (ts ++ rest)
    → 2 * size s + 2 ≤ f
    → Success rest s n (parse_expression f 0 s)
parse_expression_complete {ts} {n} rest f s d = whole 0 ts n (Derives-Reads d) rest f s
