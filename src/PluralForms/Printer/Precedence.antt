-- ===== src/PluralForms/Printer/Precedence.antt =====
-- gettext/pluralforms/parser.go: how the operators that stand bare group.
use sadbox.Prelude.{
  ◌+◌, ◌≤◌, ◌≡◌, refl, true, List, [], ◌∷◌, ◌++◌, append-nil, append_assoc, Text, codes, arith,
}
use sadbox.PluralForms.Grammar.Decides.{parse-eq-ok_iff}
use sadbox.PluralForms.Grammar.{binary}
use sadbox.PluralForms.Node.{Node, or_node, and_node}
use sadbox.PluralForms.Operators.{ok, precedence, is_binary_op, new_binary_op_node}
use sadbox.PluralForms.Parser.{parse}
use sadbox.PluralForms.Printer.Lexes.{Lexes, Lexes-OffersFrom, op_text, read, stop}
use sadbox.PluralForms.Printer.Pieces.{lex-op-Plain, Separated-op}
use sadbox.PluralForms.Printer.RoundTrip.{
  IsPrintable, string_tokens, string-LexesAs, string-Derives, lex_end,
}
use sadbox.PluralForms.Printer.{string}
use sadbox.PluralForms.Token.{TokenType, Token, token, token_eof, token_or, token_and}

module _ (a b c : Node) (ha : IsPrintable a) (hb : IsPrintable b) (hc : IsPrintable c) where
  -- Three operands with two bare operators between them, as a text and as tokens.
  abbrev bare_text : TokenType → TokenType → Text
  bare_text t u = string a ++ (op_text t ++ (string b ++ (op_text u ++ string c)))

  abbrev bare_tokens : TokenType → TokenType → List Token
  bare_tokens t u = (string_tokens a ++ (token t ∷ string_tokens b)) ++ (token u ∷ string_tokens c)

  bare-Lexes :
      (t u : TokenType)
      → is_binary_op t ≡ true
      → is_binary_op u ≡ true
      → Lexes (bare_text t u) (bare_tokens t u ++ (token token_eof ∷ []))
  bare-Lexes t u ht hu =
      let la = string-LexesAs a ha in
      let lb = string-LexesAs b hb in
      let lc = string-LexesAs c hc in
      simp append_assoc (
        la.reads _ _ (Separated-op t _ ht) (
          read (lex-op-Plain t (string b) _ ht lb.plain) (
            lb.reads _ _ (Separated-op u _ hu) (
              read (rw append-nil at (lex-op-Plain u (string c) [] hu lc.plain))
                (rw append-nil at (lc.reads [] (token token_eof ∷ []) tt (read lex_end stop)))))))

  -- The first operator binds at least as tightly: it takes the middle operand.
  pub parse-bare_left :
      (t u : TokenType) {n m : Node}
      → is_binary_op t ≡ true
      → is_binary_op u ≡ true
      → precedence u ≤ precedence t
      → new_binary_op_node t a b ≡ ok n
      → new_binary_op_node u n c ≡ ok m
      → parse (bare_text t u) ≡ ok m
  parse-bare_left t u ht hu le first second = (parse-eq-ok_iff (bare_text t u) _).1 (record {
    tokens = bare_tokens t u;
    last = token token_eof;
    last_eof = refl;
    lexes = Lexes-OffersFrom (bare-Lexes t u ht hu);
    derives =
        binary (token u) hu (omega arith)
          (binary (token t) ht le (string-Derives a ha _) (string-Derives b hb _) first)
          (string-Derives c hc _) second;
  })

  -- The second operator binds more tightly: it takes the middle operand.
  pub parse-bare_right :
      (t u : TokenType) {n m : Node}
      → is_binary_op t ≡ true
      → is_binary_op u ≡ true
      → precedence t + 1 ≤ precedence u
      → new_binary_op_node u b c ≡ ok n
      → new_binary_op_node t a n ≡ ok m
      → parse (bare_text t u) ≡ ok m
  parse-bare_right t u ht hu lt first second = (parse-eq-ok_iff (bare_text t u) _).1 (record {
    tokens = string_tokens a ++ (token t ∷ (string_tokens b ++ (token u ∷ string_tokens c)));
    last = token token_eof;
    last_eof = refl;
    lexes = Lexes-OffersFrom (simp append_assoc (simp append_assoc at (bare-Lexes t u ht hu)));
    derives =
        binary (token t) ht (omega arith) (string-Derives a ha _)
          (binary (token u) hu lt (string-Derives b hb _) (string-Derives c hc _) first) second;
  })

  -- `a||b&&c` groups as `(a||b)&&c`, and `a&&b||c` as `a&&(b||c)`: the disjunction binds more tightly
  -- than the conjunction, for all printable operands.
  pub parse-or_and :
      (parse (string a ++ (codes "||" ++ (string b ++ (codes "&&" ++ string c))))
        ≡ ok (and_node (or_node a b) c))
      × (parse (string a ++ (codes "&&" ++ (string b ++ (codes "||" ++ string c))))
          ≡ ok (and_node a (or_node b c)))
  unfolding is_binary_op precedence new_binary_op_node
  parse-or_and = (
    parse-bare_left token_or token_and refl refl (omega arith) refl refl,
    parse-bare_right token_and token_or refl refl (omega arith) refl refl,
  )
