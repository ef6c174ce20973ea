-- ===== src/PluralForms/Parser/Running.antt =====
-- gettext/pluralforms/parser.go: what a run of the parser on a concrete text computes with.
use sadbox.PluralForms.Lexer.{
  next_rune, skip_run, next_run, symbol_token, next_default, next_switch, next_loop, next,
}
use sadbox.PluralForms.Operators.{
  is_unary_op, is_value, new_binary_op_node, new_unary_op_node, new_value_node,
}
use sadbox.PluralForms.Parser.{parse, right_precedence, breaks}
use sadbox.PluralForms.Stream.{new_token_stream, pop, grown, push}

-- To unfold this is to unfold the parser, the stream and the lexer.
unfoldable pub running : Unit {0}
unfolding parse right_precedence breaks is_unary_op is_value new_binary_op_node new_unary_op_node
    new_value_node new_token_stream pop grown push next_rune skip_run next_run symbol_token
    next_default next_switch next_loop next
running = tt
