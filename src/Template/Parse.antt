-- ===== src/Template/Parse.antt =====
-- template/parse: the lexer and the parser of templates.
pub mod Lex
mod Tests
