-- ===== src/PluralForms.antt =====
-- gettext/pluralforms: the Plural-Forms expressions of gettext catalogs.
pub mod Token
pub mod Lexer
pub mod Stream
pub mod Node
pub mod Operators
pub mod Parser
pub mod Grammar
pub mod Printer
pub mod Plural
mod Tests
