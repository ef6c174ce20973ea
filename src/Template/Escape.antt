-- ===== src/Template/Escape.antt =====
-- template/escape: contextual escaping of templates.
pub mod Attr
pub mod Context
pub mod Scan
pub mod Html
pub mod Script
pub mod Css
pub mod Decode
pub mod Transition
pub mod Text
pub mod Join
pub mod Advance
pub mod Content
pub mod Replace
pub mod Markup
pub mod Percent
pub mod Strings
pub mod Strip
pub mod Action
pub mod Pipeline
mod Tests
