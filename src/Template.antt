-- ===== src/Template.antt =====
-- template: the packages of the template engine.
pub mod Escape
pub mod Parse
