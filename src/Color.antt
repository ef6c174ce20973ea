-- ===== src/Color.antt =====
-- color: conversions between colors.
pub mod Hex
