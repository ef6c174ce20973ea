-- ===== src/Gettext.antt =====
-- gettext: catalogs of translations and the files they are kept in.
pub mod Message
pub mod Bytes
pub mod Catalog
pub mod Sorted
pub mod Mo
pub mod Format
mod Tests
