-- ===== src/Http.antt =====
-- http: parsing of HTTP headers.
pub mod Parser
pub mod Auth
