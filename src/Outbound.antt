-- ===== src/Outbound.antt =====
-- crates/rv2-email and crates/rv2-analytics: what the server sends to its vendors.
pub mod Email
pub mod Analytics
