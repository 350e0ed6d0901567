-- ===== src/Shared.antt =====
-- crates/rv2-shared: the roles of a principal, and the configuration of the server.
pub mod Roles
pub mod Config
