-- ===== src/Gates.antt =====
-- tooling/xtask/src/main.rs, isa.rs and styles.rs: the development commands and the gates that a
-- change must pass.
pub mod Isa
pub mod Machine
pub mod Styles
pub mod Scans
pub mod Steps
