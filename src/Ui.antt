-- ===== src/Ui.antt =====
-- crates/rv2-ui: the state and the decisions of the component kit. Classes, texts and layout are
-- left out.
pub mod Tabs
pub mod Select
pub mod Fields
pub mod Navigation
pub mod Controls
