-- ===== src/Terminal.antt =====
-- crates/oxide-ssh-terminal/src/model.rs: the terminal of a tab.
pub mod Types
pub mod Colors
pub mod Model
pub mod ColorLaws
pub mod SizeLaws
mod Examples
pub mod Cells
pub mod Selection
