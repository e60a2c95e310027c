-- ===== src/Model.antt =====
-- crates/oxide-ssh-core/src/model.rs.
pub mod Types
pub mod Text
pub mod Trim
pub mod Validate
