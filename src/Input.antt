-- ===== src/Input.antt =====
-- crates/oxide-ssh-terminal/src/input.rs: what a key press or a paste sends to the session.
pub mod Keys
pub mod KeyLaws
pub mod Paste
pub mod PasteLaws
mod Examples
