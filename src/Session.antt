-- ===== src/Session.antt =====
-- crates/oxide-ssh-core/src/session.rs and crates/oxide-ssh-core/src/local.rs: sessions.
pub mod Events
pub mod Handle
pub mod Authenticate
pub mod AuthenticateLaws
pub mod Connection
pub mod ConnectionLaws
pub mod Examples
