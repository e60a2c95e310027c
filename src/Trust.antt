-- ===== src/Trust.antt =====
-- crates/oxide-ssh-core/src/session.rs: who decides on an unknown host key, and when.
pub mod Coordinator
pub mod Decide
pub mod DecideLaws
pub mod PromptLaws
pub mod Examples
mod VerifyExamples
pub mod Steps
pub mod Verify
pub mod VerifyLaws
