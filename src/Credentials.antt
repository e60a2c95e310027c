-- ===== src/Credentials.antt =====
-- The credentials that profiles refer to, and the transactions that keep them in step with the
-- stored configuration.
pub mod Types
pub mod Coordinator
pub mod Steps
pub mod Rollback
pub mod StepLaws
pub mod SaveLaws
pub mod Stored
pub mod DeleteLaws
pub mod Keyring
pub mod KeyringLaws
pub mod KeyringReads
pub mod Examples
pub mod Samples
