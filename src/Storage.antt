-- ===== src/Storage.antt =====
-- crates/oxide-ssh-core/src/storage.rs.
pub mod Types
pub mod Config
pub mod Files
pub mod Store
pub mod ConfigLaws
pub mod FileLaws
pub mod StoreLaws
pub mod HostLaws
pub mod TrustLaws
pub mod Samples
mod Examples
