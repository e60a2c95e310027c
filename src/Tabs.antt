-- ===== src/Tabs.antt =====
-- crates/oxide-ssh-app/src/tabs.rs: tabs, the queue of modal dialogs, and the collection of both.
pub mod Modals
pub mod ModalLaws
pub mod Tab
pub mod TabLaws
pub mod Calls
pub mod Ids
pub mod Valid
pub mod Removal
pub mod Keeps
pub mod Steps
pub mod Repaint
pub mod Events
pub mod Closing
pub mod Examples
pub mod Collection
