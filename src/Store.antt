-- ===== src/Store.antt =====
-- src/sqlite_lqs.rs, src/fifo.rs, src/management.rs, src/security_sqlite.rs: the repository over its
-- SQLite tables, one function for each operation.
pub mod Tables
pub mod Read
pub mod Messages
pub mod Send
pub mod Receive
pub mod Visibility
pub mod Redrive
pub mod Settings
pub mod Manage
pub mod Remove
pub mod Sound
pub mod Laws
