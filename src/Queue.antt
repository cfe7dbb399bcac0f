-- ===== src/Queue.antt =====
-- src/sqlite_lqs.rs, src/fifo.rs: the types of queues and messages, and the checks that need no
-- database.
pub mod Types
pub mod External
pub mod Validate
pub mod Send
