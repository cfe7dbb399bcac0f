-- ===== src/Store/Sound.antt =====
-- The well-formedness of the tables that every operation keeps.
pub mod Rows
pub mod Send
pub mod Receive
pub mod Page
pub mod Manage
pub mod Labels
pub mod Reach
pub mod Self
