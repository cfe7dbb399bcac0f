-- ===== src/Http/Laws.antt =====
-- Theorems about the HTTP front end, one child per subject.
pub mod Keeps
pub mod Passes
pub mod Denied
pub mod Does
pub mod Asked
pub mod Effects
pub mod Turns
pub mod Outcome
pub mod Polling
pub mod Server
pub mod Waiting
pub mod Deadline
pub mod Answered
pub mod Escape
pub mod Digest
pub mod Remote
pub mod Urls
