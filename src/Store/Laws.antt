-- ===== src/Store/Laws.antt =====
-- What the store's operations promise, by subject.
pub mod Order
pub mod Choice
pub mod Moves
pub mod Limit
pub mod Work
pub mod Ends
pub mod Handles
pub mod Quotas
pub mod Policies
pub mod Metrics
pub mod Reply
pub mod Duplicate
pub mod Sources
pub mod Hidden
