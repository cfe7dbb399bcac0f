-- ===== src/Store/Receive.antt =====
-- Receiving messages: which message comes next, what a delivery writes, the loop, and attempts.
pub mod Next
pub mod Deliver
pub mod Collect
pub mod Attempts
pub mod Page
