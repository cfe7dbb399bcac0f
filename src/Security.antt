-- ===== src/Security.antt =====
-- src/security.rs: queue security settings, resource policies and permissions.
pub mod Json
pub mod Glob
pub mod Names
pub mod Policy
pub mod Authorize
pub mod Settings
pub mod Permission
