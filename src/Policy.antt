-- ===== src/Policy.antt =====
-- The configured policy of position pools and the standard that an application resolves to.
pub mod Tests
pub mod Standards
pub mod Validate
pub mod Snapshot
pub mod Preparation
pub mod Continuation
