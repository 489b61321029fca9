-- ===== src/Core.antt =====
-- The core package (packages/core/src).
pub mod Errors
pub mod Operations
pub mod Prepare
pub mod State
mod Tests
