-- ===== src/Relay.antt =====
-- The protocol relay runtime (packages/relay/src).
pub mod Types
pub mod Reasons
pub mod Config
pub mod Policy
pub mod Runtime
pub mod Completion
pub mod Submission
pub mod Polling
pub mod Settlement
pub mod Recovery
pub mod Calls
pub mod Wire
pub mod Api
mod Tests
