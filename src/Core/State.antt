-- ===== src/Core/State.antt =====
-- The core's state tree and the operations on it (packages/core/src/state).
pub mod Tree
pub mod Filter
pub mod Operations
pub mod Bridge
pub mod Memory
pub mod Serialization
pub mod Redux
