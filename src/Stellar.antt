-- ===== src/Stellar.antt =====
-- The Stellar package (packages/stellar): amounts, private records, the network and policy adapters,
-- submissions, the state service and the Merkle tree's cache.
pub mod Int
pub mod BigInt
pub mod Records
pub mod Effects
pub mod Sort
pub mod Selection
pub mod Outputs
pub mod Prepared
pub mod Network
pub mod Policy
pub mod Execution
pub mod Balances
pub mod Upsert
pub mod Polling
mod Tests
pub mod Merkle
