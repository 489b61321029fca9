-- ===== src/Stellar/Merkle.antt =====
-- The cache of a pool's Merkle tree (packages/stellar/src/transact/merkle).
pub mod Leaves
pub mod Chain
pub mod Batches
pub mod Reading
pub mod Cache
pub mod Sessions
pub mod Trees
pub mod Live
pub mod Carries
pub mod Kept
pub mod Fetch
pub mod Fetched
pub mod Table
pub mod Reuse
