-- ===== src/Anchor.antt =====
-- pallets/offchain-rollup: the anchor of off-chain rollups, a key-value store for each claimed
-- name with an outbound message queue inside it, and the transactions that a contract submits.
pub mod State
pub mod Queue
pub mod Rollup
pub mod Keys
pub mod Slots
pub mod Updates
pub mod Transactions
pub mod Serial
pub mod Cells
pub mod Isolation
pub mod Through
pub mod Readable
pub mod Tame
pub mod Totality
pub mod Span
pub mod Capacity
pub mod Jump
pub mod Conflict
pub mod Client
pub mod Takes
pub mod Sessions
pub mod Ownership
pub mod Bounds
pub mod Corruption
pub mod Fifo
pub mod Popped
pub mod Pop
pub mod Drain
pub mod Promises
pub mod History
