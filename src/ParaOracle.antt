-- ===== src/ParaOracle.antt =====
-- pallets/para-oracle: values that accounts and parachains feed, combined by their median, and the
-- off-chain worker that fetches them.
pub mod Combine
pub mod Median
pub mod Order
pub mod State
pub mod Calls
pub mod Feeding
pub mod Dispatched
pub mod Creators
pub mod Apis
pub mod Aggregate
pub mod Provenance
pub mod Answers
pub mod Worker
pub mod Fetching
pub mod WorkerRuns
