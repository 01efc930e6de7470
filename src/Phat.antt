-- ===== src/Phat.antt =====
-- The contracts under phat/contracts: the oracle feed, and the factory that deploys feeds.
pub mod Feed
pub mod Factory
pub mod Access
pub mod Deployments
