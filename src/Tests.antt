-- ===== src/Tests.antt =====
-- Tests, and the theorems at inputs where their hypotheses hold.
mod Codec
mod Anchor
mod Queues
mod Sessions
mod Oracle
mod Feeders
mod ParaOracle
mod Worker
mod Answers
mod Phat
mod Runtime
mod Weights
mod Node
