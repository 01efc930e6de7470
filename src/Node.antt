-- ===== src/Node.antt =====
-- node/src: the chain's specifications, the command line and the start of a node.
pub mod ChainSpec
pub mod Base
pub mod Parts
pub mod Service
pub mod Cli
pub mod Command
pub mod Relay
pub mod Rpc
pub mod Steps
pub mod Startup
pub mod Roles
pub mod Genesis
pub mod Subcommands
pub mod Launch
