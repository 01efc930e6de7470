-- ===== src/Lib.antt =====
-- Paraxiom's oracle: the off-chain rollup anchor, the feed registry and the oracle pallet.
--
-- A contract that runs off chain claims a name at the anchor (pallets/offchain-rollup). The anchor
-- keeps a key-value store for each name, in which it also keeps a queue of messages for the contract.
-- The contract answers by rollups: transactions with conditions on the store, updates of the store
-- and actions, such as a reply or taking messages from the queue. Accounts register feeds
-- (pallets/registry); the oracle (pallets/oracle) turns a request for a feed into a message in a
-- contract's queue, and stores the replies that the anchor hands to it. Apart from these, the
-- para-oracle (pallets/para-oracle) takes values from accounts and from other parachains, at most once
-- in a block from each, combines the values for a key by their median, and has an off-chain worker
-- that fetches the feeds' values over HTTP. The contracts are under phat/contracts: a feed, and a
-- factory that deploys feeds. The node (node/src) builds the specification of the chain, reads the command
-- line, and starts a collator or a full node; the runtime's XCM barrier decides which messages of other
-- chains are executed.
--
-- Files:
--   Prelude, Prelude/*   numbers, lists, tests and the instances of equality
--   Errors               the pallets' error enums and FRAME's `DispatchError`
--   Frame, Frame/*       calls as state passing: a call returns, fails or panics, and `transactional`
--                        drops what a failed call has written; `Within` carries a relation between
--                        the states before and after through a call, `Calm` the absence of panics
--   Storage              storage maps, sealed behind the laws of `get`
--   Anchor/State         types and storage of pallets/offchain-rollup/src/{types,anchor}.rs
--   Anchor/Queue         `push_message` and the queue's helpers of anchor.rs
--   Anchor/Rollup        `claim_name`, `rollup` and its loops
--   Anchor/Keys, Slots   the keys of the queue's slots, which differ from each other
--   Anchor/Fifo, Popped, Pop, Drain   the queue as a list of messages, and a client that takes them
--   Anchor/Promises, History   all names' queues as lists, over sequences of operations
--   Anchor/Cells, Through   a relation between states, through the queue's calls and a rollup
--   Anchor/Readable, Tame, Totality, Span, Capacity, Bounds   what cannot panic, how long queues and their
--                        loops are, and the bounds of what is stored, over operations of anybody
--   Anchor/Client, Sessions   the client of anchor.rs's test `queue_e2e`, and two of them at work
--   Anchor/Updates, Transactions, Takes, Serial, Conflict, Isolation, Ownership, Corruption,
--   Anchor/Jump          what rollups do, and what they may do to the queue
--   Registry, Registry/Laws   pallets/registry/src/{types,lib}.rs
--   Oracle/State, Calls  pallets/oracle/src/{types,lib}.rs
--   Oracle/Requests, Responses, Collisions, RoundTrip   requests and responses through the anchor
--   Runtime, Runtime/Calls, Reachable, Feeds, Quiet, Panics   the pallets as runtime/paraxiom/src/lib.rs composes them
--   Runtime/Constants, Parameters, Fees, Weights   constants of runtime/paraxiom/src/lib.rs, its fee for
--                        a weight, and its limits on weight
--   Runtime/Inherents    `CheckInherents` of runtime/paraxiom/src/lib.rs
--   Runtime/Xcm, Barrier   the XCM barrier of runtime/paraxiom/src/xcm_config.rs
--   ParaOracle/Combine   pallets/para-oracle/src/default_combine_data.rs
--   ParaOracle/State, Calls   types, storage, hooks and extrinsics of pallets/para-oracle/src/lib.rs
--   ParaOracle/Worker    its off-chain worker and the validation of transactions
--   ParaOracle/Median, Order, Feeding, Dispatched, Creators, Apis, Aggregate, Provenance, Answers,
--   ParaOracle/Fetching, WorkerRuns   what they do
--   Attempt              results of code that runs off the chain
--   Phat/Feed, Access    phat/contracts/phat_oracle_feed/lib.rs, and it with the anchor and the oracle
--   Phat/Factory, Deployments   phat/contracts/phat_oracle/lib.rs
--   Node/ChainSpec, Genesis   node/src/chain_spec.rs, and the genesis that it describes
--   Node/Base, Parts, Service   node/src/service.rs: the steps of a start, and the record that they
--                        leave of what they have set in motion
--   Node/Cli, Command    node/src/{cli,command}.rs: the commands, and what each runs
--   Node/Relay           node/src/command.rs: what the relay chain's command line answers
--   Node/Rpc             node/src/rpc.rs: the module of JSON-RPC methods
--   Node/Steps, Startup, Roles, Subcommands, Launch   what a start sets in motion
--   Tests/*              concrete states
--
-- Modelling. Storage is explicit: each pallet's state is a record, a call is a function from a state
-- to an outcome and a state. Accounts, 32-byte hashes and block numbers are natural numbers, since the
-- code compares them only; a byte string is a list of numbers. The `u32` positions of the queue
-- wrap at 2 ^ 32 as in a release build. The loops run over lists, or over a range whose length is
-- computed beforehand, so that no fuel is needed. Packages are parameters: the SCALE codec
-- (`Codec`), randomness and the order of keys of a storage map (`Env`), the set of feeders and the
-- sender of XCM (`Config`), HTTP, JSON and the local accounts (`Host`, whose state changes with every
-- request), and for the node the functions of Substrate and Cumulus (`Packages`), under their names.
--
-- Not modelled: benchmarked weights; the copies of Cumulus's pallets, primitives and helpers
-- (pallets/collator-selection, primitives, common, runtime/paraxiom/src/constants.rs); the packages that
-- the runtime configures and its APIs, which forward to them; the node's logging.
pub mod Prelude
pub mod Errors
pub mod Frame
pub mod Storage
pub mod Anchor
pub mod Registry
pub mod Oracle
pub mod Runtime
pub mod Attempt
pub mod ParaOracle
pub mod Phat
pub mod Node
mod Tests
