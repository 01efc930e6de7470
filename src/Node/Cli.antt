-- ===== src/Node/Cli.antt =====
-- node/src/cli.rs: the commands and their arguments, and what a command hands to the packages.
use paraxiom.Prelude.{ℕ, String, Bool, Option, List, string_eq}
use paraxiom.Attempt.{Attempt}
use paraxiom.Node.ChainSpec.{
  ChainSpec, GenesisConfig, Extensions, try_get, development_config, local_testnet_config,
}
use paraxiom.Node.ChainSpec as ChainSpec
use paraxiom.Node.Base.{Error, Handle}
use paraxiom.Node.Parts.{Configuration}
use paraxiom.Node.Parts as Parts

pub data BenchmarkCmd : Type 0 where
  pallet block storage machine unsupported : Handle → BenchmarkCmd

-- A command with its arguments, which the packages parse and read.
pub data Subcommand : Type 0 where
  build_spec check_block export_blocks export_state import_blocks revert : Handle → Subcommand
  purge_chain : Handle → Subcommand
  export_genesis_state export_genesis_wasm : Handle → Option String → Subcommand
  benchmark : BenchmarkCmd → Subcommand
  try_runtime : Handle → Subcommand

pub record Cli : Type 0 where
  pub subcommand : Option Subcommand
  pub run : Handle
  pub collator_options : Handle
  pub no_hardware_benchmarks : Bool
  pub relay_chain_args : List String

-- The relay chain's part: `base` is what its own arguments say.
pub record RelayChainCli : Type 0 where
  pub base : Handle
  pub chain_id : Option String
  pub base_path : Option String

-- What a command hands to its package.
pub data Job : Type 0 where
  build_spec : Handle → ChainSpec → Handle → Job
  check_block import_blocks : Handle → Handle → Handle → Job
  export_blocks : Handle → Handle → Handle → Job
  export_state : Handle → Handle → ChainSpec → Job
  revert : Handle → Handle → Handle → Job
  purge_chain : Handle → Configuration → Configuration → Job
  export_genesis_state : Handle → ChainSpec → ℕ → Job
  export_genesis_wasm : Handle → ChainSpec → Job
  benchmark_pallet : Handle → Configuration → Job
  benchmark_block : Handle → Handle → Job
  benchmark_storage : Handle → Configuration → Handle → Handle → Job
  benchmark_machine : Handle → Configuration → Job
  try_runtime : Handle → Job

-- The packages of the command line, and the features of the build. `state_version` is the runtime
-- version's.
pub record Packages : Type 0 where
  pub service : Parts.Packages
  pub specs : ChainSpec.Packages
  pub from_json_file : String → Attempt Error ChainSpec
  pub parse_from : List String → Handle
  pub executable_name : String
  pub join : String → String → String
  pub create_runner : Handle → Attempt Error Configuration
  pub create_configuration : RelayChainCli → Attempt Error Configuration
  pub base_chain_id : Handle → Bool → Attempt Error String
  pub base_base_path : Handle → Attempt Error (Option String)
  pub run_job : Job → Attempt Error Unit
  pub gather_hwbench : String → Handle
  pub generate_genesis_block : ChainSpec → ℕ → Attempt Error Handle
  pub state_version : ℕ
  pub runtime_benchmarks : Bool
  pub try_runtime_enabled : Bool
