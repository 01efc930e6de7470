-- ===== src/Node/Command.antt =====
-- node/src/cli.rs and node/src/command.rs: the command line, and what each command runs.
use paraxiom.Prelude.{
  String, Bool, true, false, Option, none, some, List, ◌∷◌, ◌==◌, if◌then◌else◌, string_eq,
}
use paraxiom.Attempt.{Attempt, ok, err, panic, map_err}
use paraxiom.Node.ChainSpec.{
  ChainSpec, Extensions, try_get, development_config, local_testnet_config,
}
use paraxiom.Node.Base.{Error, input, formatted, Handle, Run, pure, lift, ◌>>=◌, ◌>>◌}
use paraxiom.Node.Service.{new_partial, start_parachain_node}
use paraxiom.Node.Parts.{Configuration}
use paraxiom.Node.Cli.{
  BenchmarkCmd, Cli, Job, Packages, RelayChainCli, Subcommand, block, machine, pallet, storage,
  unsupported, benchmark_pallet, benchmark_block, benchmark_storage, benchmark_machine,
}

module _ (p : Packages) where
  unfoldable pub load_spec : String → Attempt Error ChainSpec
  load_spec id =
      if id == "dev"
      then ok (development_config p.specs)
      else if id == "paraxiom-rococo"
      then ok (local_testnet_config p.specs)
      else if id == ""
      then ok (local_testnet_config p.specs)
      else if id == "local"
      then ok (local_testnet_config p.specs)
      else p.from_json_file id

  abbrev relay_chain_of : Option Extensions → Option String
  relay_chain_of none = none
  relay_chain_of (some e) = some e.relay_chain

  abbrev joined : Option String → Option String
  joined none = none
  joined (some path) = some (p.join path "polkadot")

  -- `RelayChainCli::new`
  unfoldable pub new : Configuration → List String → RelayChainCli
  new para_config relay_chain_args = record {
    base = p.parse_from relay_chain_args;
    chain_id = relay_chain_of (try_get para_config.chain_spec);
    base_path = joined para_config.base_path;
  }

  abbrev unwrap_or_default : Option String → String
  unwrap_or_default none = ""
  unwrap_or_default (some s) = s

  -- `chain_id`, of the relay chain's command line
  unfoldable pub chain_id : RelayChainCli → Bool → Attempt Error String
  chain_id cli is_dev = elim (p.base_chain_id cli.base is_dev) [
    | ok id ↦ ok (if id == "" then unwrap_or_default cli.chain_id else id)
    | err e ↦ err e
    | panic ↦ panic
  ]

  abbrev or_else : Option String → Option String → Option String
  or_else none other = other
  or_else (some path) other = some path

  -- `base_path`, of the relay chain's command line
  unfoldable pub base_path : RelayChainCli → Attempt Error (Option String)
  base_path cli = elim (p.base_base_path cli.base) [
    | ok path ↦ ok (or_else path cli.base_path)
    | err e ↦ err e
    | panic ↦ panic
  ]

  abbrev job : Job → Run Unit
  job j = lift (p.run_job j)

  -- The relay chain's configuration, from the arguments behind `--`.
  unfoldable pub polkadot_config : Configuration → List String → Run Configuration
  unfolding new
  polkadot_config config relay_chain_args = lift (
      map_err (formatted "Relay chain argument error: ")
        (p.create_configuration (new config (p.executable_name ∷ relay_chain_args))))

  abbrev pub spec_or_default : Option String → Run ChainSpec
  spec_or_default chain = lift (load_spec (unwrap_or_default chain))

  unfoldable pub run_benchmark : Configuration → BenchmarkCmd → Run Unit
  run_benchmark config (pallet cmd) =
      if p.runtime_benchmarks
      then job (benchmark_pallet cmd config)
      else lift (
          err (
            input
              "Benchmarking wasn't enabled when building the node. You can enable it with `--features runtime-benchmarks`."))
  run_benchmark config (block cmd) = do
    partials ← new_partial p.service config
    job (benchmark_block cmd partials.parts.client)
  run_benchmark config (storage cmd) =
      if p.runtime_benchmarks
      then (do
        partials ← new_partial p.service config
        job (benchmark_storage cmd config partials.parts.client partials.parts.backend))
      else lift
          (err (input "Compile with --features=runtime-benchmarks to enable storage benchmarks."))
  run_benchmark config (machine cmd) = job (benchmark_machine cmd config)
  run_benchmark config (unsupported cmd) = lift (err (input "Benchmarking sub-command unsupported"))

  abbrev pub command_of : BenchmarkCmd → Handle
  command_of (pallet cmd) = cmd
  command_of (block cmd) = cmd
  command_of (storage cmd) = cmd
  command_of (machine cmd) = cmd
  command_of (unsupported cmd) = cmd

  unfoldable pub run_subcommand : Cli → Subcommand → Run Unit
  unfolding new_partial polkadot_config run_benchmark load_spec
  run_subcommand cli (Subcommand.build_spec cmd) = do
    config ← lift (p.create_runner cmd)
    job (Job.build_spec cmd config.chain_spec config.network)
  run_subcommand cli (Subcommand.check_block cmd) = do
    config ← lift (p.create_runner cmd)
    components ← new_partial p.service config
    job (Job.check_block cmd components.parts.client components.import_queue)
  run_subcommand cli (Subcommand.export_blocks cmd) = do
    config ← lift (p.create_runner cmd)
    components ← new_partial p.service config
    job (Job.export_blocks cmd components.parts.client config.database)
  run_subcommand cli (Subcommand.export_state cmd) = do
    config ← lift (p.create_runner cmd)
    components ← new_partial p.service config
    job (Job.export_state cmd components.parts.client config.chain_spec)
  run_subcommand cli (Subcommand.import_blocks cmd) = do
    config ← lift (p.create_runner cmd)
    components ← new_partial p.service config
    job (Job.import_blocks cmd components.parts.client components.import_queue)
  run_subcommand cli (Subcommand.revert cmd) = do
    config ← lift (p.create_runner cmd)
    components ← new_partial p.service config
    job (Job.revert cmd components.parts.client components.parts.backend)
  run_subcommand cli (Subcommand.purge_chain cmd) = do
    config ← lift (p.create_runner cmd)
    polkadot ← polkadot_config config cli.relay_chain_args
    job (Job.purge_chain cmd config polkadot)
  run_subcommand cli (Subcommand.export_genesis_state cmd chain) = do
    config ← lift (p.create_runner cmd)
    spec ← spec_or_default chain
    job (Job.export_genesis_state cmd spec p.state_version)
  run_subcommand cli (Subcommand.export_genesis_wasm cmd chain) = do
    config ← lift (p.create_runner cmd)
    spec ← spec_or_default chain
    job (Job.export_genesis_wasm cmd spec)
  run_subcommand cli (Subcommand.benchmark cmd) = do
    config ← lift (p.create_runner (command_of cmd))
    run_benchmark config cmd
  run_subcommand cli (Subcommand.try_runtime cmd) =
      if p.try_runtime_enabled
      then (do config ← lift (p.create_runner cmd); job (Job.try_runtime cmd))
      else lift (
          err (
            input
              "Try-runtime was not enabled when building the node. You can enable it with `--features try-runtime`."))

  abbrev pub hwbench_of : Bool → Option String → Option Handle
  hwbench_of true path = none
  hwbench_of false none = none
  hwbench_of false (some path) = some (p.gather_hwbench path)

  abbrev pub ok_or : {A : Type 0} → Option A → Error → Run A
  ok_or none e = lift (err e)
  ok_or (some a) e = pure a

  -- The node of a specification with these extensions.
  unfoldable pub launch : Cli → Configuration → Option Handle → Extensions → Run Unit
  unfolding polkadot_config
  launch cli config hwbench e = do
    lift (map_err (formatted "") (p.generate_genesis_block config.chain_spec p.state_version))
    polkadot ← polkadot_config config cli.relay_chain_args
    start_parachain_node p.service config polkadot cli.collator_options e.para_id hwbench
    pure tt

  -- Without a subcommand.
  unfoldable pub run_node : Cli → Run Unit
  unfolding launch
  run_node cli = do
    config ← lift (p.create_runner cli.run)
    let hwbench = hwbench_of cli.no_hardware_benchmarks config.database_path
    e ← ok_or (try_get config.chain_spec) (input "Could not find parachain ID in chain-spec.")
    launch cli config hwbench e

  -- The command line once it is parsed.
  unfoldable pub run : Cli → Run Unit
  unfolding run_subcommand run_node
  run cli = elim cli.subcommand [ none ↦ run_node cli | some cmd ↦ run_subcommand cli cmd ]
