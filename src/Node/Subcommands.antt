-- ===== src/Node/Subcommands.antt =====
-- A subcommand takes no role and starts no network.
use paraxiom.Prelude.{Option, String, List, string_eq, Bool-cases, inl, inr}
use paraxiom.Node.ChainSpec.{ChainSpec}
use paraxiom.Node.Base.{Handle, lift, ◌>>=◌}
use paraxiom.Node.Service.{
  Prepared, build_consensus, prepare, collate, follow, start_node_impl, expect,
}
use paraxiom.Node.Parts.{Configuration}
use paraxiom.Node.Service as Service
use paraxiom.Node.Parts as Parts
use paraxiom.Node.Startup.{new_partial-Quiet}
use paraxiom.Node.Steps.{Quiet, Quiet-lift, Quiet-bind}
use paraxiom.Node.Command.{
  polkadot_config, run_benchmark, run_subcommand, spec_or_default, spec_or_default,
}
use paraxiom.Node.Cli.{
  Packages, Cli, Subcommand, BenchmarkCmd, Job, pallet, block, storage, machine, unsupported,
}

module _ (p : Packages) where
  job-Quiet : (j : Job) → Quiet (lift (p.run_job j))
  job-Quiet j = Quiet-lift (p.run_job j)

  pub polkadot_config-Quiet :
      (config : Configuration) (args : List String) → Quiet (polkadot_config p config args)
  unfolding polkadot_config
  polkadot_config-Quiet config args = Quiet-lift _

  run_benchmark-Quiet :
      (config : Configuration) (cmd : BenchmarkCmd) → Quiet (run_benchmark p config cmd)
  unfolding run_benchmark
  run_benchmark-Quiet config (pallet cmd) = elim (Bool-cases p.runtime_benchmarks) [
    | inl on ↦ rw on (Quiet-lift _)
    | inr off ↦ rw off (Quiet-lift _)
  ]
  run_benchmark-Quiet config (block cmd) =
      Quiet-bind (Service.new_partial p.service config) _ (new_partial-Quiet p.service config)
        λ partials. Quiet-lift _
  run_benchmark-Quiet config (storage cmd) = elim (Bool-cases p.runtime_benchmarks) [
    | inl on ↦ rw on (
        Quiet-bind (Service.new_partial p.service config) _ (new_partial-Quiet p.service config)
          λ partials. Quiet-lift _)
    | inr off ↦ rw off (Quiet-lift _)
  ]
  run_benchmark-Quiet config (machine cmd) = Quiet-lift _
  run_benchmark-Quiet config (unsupported cmd) = Quiet-lift _

  -- A subcommand that creates a runner, then the components, then hands over to its package.
  with_components-Quiet :
      (cmd : Handle) (j : Configuration → Parts.PartialComponents → Job)
      → Quiet (
          lift (p.create_runner cmd) >>= λ config.
          Service.new_partial p.service config >>= λ c. lift (p.run_job (j config c)))
  with_components-Quiet cmd j =
      Quiet-bind (lift (p.create_runner cmd)) _ (Quiet-lift (p.create_runner cmd)) λ config.
        Quiet-bind (Service.new_partial p.service config) _ (new_partial-Quiet p.service config)
          λ c. Quiet-lift _

  -- One that creates a runner and loads a specification.
  with_spec-Quiet :
      (cmd : Handle) (chain : Option String) (j : ChainSpec → Job)
      → Quiet (
          lift (p.create_runner cmd) >>= λ config.
          spec_or_default p chain >>= λ spec. lift (p.run_job (j spec)))
  with_spec-Quiet cmd chain j =
      Quiet-bind (lift (p.create_runner cmd)) _ (Quiet-lift (p.create_runner cmd))
        λ config. Quiet-bind (spec_or_default p chain) _ (Quiet-lift _) λ spec. Quiet-lift _

  pub run_subcommand-Quiet : (cli : Cli) (cmd : Subcommand) → Quiet (run_subcommand p cli cmd)
  unfolding run_subcommand
  run_subcommand-Quiet cli (Subcommand.build_spec cmd) =
      Quiet-bind (lift (p.create_runner cmd)) _ (Quiet-lift (p.create_runner cmd))
        λ config. Quiet-lift _
  run_subcommand-Quiet cli (Subcommand.check_block cmd) =
      with_components-Quiet cmd λ config c. Job.check_block cmd c.parts.client c.import_queue
  run_subcommand-Quiet cli (Subcommand.export_blocks cmd) =
      with_components-Quiet cmd λ config c. Job.export_blocks cmd c.parts.client config.database
  run_subcommand-Quiet cli (Subcommand.export_state cmd) =
      with_components-Quiet cmd λ config c. Job.export_state cmd c.parts.client config.chain_spec
  run_subcommand-Quiet cli (Subcommand.import_blocks cmd) =
      with_components-Quiet cmd λ config c. Job.import_blocks cmd c.parts.client c.import_queue
  run_subcommand-Quiet cli (Subcommand.revert cmd) =
      with_components-Quiet cmd λ config c. Job.revert cmd c.parts.client c.parts.backend
  run_subcommand-Quiet cli (Subcommand.purge_chain cmd) =
      Quiet-bind (lift (p.create_runner cmd)) _ (Quiet-lift (p.create_runner cmd)) λ config.
        Quiet-bind (polkadot_config p config cli.relay_chain_args) _
          (polkadot_config-Quiet config cli.relay_chain_args) λ polkadot. Quiet-lift _
  run_subcommand-Quiet cli (Subcommand.export_genesis_state cmd chain) =
      with_spec-Quiet cmd chain λ spec. Job.export_genesis_state cmd spec p.state_version
  run_subcommand-Quiet cli (Subcommand.export_genesis_wasm cmd chain) =
      with_spec-Quiet cmd chain λ spec. Job.export_genesis_wasm cmd spec
  run_subcommand-Quiet cli (Subcommand.benchmark cmd) =
      Quiet-bind (lift (p.create_runner _)) _ (Quiet-lift _)
        λ config. run_benchmark-Quiet config cmd
  run_subcommand-Quiet cli (Subcommand.try_runtime cmd) = elim (Bool-cases p.try_runtime_enabled) [
    | inl on ↦ rw on (
        Quiet-bind (lift (p.create_runner cmd)) _ (Quiet-lift (p.create_runner cmd))
          λ config. Quiet-lift _)
    | inr off ↦ rw off (Quiet-lift _)
  ]
