-- ===== src/Tests/Node.antt =====
-- A node with packages that answer at once.
use paraxiom.Prelude.{◌≡◌, refl, true, false, none, some, [], ◌∷◌, if◌then◌else◌, ◌&&◌}
use paraxiom.Attempt.{ok}
use paraxiom.Node.ChainSpec.{
  GenesisConfig, ChainSpec, extensions_of_network, development_config, local_testnet_config,
  sr25519,
}
use paraxiom.Node.ChainSpec as ChainSpec
use paraxiom.Node.Parts.{Configuration, FullParts}
use paraxiom.Node.Parts as Parts
use paraxiom.Node.Service.{start_node_impl}
use paraxiom.Node.Steps.{
  count, ends_in_network, is_ok, starts_network, starts_collator, starts_full_node, Pass,
}
use paraxiom.Node.Roles.{start_node_impl_lem}
use paraxiom.Node.Cli.{Cli, Packages}
use paraxiom.Node.Command.{run}
use paraxiom.Node.Launch.{is_for, run-is_for}

abbrev specs : ChainSpec.Packages
specs = record {
  from_string = λ scheme text. some 3;
  into_account = λ public. public;
  wasm_binary = some (1 ∷ []);
  xcm_version = 3;
}

abbrev full_parts : FullParts
full_parts = record { client = 1; backend = 2; keystore_container = 3; task_manager = 4 }

abbrev service : Parts.Packages
service = record {
  prepare_node_config = λ config. config;
  new_telemetry = λ endpoints. ok (8, 9);
  new_full_parts = λ config telemetry. ok full_parts;
  new_full_pool = λ config client. 5;
  new_block_import = λ client backend. 6;
  slot_duration = λ client. ok 12000;
  from_timestamp_and_slot_duration = λ timestamp duration. timestamp;
  import_queue = λ params. ok 7;
  build_relay_chain_interface = λ polkadot config worker options hwbench. ok (10, some 11);
  build_network = λ params. ok 12;
  spawn_tasks = λ params. ok tt;
  create_at = λ parent interface validation id. some 13;
  build_aura = λ params. 14;
  start_collator = λ params. ok tt;
  start_full_node = λ params. ok tt;
}

-- An authority of the development chain.
abbrev authority : Configuration
authority = record {
  chain_spec = development_config specs;
  telemetry_endpoints = none;
  is_authority = true;
  offchain_worker_enabled = true;
  force_authoring = false;
  base_path = none;
  database = 0;
  database_path = none;
  network = 0;
}

start_node_impl_lem_example :
    let (r, events) = start_node_impl service authority authority 0 1000 none [] in
    (count starts_network events ≡ (if is_ok r then 1 else 0))
    × (ends_in_network events ≡ is_ok r)
    × (count starts_collator events ≡ (if is_ok r && true then 1 else 0))
    × (count starts_full_node events ≡ (if is_ok r && false then 1 else 0))
start_node_impl_lem_example = start_node_impl_lem service authority authority 0 1000 none

abbrev packages : Packages
packages = record {
  service = service;
  specs = specs;
  from_json_file = λ path. ok (record (development_config specs) { extensions = none });
  parse_from = λ args. 0;
  executable_name = "paraxiom";
  join = λ path name. name;
  create_runner = λ cmd. ok authority;
  create_configuration = λ cli. ok authority;
  base_chain_id = λ base is_dev. ok "";
  base_base_path = λ base. ok none;
  run_job = λ job. ok tt;
  gather_hwbench = λ path. 0;
  generate_genesis_block = λ spec version. ok 0;
  state_version = 1;
  runtime_benchmarks = false;
  try_runtime_enabled = false;
}

abbrev cli : Cli
cli = record {
  subcommand = none;
  run = 0;
  collator_options = 0;
  no_hardware_benchmarks = true;
  relay_chain_args = [];
}

authority-extensions : authority.chain_spec.extensions ≡ some extensions_of_network
unfolding development_config
authority-extensions = refl

run-is_for_example : Pass (is_for 1000) (run packages cli []).1
run-is_for_example =
    run-is_for packages cli authority extensions_of_network refl authority-extensions
