-- ===== src/Node/Service.antt =====
-- node/src/service.rs: how a node is put together. The packages are a record of functions; handles
-- that are cloned are the same number.
use paraxiom.Prelude.{ℕ, String, Bool, Option, none, some, List, [], ◌∷◌, if◌then◌else◌}
use paraxiom.Attempt.{Attempt, ok, err, panic}
use paraxiom.Node.Base.{
  Error, Handle, StartCollatorParams, StartFullNodeParams, telemetry_spawned,
  relay_chain_interface_built, network_built, offchain_workers_built, tasks_spawned,
  hwbench_printed, hwbench_telemetry_spawned, collator_started, full_node_started, network_started,
  Run, pure, lift, ◌>>=◌, ◌>>◌, emit, done,
}
use paraxiom.Node.Parts.{Configuration, Packages, PartialComponents, RelayChainError, other, sub}

-- What stands ready before the node takes its role.
pub record Prepared : Type 0 where
  pub config : Configuration
  pub params : PartialComponents
  pub relay_chain_interface : Handle
  pub collator_key : Option Handle
  pub network : Handle

module _ (p : Packages) where
  unfoldable pub build_import_queue : Handle → Handle → Option Handle → Run Handle
  build_import_queue client block_import telemetry = do
    slot_duration ← lift (p.slot_duration client)
    lift (
        p.import_queue (record {
          block_import = block_import;
          client = client;
          create_inherent_data_providers =
              λ timestamp. (p.from_timestamp_and_slot_duration timestamp slot_duration, timestamp);
          telemetry = telemetry;
        }))

  -- The telemetry worker and the telemetry, for endpoints if there are any.
  abbrev pub telemetry_of : Option (List String) → Run (Option (Handle × Handle))
  telemetry_of none = pure none
  telemetry_of (some []) = pure none
  telemetry_of (some (endpoint ∷ endpoints)) = do
    telemetry ← lift (p.new_telemetry (endpoint ∷ endpoints))
    pure (some telemetry)

  abbrev pub spawn_telemetry : Option (Handle × Handle) → Run (Option Handle)
  spawn_telemetry none = pure none
  spawn_telemetry (some (worker, telemetry)) = emit telemetry_spawned >> pure (some telemetry)

  abbrev pub worker_of : Option (Handle × Handle) → Option Handle
  worker_of none = none
  worker_of (some (worker, telemetry)) = some worker

  abbrev pub handle_of : Option (Handle × Handle) → Option Handle
  handle_of none = none
  handle_of (some (worker, telemetry)) = some telemetry

  unfoldable pub new_partial : Configuration → Run PartialComponents
  unfolding build_import_queue
  new_partial config = do
    started ← telemetry_of config.telemetry_endpoints
    parts ← lift (p.new_full_parts config (handle_of started))
    telemetry ← spawn_telemetry started
    let transaction_pool = p.new_full_pool config parts.client
    let block_import = p.new_block_import parts.client parts.backend
    import_queue ← build_import_queue parts.client block_import telemetry
    pure (record {
      parts = parts;
      import_queue = import_queue;
      transaction_pool = transaction_pool;
      block_import = block_import;
      telemetry = telemetry;
      telemetry_worker_handle = worker_of started;
    })

  unfoldable pub build_consensus : PartialComponents → Handle → Handle → Bool → ℕ → Run Handle
  build_consensus params relay_chain_interface network force_authoring para_id = do
    slot_duration ← lift (p.slot_duration params.parts.client)
    pure (
        p.build_aura (record {
          client = params.parts.client;
          transaction_pool = params.transaction_pool;
          block_import = params.block_import;
          sync_oracle = network;
          keystore = params.parts.keystore_container;
          force_authoring = force_authoring;
          slot_duration = slot_duration;
          create_inherent_data_providers = λ timestamp relay_parent validation_data.
              elim (p.create_at relay_parent relay_chain_interface validation_data para_id) [
                | none ↦ err (Error.input "Failed to create parachain inherent")
                | some inherent ↦ ok (
                  p.from_timestamp_and_slot_duration timestamp slot_duration,
                  timestamp,
                  inherent,
                )
              ];
          telemetry = params.telemetry;
        }))

  abbrev pub service_error : {A : Type 0} → Attempt RelayChainError A → Attempt Error A
  service_error (ok a) = ok a
  service_error (err (sub x)) = err x
  service_error (err (other s)) = err (Error.input s)
  service_error panic = panic

  -- `hwbench` is printed, and sent if there is telemetry.
  abbrev pub report_hwbench : Option Handle → Option Handle → Run Unit
  report_hwbench none telemetry = pure tt
  report_hwbench (some hwbench) none = emit hwbench_printed
  report_hwbench (some hwbench) (some telemetry) =
      emit hwbench_printed >> emit hwbench_telemetry_spawned

  unfoldable pub prepare : Configuration → Configuration → Handle → ℕ → Option Handle → Run Prepared
  unfolding new_partial
  prepare parachain_config polkadot_config collator_options para_id hwbench = do
    let config = p.prepare_node_config parachain_config
    params ← new_partial config
    (relay_chain_interface, collator_key) ← done relay_chain_interface_built (
        service_error (
          p.build_relay_chain_interface polkadot_config config params.telemetry_worker_handle
            collator_options hwbench))
    network ← done network_built (
        p.build_network (record {
          config = config;
          client = params.parts.client;
          transaction_pool = params.transaction_pool;
          import_queue = params.import_queue;
          block_announce_validator = (relay_chain_interface, para_id);
        }))
    (if config.offchain_worker_enabled then emit offchain_workers_built else pure tt)
    done tasks_spawned (
        p.spawn_tasks (record {
          client = params.parts.client;
          transaction_pool = params.transaction_pool;
          config = config;
          keystore = params.parts.keystore_container;
          backend = params.parts.backend;
          network = network;
          telemetry = params.telemetry;
        }))
    report_hwbench hwbench params.telemetry
    pure (record {
      config = config;
      params = params;
      relay_chain_interface = relay_chain_interface;
      collator_key = collator_key;
      network = network;
    })

  abbrev pub relay_chain_slot_duration : ℕ
  relay_chain_slot_duration = 6

  -- `expect`
  abbrev pub expect : {A : Type 0} → Option A → Run A
  expect none = lift panic
  expect (some a) = pure a

  unfoldable pub collate : Prepared → ℕ → Run Unit
  unfolding build_consensus
  collate ready para_id = do
    parachain_consensus ←
        build_consensus ready.params ready.relay_chain_interface ready.network
          ready.config.force_authoring para_id
    collator_key ← expect ready.collator_key
    let params : StartCollatorParams = record {
      para_id = para_id;
      client = ready.params.parts.client;
      relay_chain_interface = ready.relay_chain_interface;
      parachain_consensus = parachain_consensus;
      import_queue = ready.params.import_queue;
      collator_key = collator_key;
      relay_chain_slot_duration = relay_chain_slot_duration;
    }
    done (collator_started params) (p.start_collator params)

  unfoldable pub follow : Prepared → ℕ → Run Unit
  follow ready para_id =
      let params : StartFullNodeParams = record {
        para_id = para_id;
        client = ready.params.parts.client;
        relay_chain_interface = ready.relay_chain_interface;
        import_queue = ready.params.import_queue;
        relay_chain_slot_duration = relay_chain_slot_duration;
      } in
      done (full_node_started params) (p.start_full_node params)

  unfoldable pub start_node_impl :
      Configuration → Configuration → Handle → ℕ → Option Handle → Run (Handle × Handle)
  unfolding prepare collate follow
  start_node_impl parachain_config polkadot_config collator_options para_id hwbench = do
    let validator = (p.prepare_node_config parachain_config).is_authority
    ready ← prepare parachain_config polkadot_config collator_options para_id hwbench
    (if validator then collate ready para_id else follow ready para_id)
    emit network_started
    pure (ready.params.parts.task_manager, ready.params.parts.client)

  abbrev pub start_parachain_node :
      Configuration → Configuration → Handle → ℕ → Option Handle → Run (Handle × Handle)
  start_parachain_node parachain_config polkadot_config collator_options para_id hwbench =
      start_node_impl parachain_config polkadot_config collator_options para_id hwbench
