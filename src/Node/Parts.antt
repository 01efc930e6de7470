-- ===== src/Node/Parts.antt =====
-- What node/src/service.rs handles: configurations, components, and the functions of the packages.
use paraxiom.Prelude.{ℕ, String, Bool, Option, List}
use paraxiom.Attempt.{Attempt}
use paraxiom.Node.ChainSpec.{ChainSpec}
use paraxiom.Node.Base.{Error, Handle, StartCollatorParams, StartFullNodeParams}

-- What the program reads of a `Configuration`.
pub record Configuration : Type 0 where
  pub chain_spec : ChainSpec
  pub telemetry_endpoints : Option (List String)
  pub is_authority : Bool
  pub offchain_worker_enabled : Bool
  pub force_authoring : Bool
  pub base_path : Option String
  pub database : Handle
  pub database_path : Option String
  pub network : Handle

pub data RelayChainError : Type 0 where
  sub : Error → RelayChainError
  other : String → RelayChainError

pub record FullParts : Type 0 where
  pub client : Handle
  pub backend : Handle
  pub keystore_container : Handle
  pub task_manager : Handle

pub record PartialComponents : Type 0 where
  pub parts : FullParts
  pub import_queue : Handle
  pub transaction_pool : Handle
  pub block_import : Handle
  pub telemetry : Option Handle
  pub telemetry_worker_handle : Option Handle

pub record ImportQueueParams : Type 0 where
  pub block_import : Handle
  pub client : Handle
  pub create_inherent_data_providers : ℕ → ℕ × ℕ
  pub telemetry : Option Handle

pub record BuildAuraConsensusParams : Type 0 where
  pub client : Handle
  pub transaction_pool : Handle
  pub block_import : Handle
  pub sync_oracle : Handle
  pub keystore : Handle
  pub force_authoring : Bool
  pub slot_duration : ℕ
  pub create_inherent_data_providers : ℕ → Handle → Handle → Attempt Error (ℕ × ℕ × Handle)
  pub telemetry : Option Handle

pub record BuildNetworkParams : Type 0 where
  pub config : Configuration
  pub client : Handle
  pub transaction_pool : Handle
  pub import_queue : Handle
  pub block_announce_validator : Handle × ℕ

pub record SpawnTasksParams : Type 0 where
  pub client : Handle
  pub transaction_pool : Handle
  pub config : Configuration
  pub keystore : Handle
  pub backend : Handle
  pub network : Handle
  pub telemetry : Option Handle

-- The packages: Substrate's and Cumulus's functions that the service calls, under their names.
pub record Packages : Type 0 where
  pub prepare_node_config : Configuration → Configuration
  pub new_telemetry : List String → Attempt Error (Handle × Handle)
  pub new_full_parts : Configuration → Option Handle → Attempt Error FullParts
  pub new_full_pool : Configuration → Handle → Handle
  pub new_block_import : Handle → Handle → Handle
  pub slot_duration : Handle → Attempt Error ℕ
  pub from_timestamp_and_slot_duration : ℕ → ℕ → ℕ
  pub import_queue : ImportQueueParams → Attempt Error Handle
  pub build_relay_chain_interface :
      Configuration
      → Configuration
      → Option Handle
      → Handle
      → Option Handle
      → Attempt RelayChainError (Handle × Option Handle)
  pub build_network : BuildNetworkParams → Attempt Error Handle
  pub spawn_tasks : SpawnTasksParams → Attempt Error Unit
  pub create_at : Handle → Handle → Handle → ℕ → Option Handle
  pub build_aura : BuildAuraConsensusParams → Handle
  pub start_collator : StartCollatorParams → Attempt Error Unit
  pub start_full_node : StartFullNodeParams → Attempt Error Unit
