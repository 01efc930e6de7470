-- ===== src/Node/Relay.antt =====
-- node/src/command.rs: what the relay chain's command line, `RelayChainCli`, answers when the node asks
-- it for the relay chain's configuration. `answers` stands for the package's own command line.
use paraxiom.Prelude.{
  ℕ, String, Bool, false, Option, none, List, ◌≡◌, refl, ap, ◌∙◌, arith, string_eq, ◌==◌,
}
use paraxiom.Attempt.{Attempt, ok, panic}
use paraxiom.Node.Base.{Error, Handle}
use paraxiom.Node.ChainSpec.{ChainSpec}
use paraxiom.Node.Parts.{Configuration}
use paraxiom.Node.Cli.{Packages, RelayChainCli}
use paraxiom.Node.Command
use mathlib.Core.Path.{fun_ext}

-- `CliConfiguration`
pub record CliConfiguration : Type 0 where
  pub shared_params : Handle
  pub import_params : Option Handle
  pub network_params : Option Handle
  pub keystore_params : Option Handle
  pub base_path : Attempt Error (Option String)
  pub rpc_http : ℕ → Attempt Error (Option Handle)
  pub rpc_ipc : Attempt Error (Option String)
  pub rpc_ws : ℕ → Attempt Error (Option Handle)
  pub prometheus_config : ℕ → ChainSpec → Attempt Error (Option Handle)
  pub init : Attempt Error Unit
  pub chain_id : Bool → Attempt Error String
  pub role : Bool → Attempt Error Handle
  pub transaction_pool : Bool → Attempt Error Handle
  pub trie_cache_maximum_size : Attempt Error (Option ℕ)
  pub rpc_methods : Attempt Error Handle
  pub rpc_ws_max_connections : Attempt Error (Option ℕ)
  pub rpc_cors : Bool → Attempt Error (Option (List String))
  pub default_heap_pages : Attempt Error (Option ℕ)
  pub force_authoring : Attempt Error Bool
  pub disable_grandpa : Attempt Error Bool
  pub max_runtime_instances : Attempt Error (Option ℕ)
  pub announce_block : Attempt Error Bool
  pub telemetry_endpoints : ChainSpec → Attempt Error (Option Handle)
  pub node_name : Attempt Error String

-- `DefaultConfigurationValues`
abbrev pub p2p_listen_port : ℕ
p2p_listen_port = 30334

abbrev pub rpc_ws_listen_port : ℕ
rpc_ws_listen_port = 9945

abbrev pub rpc_http_listen_port : ℕ
rpc_http_listen_port = 9934

abbrev pub prometheus_listen_port : ℕ
prometheus_listen_port = 9616

-- All is what the package's command line answers, but for the base path, the chain id, and `init`, which
-- is `unreachable!`.
unfoldable pub forwarded :
    CliConfiguration
    → Attempt Error (Option String)
    → (Bool → Attempt Error String)
    → CliConfiguration
forwarded base path id = record {
  shared_params = base.shared_params;
  import_params = base.import_params;
  network_params = base.network_params;
  keystore_params = base.keystore_params;
  base_path = path;
  rpc_http = λ default_listen_port. base.rpc_http default_listen_port;
  rpc_ipc = base.rpc_ipc;
  rpc_ws = λ default_listen_port. base.rpc_ws default_listen_port;
  prometheus_config =
      λ default_listen_port chain_spec. base.prometheus_config default_listen_port chain_spec;
  init = panic;
  chain_id = id;
  role = λ is_dev. base.role is_dev;
  transaction_pool = λ is_dev. base.transaction_pool is_dev;
  trie_cache_maximum_size = base.trie_cache_maximum_size;
  rpc_methods = base.rpc_methods;
  rpc_ws_max_connections = base.rpc_ws_max_connections;
  rpc_cors = λ is_dev. base.rpc_cors is_dev;
  default_heap_pages = base.default_heap_pages;
  force_authoring = base.force_authoring;
  disable_grandpa = base.disable_grandpa;
  max_runtime_instances = base.max_runtime_instances;
  announce_block = base.announce_block;
  telemetry_endpoints = λ chain_spec. base.telemetry_endpoints chain_spec;
  node_name = base.node_name;
}

-- The command line itself names a chain, unless it fails.
abbrev pub NamesChain : Attempt Error String → Type 0
NamesChain (ok id) = (id == "") ≡ false
NamesChain _ = Unit

-- It has a base path of its own, unless it fails.
abbrev pub HasPath : Attempt Error (Option String) → Type 0
HasPath (ok none) = ⊥
HasPath _ = Unit

module _ (p : Packages) (answers : Handle → CliConfiguration) where
  unfoldable pub configuration : RelayChainCli → CliConfiguration
  unfolding forwarded
  configuration cli =
      forwarded (answers cli.base) (Command.base_path p cli) (Command.chain_id p cli)

  chain_id_own :
      (cli other : RelayChainCli) (is_dev : Bool)
      → cli.base ≡ other.base
      → NamesChain (p.base_chain_id cli.base is_dev)
      → Command.chain_id p cli is_dev ≡ Command.chain_id p other is_dev
  unfolding Command.chain_id
  chain_id_own cli other is_dev same named = ground arith

  base_path_own :
      (cli other : RelayChainCli)
      → cli.base ≡ other.base
      → HasPath (p.base_base_path cli.base)
      → Command.base_path p cli ≡ Command.base_path p other
  unfolding Command.base_path
  base_path_own cli other same own = ground arith

  new_chain_id :
      (config config' : Configuration) (args : List String)
      → ((is_dev : Bool) → NamesChain (p.base_chain_id (p.parse_from args) is_dev))
      → Command.chain_id p (Command.new p config args)
        ≡ Command.chain_id p (Command.new p config' args)
  unfolding Command.new
  new_chain_id config config' args named = fun_ext (λ is_dev.
      chain_id_own (Command.new p config args) (Command.new p config' args) is_dev refl
        (named is_dev))

  -- Where the arguments behind `--` name a chain and a base path, or asking for these fails, the
  -- relay chain's configuration is the same whatever the parachain's is.
  pub configuration-new :
      (config config' : Configuration) (args : List String)
      → ((is_dev : Bool) → NamesChain (p.base_chain_id (p.parse_from args) is_dev))
      → HasPath (p.base_base_path (p.parse_from args))
      → configuration (Command.new p config args) ≡ configuration (Command.new p config' args)
  unfolding configuration Command.new
  configuration-new config config' args named own =
      ap
        (λ path.
          forwarded (answers (p.parse_from args)) path
            (Command.chain_id p (Command.new p config args)))
        (base_path_own (Command.new p config args) (Command.new p config' args) refl own)
      ∙ ap
          (λ id.
            forwarded (answers (p.parse_from args))
              (Command.base_path p (Command.new p config' args)) id)
          (new_chain_id config config' args named)
