-- ===== src/Node/ChainSpec.antt =====
-- node/src/chain_spec.rs: the specifications of the chain and their genesis configurations. Building a
-- genesis fails by panics alone (`expect`), so that `none` stands for a panic.
use paraxiom.Prelude.{ℕ, ◌*◌, ◌^◌, ◌<>◌, String, Option, none, some, List, [], ◌∷◌, map}
use paraxiom.Frame.{Bytes, AccountId}
use paraxiom.Runtime.Constants.{existential_deposit}

-- An `expect` that panics ends the function.
infixl 5 ◌>>=◌
abbrev pub ◌>>=◌ : {A B : Type 0} → Option A → (A → Option B) → Option B
◌>>=◌ none f = none
◌>>=◌ (some a) f = f a

-- The kinds of keys that the specifications draw from seeds.
pub data Scheme : Type 0 where
  sr25519 aura : Scheme

-- The packages: key pairs from strings (the public key, if the string is valid), accounts of public
-- keys, the runtime's code if it was built, and the XCM version.
pub record Packages : Type 0 where
  pub from_string : Scheme → String → Option ℕ
  pub into_account : ℕ → AccountId
  pub wasm_binary : Option Bytes
  pub xcm_version : ℕ

pub record SessionKeys : Type 0 where
  pub aura : ℕ

-- `GenesisConfig`, without the parts that are defaults of their pallets.
pub record GenesisConfig : Type 0 where
  pub code : Bytes
  pub balances : List (AccountId × ℕ)
  pub parachain_id : ℕ
  pub invulnerables : List AccountId
  pub candidacy_bond : ℕ
  pub keys : List (AccountId × AccountId × SessionKeys)
  pub safe_xcm_version : Option ℕ

pub record Extensions : Type 0 where
  pub relay_chain : String
  pub para_id : ℕ

pub data ChainType : Type 0 where
  development local : ChainType

pub data Property : Type 0 where
  text : String → Property
  number : ℕ → Property

-- What `ChainSpec::from_genesis` is given; `get_extension` finds the extensions of a specification of
-- this program, and need not in another.
pub record ChainSpec : Type 0 where
  pub name : String
  pub id : String
  pub chain_type : ChainType
  pub genesis : Option GenesisConfig
  pub boot_nodes : List String
  pub telemetry_endpoints : Option (List String)
  pub protocol_id : Option String
  pub fork_id : Option String
  pub properties : Option (List (String × Property))
  pub extensions : Option Extensions

-- `Extensions::try_get`
abbrev pub try_get : ChainSpec → Option Extensions
try_get spec = spec.extensions

abbrev pub initial_balance : ℕ
initial_balance = 2 ^ 60

abbrev pub paraxiom_session_keys : ℕ → SessionKeys
paraxiom_session_keys keys = record { aura = keys }

abbrev pub all_of : {A : Type 0} → (String → Option A) → List String → Option (List A)
all_of f [] = some []
all_of f (seed ∷ seeds) = do a ← f seed; rest ← all_of f seeds; some (a ∷ rest)

abbrev pub collator_seeds : List String
collator_seeds = "Alice" ∷ "Bob" ∷ []

abbrev pub endowed_seeds : List String
endowed_seeds =
    "Alice" ∷ "Bob" ∷ "Charlie" ∷ "Dave" ∷ "Eve" ∷ "Ferdie" ∷ "Alice//stash" ∷ "Bob//stash"
    ∷ "Charlie//stash" ∷ "Dave//stash" ∷ "Eve//stash" ∷ "Ferdie//stash" ∷ []

abbrev pub extensions_of_network : Extensions
extensions_of_network = record { relay_chain = "rococo-local"; para_id = 1000 }

abbrev pub token_properties : List (String × Property)
token_properties =
    ("tokenSymbol", text "UNIT") ∷ ("tokenDecimals", number 12) ∷ ("ss58Format", number 42) ∷ []

module _ (p : Packages) where
  abbrev pub get_from_seed : Scheme → String → Option ℕ
  get_from_seed scheme seed = p.from_string scheme ("//" <> seed)

  abbrev pub get_collator_keys_from_seed : String → Option ℕ
  get_collator_keys_from_seed seed = get_from_seed aura seed

  abbrev pub get_account_id_from_seed : String → Option AccountId
  get_account_id_from_seed seed = do
    public ← get_from_seed sr25519 seed
    some (p.into_account public)

  unfoldable pub testnet_genesis : List (AccountId × ℕ) → List AccountId → ℕ → Option GenesisConfig
  testnet_genesis invulnerables endowed_accounts id = do
    code ← p.wasm_binary
    some (record {
      code = code;
      balances = map (λ k. (k, initial_balance)) endowed_accounts;
      parachain_id = id;
      invulnerables = map (λ (acc, _). acc) invulnerables;
      candidacy_bond = existential_deposit * 16;
      keys = map (λ (acc, key). (acc, acc, paraxiom_session_keys key)) invulnerables;
      safe_xcm_version = some p.xcm_version;
    })

  -- The initial collators of both specifications.
  abbrev pub collator : String → Option (AccountId × ℕ)
  collator seed = do
    account ← get_account_id_from_seed seed
    keys ← get_collator_keys_from_seed seed
    some (account, keys)

  -- The closure that both specifications pass as their genesis.
  unfoldable pub seeded_genesis : Option GenesisConfig
  unfolding testnet_genesis
  seeded_genesis = do
    collators ← all_of collator collator_seeds
    endowed ← all_of get_account_id_from_seed endowed_seeds
    testnet_genesis collators endowed 1000

  -- Its properties are built and not passed on.
  unfoldable pub development_config : ChainSpec
  development_config = record {
    name = "Development";
    id = "dev";
    chain_type = development;
    genesis = seeded_genesis;
    boot_nodes = [];
    telemetry_endpoints = none;
    protocol_id = none;
    fork_id = none;
    properties = none;
    extensions = some extensions_of_network;
  }

  unfoldable pub local_testnet_config : ChainSpec
  local_testnet_config = record {
    name = "Local Testnet";
    id = "local_testnet";
    chain_type = local;
    genesis = seeded_genesis;
    boot_nodes = [];
    telemetry_endpoints = none;
    protocol_id = some "paraxiom-local";
    fork_id = none;
    properties = some token_properties;
    extensions = some extensions_of_network;
  }
