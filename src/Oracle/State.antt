-- ===== src/Oracle/State.antt =====
-- The types and storage of pallets/oracle/src/{types,lib}.rs, and what the pallet uses of FRAME.
-- `PriceFeeds` and `Averages` are declared there and never used.
use paraxiom.Prelude.{
  ℕ, ◌≡◌, ◌≢◌, Bool, ◌&&◌, ◌↔◌, true, Option, none, some, List, [], arith, Eq, ◌==◌, list_beq,
  nat_eq, list_eq, pair_eq, nat_beq_iff,
}
use paraxiom.Frame.{Bytes, H256, AccountId, bytes_beq_iff}
use paraxiom.Storage.{StorageMap, get, empty}
use paraxiom.Registry.{Registry}

pub record Request : Type 0 where
  pub registry_feed_key : Bytes
  pub caller : AccountId
  pub nonce : ℕ
  pub requested_data : Bytes

pub record ResponseRecord : Type 0 where
  pub owner : AccountId
  pub phat_contract_id : H256
  pub request_id : H256
  pub response_data : Bytes
  pub timestamp_ms : ℕ

-- The derived `PartialEq` of `Request`.
abbrev pub request_beq : Request → Request → Bool
request_beq a b =
    list_beq a.registry_feed_key b.registry_feed_key
    && (a.caller == b.caller && (a.nonce == b.nonce && list_beq a.requested_data b.requested_data))

pub request_beq_iff : (a b : Request) → (request_beq a b ≡ true) ↔ (a ≡ b)
request_beq_iff a b = ground (
  arith,
  bytes_beq_iff a.registry_feed_key b.registry_feed_key,
  nat_beq_iff a.caller b.caller,
  nat_beq_iff a.nonce b.nonce,
  bytes_beq_iff a.requested_data b.requested_data,
)

instance abbrev pub request_eq : Eq Request
request_eq = record { beq = request_beq; beq_iff = request_beq_iff }

-- The event `QuoteReceived` is declared and never deposited.
pub data Event : Type 0 where
  response_record_received : AccountId → H256 → H256 → Bytes → ℕ → Event
  oracle_request : AccountId → H256 → Bytes → Event

pub record Oracle : Type 0 where
  pub feed_data : StorageMap (AccountId × Request) Bytes
  pub feed_requests : StorageMap H256 Request
  pub events : List Event

abbrev pub genesis : Oracle
genesis = record { feed_data = empty; feed_requests = empty; events = [] }

-- The pallets beside the anchor that a request or a response touches.
pub record Backend : Type 0 where
  pub registry : Registry
  pub oracle : Oracle

-- What the pallet calls in a block: the randomness pallet, SCALE, and the iteration of a storage map,
-- whose last key is some key that the map holds.
pub record Env : Type 0 where
  pub block_number : ℕ
  pub encoded_random_seed : Bytes
  pub random : Bytes → H256
  pub encode_request : H256 → Bytes → Bytes → Bytes
  pub decode_response : Bytes → Option ResponseRecord
  pub last_key : StorageMap H256 AccountId → Option H256
  pub last_key_none :
      (m : StorageMap H256 AccountId) (k : H256) → last_key m ≡ none → get m k ≡ none
  pub last_key_some :
      (m : StorageMap H256 AccountId) (k : H256) → last_key m ≡ some k → get m k ≢ none
