-- ===== src/Anchor/State.antt =====
-- The types, storage and parameters of pallets/offchain-rollup/src/{types,anchor}.rs.
use paraxiom.Prelude.{ℕ, ◌^◌, ◌<◌, ◌≡◌, Option, some, List, [], length}
use paraxiom.Frame.{Bytes, H256, AccountId}
use paraxiom.Storage.{StorageMap, empty}

-- `Cond::Eq(key, opt_value)`
pub data Cond : Type 0 where
  eq : Bytes → Option Bytes → Cond

pub data Action : Type 0 where
  reply : Bytes → Action
  set_queue_head : ℕ → Action

pub record RollupTx : Type 0 where
  pub conds : List Cond
  pub actions : List Bytes
  pub updates : List (Bytes × Option Bytes)

pub data Event : Type 0 where
  name_claimed : AccountId → H256 → Event
  rollup_executed : AccountId → H256 → ℕ → Event

-- The pallet's storage, and the events that it has deposited, the oldest first.
pub record Anchor : Type 0 where
  pub submitter_by_names : StorageMap H256 AccountId
  pub states : StorageMap (H256 × Bytes) Bytes
  pub events : List Event

abbrev pub genesis : Anchor
genesis = record { submitter_by_names = empty; states = empty; events = [] }

-- What the queue is indexed by: a position (`u32`), or a label (`&[u8; 5]`).
pub data Index : Type 0 where
  at : ℕ → Index
  label : Bytes → Index

abbrev pub u32_mod : ℕ
u32_mod = 2 ^ 32

-- The SCALE codec, a package that the pallet uses: a `u32` takes four bytes and is read back, an
-- array of bytes is written as it stands.
pub record Codec : Type 0 where
  pub encode_u32 : ℕ → Bytes
  pub decode_u32 : Bytes → Option ℕ
  pub encode_array : Bytes → Bytes
  pub decode_action : Bytes → Option Action
  pub length-encode_u32 : (n : ℕ) → length (encode_u32 n) ≡ 4
  pub decode-encode_u32 : (n : ℕ) → n < u32_mod → decode_u32 (encode_u32 n) ≡ some n
  pub encode_array_lem : (bytes : Bytes) → encode_array bytes ≡ bytes

-- `QueuePrefix` and `QueueCapacity` of `Config`, with the codec.
pub record Config : Type 0 where
  pub codec : Codec
  pub queue_prefix : Bytes
  pub queue_capacity : ℕ
