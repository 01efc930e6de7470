-- ===== src/ParaOracle/State.antt =====
-- The types, storage and parameters of pallets/para-oracle/src/lib.rs. `NextUnsignedAt` is read and
-- never written.
use paraxiom.Prelude.{
  ℕ, suc, ◌≡◌, ◌<◌, Bool, true, false, ◌↔◌, Option, some, List, ◌∷◌, ◌++◌, arith, Eq, nat_beq,
  nat_beq_iff, list_eq, pair_eq, nat_eq, if◌then◌else◌, ◌==◌, All,
}
use paraxiom.Prelude.Int.{ℤ}
use paraxiom.Frame.{Bytes, AccountId}
use paraxiom.Storage.{StorageMap, get}
use paraxiom.ParaOracle.Combine.{TimestampedValue}

-- An account, or a parachain.
pub data CreatorId : Type 0 where
  account_id : AccountId → CreatorId
  para_id : ℕ → CreatorId

-- The derived `PartialEq` of `CreatorId`.
abbrev pub creator_beq : CreatorId → CreatorId → Bool
creator_beq (account_id a) (account_id b) = nat_beq a b
creator_beq (para_id a) (para_id b) = nat_beq a b
creator_beq _ _ = false

pub creator_beq_iff : (a b : CreatorId) → (creator_beq a b ≡ true) ↔ (a ≡ b)
creator_beq_iff (account_id a) (account_id b) = ground (arith, nat_beq_iff a b)
creator_beq_iff (para_id a) (para_id b) = ground (arith, nat_beq_iff a b)
creator_beq_iff (account_id a) (para_id b) = ground arith
creator_beq_iff (para_id a) (account_id b) = ground arith

instance abbrev pub creator_eq : Eq CreatorId
creator_eq = record { beq = creator_beq; beq_iff = creator_beq_iff }

pub record ApiFeed : Type 0 where
  pub requested_block_number : ℕ
  pub url : Option Bytes
  pub vpath : Option Bytes

-- The events that the pallet deposits.
pub data Event : Type 0 where
  new_feed_data : CreatorId → List (Bytes × ℤ) → Event
  new_api_feed api_feed_removed : CreatorId → Bytes → ApiFeed → Event

-- `OrderedSet` of orml-utilities, bounded: `insert` tells whether it has inserted, which it does not
-- if the element is there or the set is full.
pub record OrderedSet : Type 1 where
  pub Carrier : Type 0
  pub default : Carrier
  pub contains : Carrier → CreatorId → Bool
  pub len : Carrier → ℕ
  pub max_len : ℕ
  pub insert : CreatorId → Carrier → Bool × Carrier
  pub contains-default : (c : CreatorId) → contains default c ≡ false
  pub len-default : len default ≡ 0
  pub insert_new :
      (c : CreatorId) (s : Carrier) → contains s c ≡ false → len s < max_len → (insert c s).0 ≡ true
  pub insert_only : (c : CreatorId) (s : Carrier) → (insert c s).0 ≡ true → contains s c ≡ false
  pub contains-insert :
      (c d : CreatorId) (s : Carrier)
      → (insert c s).0 ≡ true
      → contains (insert c s).1 d ≡ (if c == d then true else contains s d)
  pub len-insert :
      (c : CreatorId) (s : Carrier) → (insert c s).0 ≡ true → len (insert c s).1 ≡ suc (len s)
  pub insert_refused : (c : CreatorId) (s : Carrier) → (insert c s).0 ≡ false → (insert c s).1 ≡ s

-- `MaxHasDispatchedSize` with its set, `CombineData`, `XcmSender` and SCALE. `send_xcm` gets the
-- parachain and the encoded call, and tells whether the message is sent; `iter` lists a storage map
-- in the order of its hashed keys: what is stored, and all of it.
pub record Config : Type 1 where
  pub set : OrderedSet
  pub combine_data :
      ℕ → Bytes → List TimestampedValue → Option TimestampedValue → Option TimestampedValue
  pub encode_feed_back : Bytes → ℤ → Bytes
  pub send_xcm : ℕ → Bytes → Bool
  pub iter_raw_values :
      StorageMap (CreatorId × Bytes) TimestampedValue
      → List ((CreatorId × Bytes) × TimestampedValue)
  pub iter_raw_values-get :
      (m : StorageMap (CreatorId × Bytes) TimestampedValue)
      → All (λ x. get m x.0 ≡ some x.1) (iter_raw_values m)
  pub iter_api_feeds : StorageMap (CreatorId × Bytes) ApiFeed → List ((CreatorId × Bytes) × ApiFeed)
  pub iter_api_feeds-split :
      (m : StorageMap (CreatorId × Bytes) ApiFeed) (c : CreatorId) (key : Bytes) (feed : ApiFeed)
      → get m (c, key) ≡ some feed
      → (before : List ((CreatorId × Bytes) × ApiFeed)) × (behind : List
          ((CreatorId × Bytes) × ApiFeed))
        × (iter_api_feeds m ≡ before ++ ((c, key), feed) ∷ behind)

-- The pallet's storage, and the events that it has deposited, the oldest first.
pub record ParaOracle (C : Type 0) : Type 0 where
  pub next_unsigned_at : ℕ
  pub api_feeds : StorageMap (CreatorId × Bytes) ApiFeed
  pub raw_values : StorageMap (CreatorId × Bytes) TimestampedValue
  pub values : StorageMap Bytes TimestampedValue
  pub has_dispatched : C
  pub events : List Event

-- The block in which a call is made, and `UnixTime::now().as_millis()` there.
pub record Block : Type 0 where
  pub block_number : ℕ
  pub now : ℕ
