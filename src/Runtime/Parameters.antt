-- ===== src/Runtime/Parameters.antt =====
-- runtime/paraxiom/src/lib.rs: the deposit for storage, the version, and the parameters that the runtime gives
-- its other pallets.
use paraxiom.Prelude.{ℕ, ◌+◌, ◌*◌, ◌/◌, ◌^◌, ◌<◌, ◌≡◌, String, arith}
use paraxiom.Runtime.Constants.{hours, days, unit, milliunit, dollars}

-- The balance for keeping items and bytes in storage.
unfoldable pub deposit : ℕ → ℕ → ℕ
deposit items bytes = (items * unit + bytes * (5 * milliunit / 100)) / 10

-- Deposits add up, without loss by rounding.
pub deposit-add : (i j b c : ℕ) → deposit (i + j) (b + c) ≡ deposit i b + deposit j c
unfolding deposit
deposit-add i j b c = omega arith

-- A deposit for `u32` numbers of items and bytes is an `u128`, and so is every step to it.
pub deposit-fits :
    (i b : ℕ)
    → i < 2 ^ 32
    → b < 2 ^ 32
    → (i * unit + b * (5 * milliunit / 100) < 2 ^ 128) × (deposit i b < 2 ^ 128)
unfolding deposit
deposit-fits i b hi hb = (omega (arith, hi, hb), omega (arith, hi, hb))

-- `RuntimeVersion`, but for the APIs
pub record RuntimeVersion : Type 0 where
  pub spec_name : String
  pub impl_name : String
  pub authoring_version : ℕ
  pub spec_version : ℕ
  pub impl_version : ℕ
  pub transaction_version : ℕ
  pub state_version : ℕ

abbrev pub version : RuntimeVersion
version = record {
  spec_name = "paraxiom-parachain";
  impl_name = "paraxiom-parachain";
  authoring_version = 1;
  spec_version = 1;
  impl_version = 0;
  transaction_version = 1;
  state_version = 1;
}

-- The assets pallet: what it takes in deposit.
abbrev pub asset_deposit : ℕ
asset_deposit = 100 * dollars

abbrev pub approval_deposit : ℕ
approval_deposit = dollars

abbrev pub metadata_deposit_base : ℕ
metadata_deposit_base = 10 * dollars

abbrev pub metadata_deposit_per_byte : ℕ
metadata_deposit_per_byte = dollars

-- The contracts and the preimage pallet.
abbrev pub deposit_per_item : ℕ
deposit_per_item = deposit 1 0

abbrev pub deposit_per_byte : ℕ
deposit_per_byte = deposit 0 1

abbrev pub preimage_base_deposit : ℕ
preimage_base_deposit = deposit 2 64

abbrev pub preimage_byte_deposit : ℕ
preimage_byte_deposit = deposit 0 1

-- Sessions, in blocks.
abbrev pub period : ℕ
period = 6 * hours

abbrev pub offset : ℕ
offset = 0

abbrev pub session_length : ℕ
session_length = 6 * hours

-- The democracy pallet.
abbrev pub launch_period : ℕ
launch_period = 28 * days

abbrev pub voting_period : ℕ
voting_period = 28 * days

abbrev pub fast_track_voting_period : ℕ
fast_track_voting_period = 3 * days

abbrev pub minimum_deposit : ℕ
minimum_deposit = 100 * unit

abbrev pub enactment_period : ℕ
enactment_period = 30 * days

abbrev pub cooloff_period : ℕ
cooloff_period = 28 * days

-- A preimage's deposit is what the contracts pallet takes for as many items and bytes.
pub preimage_base_deposit-deposit_per_byte :
    preimage_base_deposit ≡ 2 * deposit_per_item + 64 * deposit_per_byte
unfolding deposit
preimage_base_deposit-deposit_per_byte = omega arith
