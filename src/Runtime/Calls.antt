-- ===== src/Runtime/Calls.antt =====
-- The calls of the runtime's three pallets (`construct_runtime!`), by their functions' names.
use paraxiom.Prelude.{ℕ}
use paraxiom.Frame.{Bytes, H256}
use paraxiom.Anchor.State.{RollupTx}

pub data Call : Type 0 where
  claim_name : H256 → Call
  rollup : H256 → RollupTx → ℕ → Call
  register_feed : Bytes → Bytes → Bytes → Call
  unregister_feed : Bytes → Call
  request : Bytes → ℕ → Call
  feeds : H256 → Bytes → ℕ → Call
  average : Call
