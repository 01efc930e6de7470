-- ===== src/Runtime.antt =====
-- runtime/paraxiom/src/lib.rs: the anchor, the registry and the oracle put together, with the
-- constants that the runtime chooses for them.
pub mod Constants
pub mod Calls
pub mod Fees
pub mod Weights
pub mod Inherents
pub mod Parameters
pub mod Xcm
pub mod Barrier
pub mod Reachable
pub mod Feeds
pub mod Quiet
pub mod Panics
use Calls.{Call}
use paraxiom.Prelude.{ℕ, List, [], ◌∷◌}
use paraxiom.Frame.{Bytes, H256, Origin, Exec, transactional}
use paraxiom.Anchor.State.{Config, Codec, RollupTx}
use paraxiom.Anchor.State as Anchor
use paraxiom.Anchor.Rollup.{Node, on_anchor, on_app, claim_name, rollup}
use paraxiom.Registry.{Registry, register_feed, unregister_feed}
use paraxiom.Registry as Registry
use paraxiom.Oracle.State.{Backend, Env}
use paraxiom.Oracle.State as Oracle
use paraxiom.Oracle.Calls.{request, feeds, average, on_response}

-- `QueuePrefix` is "_queue/" and `QueueCapacity` is 128.
abbrev pub runtime_config : Codec → Config
runtime_config codec = record {
  codec = codec;
  queue_prefix = b'_' ∷ b'q' ∷ b'u' ∷ b'e' ∷ b'u' ∷ b'e' ∷ b'/' ∷ [];
  queue_capacity = 128;
}

abbrev on_registry : {A : Type 0} → Exec Registry A → Exec (Node Backend) A
on_registry m = on_app (λ b. let (r, s) = m b.registry in (r, record b { registry = s }))

-- The pallet's function for a call. The anchor hands replies to the oracle (`OnResponse`).
abbrev call : Codec → Env → Origin → Call → Exec (Node Backend) Unit
call codec env origin (Call.claim_name name) = on_anchor (claim_name origin name)
call codec env origin (Call.rollup name tx nonce) =
    rollup (runtime_config codec) (on_response env) origin name tx nonce
call codec env origin (Call.register_feed key url path) =
    on_registry (register_feed env.block_number origin key url path)
call codec env origin (Call.unregister_feed key) = on_registry (unregister_feed origin key)
call codec env origin (Call.request key nonce) = request (runtime_config codec) env origin key nonce
call codec env origin (Call.feeds name payload nonce) = feeds origin name payload nonce
call codec env origin Call.average = average origin

-- FRAME runs each call in a storage layer.
unfoldable pub dispatch : Codec → Env → Origin → Call → Exec (Node Backend) Unit
dispatch codec env origin c = transactional (call codec env origin c)

abbrev pub genesis : Node Backend
genesis = record {
  pallet = Anchor.genesis;
  app = record { registry = Registry.genesis; oracle = Oracle.genesis };
}

-- The states that calls lead to, in any blocks, by any origins.
pub data Reach (codec : Codec) : Node Backend → Type 0 where
  start : Reach codec genesis
  next :
      {n : Node Backend} (env : Env) (origin : Origin) (c : Call)
      → Reach codec n
      → Reach codec (dispatch codec env origin c n).1
