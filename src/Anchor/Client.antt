-- ===== src/Anchor/Client.antt =====
-- The client of the anchor in pallets/offchain-rollup/src/anchor.rs, `queue_e2e`: a snapshot of a
-- name's store, the versions of its keys, and the transaction that a session is turned into. The
-- session itself and its rollup are a package's; `rolled` stands for `pink_kv_session::rollup::rollup`.
use paraxiom.Prelude.{
  ℕ, ◌+◌, ◌%◌, Bool, Option, none, some, List, [], ◌∷◌, length, leb, take, if◌then◌else◌, map,
  list_eq, nat_eq, pair_eq,
}
use paraxiom.Frame.{Bytes, H256}
use paraxiom.Attempt.{Attempt, ok, err, panic, and_then}
use paraxiom.Storage.{get}
use paraxiom.Anchor.State.{Anchor, Codec, Cond, eq, Action, set_queue_head, RollupTx, u32_mod}
use paraxiom.Anchor.Queue.{max_key_bytes, max_value_bytes}

abbrev pub max_action_bytes : ℕ
max_action_bytes = 256

-- What the package makes of a session.
pub record KvRollup : Type 0 where
  pub conditions : List (Bytes × Option Bytes)
  pub updates : List (Bytes × Option Bytes)
  pub queue_head : Option ℕ

-- `try_into().unwrap()` into a bounded vector
abbrev pub fitted : {E : Type 0} → ℕ → Bytes → Attempt E Bytes
fitted limit bytes = if leb (length bytes) limit then ok bytes else panic

abbrev pub fitted_value : {E : Type 0} → Option Bytes → Attempt E (Option Bytes)
fitted_value none = ok none
fitted_value (some v) = and_then (fitted max_value_bytes v) (λ w. ok (some w))

-- `into_iter().map(..).collect()`, with the unwraps of the keys and values.
unfoldable pub fitted_pairs :
    {E : Type 0} → List (Bytes × Option Bytes) → Attempt E (List (Bytes × Option Bytes))
fitted_pairs [] = ok []
fitted_pairs ((k, v) ∷ pairs) =
    let rest = fitted_pairs pairs in
    and_then (fitted max_key_bytes k)
      λ key. and_then (fitted_value v) λ value. and_then rest λ others. ok ((key, value) ∷ others)

abbrev pub cond : Bytes × Option Bytes → Cond
cond (k, v) = eq k v

-- `ChainStorage::get`, where the chain's storage is `s`
unfoldable pub snapshot_get : {E : Type 0} → H256 → Anchor → Bytes → Attempt E (Option Bytes)
snapshot_get name s key = and_then (fitted max_key_bytes key) λ k. ok (get s.states (name, k))

-- `ov + 1` is computed in `u32`
unfoldable pub bump_version : {E : Type 0} → Codec → E → Option Bytes → Attempt E Bytes
bump_version codec failed_to_decode none = ok (codec.encode_u32 1)
bump_version codec failed_to_decode (some v) = elim (codec.decode_u32 v) [
  | none ↦ err failed_to_decode
  | some ov ↦ ok (codec.encode_u32 ((ov + 1) % u32_mod))
]

-- `bvec(&Action::SetQueueHead(head).encode())`, if there is a head
abbrev pub head_actions : (Action → Bytes) → Option ℕ → List Bytes
head_actions encode_action none = []
head_actions encode_action (some head) =
    take max_action_bytes (encode_action (set_queue_head head)) ∷ []

-- What the client takes from packages: the error of a version that cannot be read, the encoding of
-- an action, and the rollup of a session, which is given the snapshot and the versions.
pub record Sessions (E Tx : Type 0) : Type 0 where
  pub failed_to_decode : E
  pub encode_action : Action → Bytes
  pub has_updates : KvRollup → Bool
  pub rolled :
      (Bytes → Attempt E (Option Bytes))
      → (Option Bytes → Attempt E Bytes)
      → Tx
      → Attempt E KvRollup

module _ {E Tx : Type 0} (sessions : Sessions E Tx) (codec : Codec) where
  open sessions use {failed_to_decode, encode_action, has_updates, rolled}

  abbrev pub rolled_at : H256 → Anchor → Tx → Attempt E KvRollup
  rolled_at name s tx = rolled (snapshot_get name s) (bump_version codec failed_to_decode) tx

  unfoldable pub rollup_tx : H256 → Anchor → Tx → Attempt E (Option RollupTx)
  rollup_tx name s tx = elim (rolled_at name s tx) [
    | err e ↦ ok none
    | panic ↦ panic
    | ok r ↦
        if has_updates r
        then and_then (fitted_pairs r.conditions) (λ conds.
          and_then (fitted_pairs r.updates) λ updates. ok (
            some (record {
              conds = map cond conds;
              actions = head_actions encode_action r.queue_head;
              updates = updates;
            })))
        else ok none
  ]
