-- ===== src/Anchor/Rollup.antt =====
-- The extrinsics of anchor.rs. `S` is the state of the pallet that handles responses, `T::OnResponse`.
use paraxiom.Prelude.{
  ℕ, Option, none, some, List, [], ◌∷◌, ◌++◌, not, ◌==◌, nat_eq, list_eq, pair_eq, option_eq,
}
use paraxiom.Errors.{
  anchor, name_already_claimed, name_not_exist, not_owner, cond_not_met, failed_to_decode_action,
}
use paraxiom.Frame.{
  Bytes, H256, AccountId, Origin, Exec, pure, gets, ok_or, ensure, modify, ensure_signed,
  transactional, ◌>>=◌, ◌>>◌,
}
use paraxiom.Storage.{get, insert, remove, contains_key}
use paraxiom.Anchor.State.{
  Anchor, Config, Cond, eq, Action, reply, set_queue_head, RollupTx, Event, name_claimed,
  rollup_executed,
}
use paraxiom.Anchor.Queue.{queue_head_set}

unfoldable pub deposit_event : Event → Exec Anchor Unit
deposit_event event = modify (λ s. record s { events = s.events ++ event ∷ [] })

unfoldable pub claim_name : Origin → H256 → Exec Anchor Unit
unfolding deposit_event
claim_name origin name = transactional do
  who ← ensure_signed origin
  claimed ← gets (λ s. contains_key s.submitter_by_names name)
  ensure (not claimed) (anchor name_already_claimed)
  modify (λ s. record s { submitter_by_names = insert s.submitter_by_names name who })
  deposit_event (name_claimed who name)

unfoldable pub ensure_name_owner : H256 → AccountId → Exec Anchor Unit
ensure_name_owner name caller = do
  found ← gets (λ s. get s.submitter_by_names name)
  owner ← ok_or found (anchor name_not_exist)
  ensure (owner == caller) (anchor not_owner)

-- The loop over `tx.conds`.
unfoldable pub check_conds : H256 → List Cond → Exec Anchor Unit
check_conds name [] = pure tt
check_conds name (eq key opt_value ∷ conds) =
    (gets (λ s. get s.states (name, key)) >>= λ value.
    ensure (value == opt_value) (anchor cond_not_met))
    >> check_conds name conds

abbrev pub update : H256 → Bytes × Option Bytes → Anchor → Anchor
update name (key, some v) s = record s { states = insert s.states (name, key) v }
update name (key, none) s = record s { states = remove s.states (name, key) }

-- The loop over `tx.updates`.
unfoldable pub apply_updates : H256 → List (Bytes × Option Bytes) → Anchor → Anchor
apply_updates name [] s = s
apply_updates name (u ∷ updates) s = apply_updates name updates (update name u s)

-- The anchor beside the state of its response handler.
pub record Node (S : Type 0) : Type 0 where
  pub pallet : Anchor
  pub app : S

module _ {S A : Type 0} where
  abbrev pub on_anchor : Exec Anchor A → Exec (Node S) A
  on_anchor m n = let (r, s') = m n.pallet in (r, record n { pallet = s' })

  abbrev pub on_app : Exec S A → Exec (Node S) A
  on_app m n = let (r, s') = m n.app in (r, record n { app = s' })

module _ (cfg : Config) {S : Type 0} (on_response : H256 → AccountId → Bytes → Exec S Unit) where
  open cfg use {codec}

  abbrev pub exec_action : H256 → AccountId → Action → Exec (Node S) Unit
  exec_action name who (reply bytes) = on_app (on_response name who bytes)
  exec_action name who (set_queue_head head) = on_anchor (queue_head_set cfg name head)

  -- The loop over `tx.actions`.
  unfoldable pub exec_actions : H256 → AccountId → List Bytes → Exec (Node S) Unit
  exec_actions name who [] = pure tt
  exec_actions name who (raw_act ∷ actions) =
      (ok_or (codec.decode_action raw_act) (anchor failed_to_decode_action) >>= λ act.
      exec_action name who act)
      >> exec_actions name who actions

  unfoldable pub rollup : Origin → H256 → RollupTx → ℕ → Exec (Node S) Unit
  unfolding deposit_event
  rollup origin name tx nonce = transactional do
    who ← ensure_signed origin
    on_anchor (ensure_name_owner name who)
    on_anchor (check_conds name tx.conds)
    on_anchor (modify (apply_updates name tx.updates))
    exec_actions name who tx.actions
    on_anchor (deposit_event (rollup_executed who name nonce))
