-- ===== src/Anchor/Corruption.antt =====
-- The queue lives in the store that rollups write to, and nothing keeps a rollup from its keys.
use paraxiom.Prelude.{
  ℕ, ◌≡◌, refl, true, none, some, [], arith, nat_beq_iff, nat_eq, list_eq, pair_eq,
}
use paraxiom.Frame.{Bytes, H256, AccountId, signed, Exec, ok, panic}
use paraxiom.Storage.{contains_key, contains_key_lem}
use paraxiom.Anchor.State.{Anchor, Config, label, RollupTx}
use paraxiom.Anchor.Queue.{
  push_message, queue_len, queue_head, queue_tail, queue_get_u32, head_label, tail_label,
}
use paraxiom.Anchor.Keys.{HasRoom, key_of}
use paraxiom.Anchor.Slots.{slot, queue_get_lem}
use paraxiom.Anchor.Rollup.{rollup, Node}
use paraxiom.Anchor.Updates.{last_update, get-apply_updates, submitter_by_names-apply_updates}
use paraxiom.Anchor.Serial.{rollup_ok_only, rollup_quiet, settled}

module _ (cfg : Config) (fits : HasRoom cfg) (name : H256) (s : Anchor) where
  -- A head that cannot be read makes every push to the name panic.
  push_message-panic :
      (bytes v : Bytes)
      → slot cfg s name (label head_label) ≡ some bytes
      → cfg.codec.decode_u32 bytes ≡ none
      → contains_key s.submitter_by_names name ≡ true
      → (push_message cfg name v s).0 ≡ panic
  unfolding push_message queue_len queue_head queue_tail queue_get_u32
  push_message-panic bytes v head bad claimed = ground (
    arith,
    queue_get_lem cfg fits name s (label head_label) refl,
    queue_get_lem cfg fits name s (label tail_label) refl,
  )

module _ (cfg : Config) {S : Type 0} (on_response : H256 → AccountId → Bytes → Exec S Unit) where
  -- Where the queue's keys fit their bound: after a rollup without actions that the anchor
  -- accepts, and whose last update of the key of `_head` writes bytes that are no `u32`, a push to
  -- the name panics.
  pub corrupted_head_panics :
      (who : AccountId) (name : H256) (tx : RollupTx) (nonce : ℕ) (n : Node S) (bytes v : Bytes)
      → HasRoom cfg
      → (rollup cfg on_response (signed who) name tx nonce n).0 ≡ ok tt
      → tx.actions ≡ []
      → last_update (key_of cfg (label head_label)) tx.updates ≡ some (some bytes)
      → cfg.codec.decode_u32 bytes ≡ none
      → (push_message cfg name v (rollup cfg on_response (signed who) name tx nonce n).1.pallet).0
        ≡ panic
  unfolding slot
  corrupted_head_panics who name tx nonce n bytes v fits accepted quiet written bad =
      let (owner, met) = rollup_ok_only cfg on_response who name tx nonce n accepted in
      let key = key_of cfg (label head_label) in
      rw (rollup_quiet cfg on_response who name tx nonce n accepted quiet) (
        push_message-panic cfg fits name (settled cfg on_response who name tx nonce n).pallet bytes
          v
          (ground
            (arith, get-apply_updates name name key tx.updates n.pallet, nat_beq_iff name name))
          bad
          (ground (
            arith,
            contains_key_lem n.pallet.submitter_by_names name,
            submitter_by_names-apply_updates name tx.updates n.pallet,
          )))
