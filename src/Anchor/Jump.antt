-- ===== src/Anchor/Jump.antt =====
-- The tail of a queue can be written by a rollup, which makes the loop of `queue_head_set` as long as
-- the owner of the name wants.
use paraxiom.Prelude.{
  ℕ, ◌-◌, ◌<◌, ◌≤◌, ◌≡◌, refl, some, [], ◌∷◌, arith, nat_beq_iff, list_beq, nat_eq, list_eq,
  pair_eq, option_eq,
}
use paraxiom.Frame.{Bytes, H256, AccountId, signed, Exec, ok}
use paraxiom.Storage.{get}
use paraxiom.Anchor.State.{Anchor, Config, label, RollupTx, set_queue_head, u32_mod}
use paraxiom.Anchor.Queue.{decoded, head_label, tail_label}
use paraxiom.Anchor.Keys.{HasRoom, key_of, index_beq, list_beq-key_of}
use paraxiom.Anchor.Slots.{slot}
use paraxiom.Anchor.Popped.{queue_head_set_ok, head_loop, queue_head_set-loop}
use paraxiom.Anchor.Rollup.{Node, rollup, exec_actions, apply_updates}
use paraxiom.Anchor.Updates.{last_update, get-apply_updates}
use paraxiom.Anchor.Transactions.{rollup_met, noted}

module _ (cfg : Config) where
  -- A transaction that writes a tail and moves the head there.
  abbrev pub jump_to : Bytes → ℕ → RollupTx
  jump_to raw k = record {
    conds = [];
    actions = raw ∷ [];
    updates = (key_of cfg (label tail_label), some (cfg.codec.encode_u32 k)) ∷ [];
  }

  module _ (fits : HasRoom cfg) (name : H256) (s : Anchor) (raw : Bytes) (h k : ℕ) where
    -- The labels after the updates.
    jumped_head :
        decoded cfg (slot cfg s name (label head_label)) ≡ some h
        → decoded cfg
            (slot cfg (apply_updates name (jump_to raw k).updates s) name (label head_label))
          ≡ some h
    unfolding slot last_update index_beq list_beq
    jumped_head e = ground (
      arith,
      get-apply_updates name name (key_of cfg (label head_label)) (jump_to raw k).updates s,
      list_beq-key_of cfg (label tail_label) (label head_label) refl refl,
    )

    jumped_tail :
        k < u32_mod
        → decoded cfg
            (slot cfg (apply_updates name (jump_to raw k).updates s) name (label tail_label))
          ≡ some k
    unfolding slot last_update index_beq list_beq
    jumped_tail range = ground (
      arith,
      get-apply_updates name name (key_of cfg (label tail_label)) (jump_to raw k).updates s,
      list_beq-key_of cfg (label tail_label) (label tail_label) refl refl,
      nat_beq_iff name name,
      cfg.codec.decode-encode_u32 k range,
    )

module _ (cfg : Config) {S : Type 0} (on_response : H256 → AccountId → Bytes → Exec S Unit) where
  abbrev pub moved : AccountId → H256 → Bytes → ℕ → ℕ → ℕ → Node S → Node S
  moved who name raw h k nonce n = noted cfg on_response who name nonce (record n {
    pallet =
        (head_loop cfg name h (k - h) k
          (apply_updates name (jump_to cfg raw k).updates n.pallet)).1;
  })

  -- Where the queue's keys fit their bound: whatever the capacity, and however few messages wait,
  -- the owner of a name can submit one transaction that writes the tail to any position from the
  -- head on and moves the head there. It succeeds, and runs the loop over all positions between.
  pub rollup_jumps :
      (who : AccountId) (name : H256) (raw : Bytes) (h k nonce : ℕ) (n : Node S)
      → HasRoom cfg
      → get n.pallet.submitter_by_names name ≡ some who
      → cfg.codec.decode_action raw ≡ some (set_queue_head k)
      → decoded cfg (slot cfg n.pallet name (label head_label)) ≡ some h
      → h ≤ k
      → k < u32_mod
      → rollup cfg on_response (signed who) name (jump_to cfg raw k) nonce n
        ≡ (ok tt, moved who name raw h k nonce n)
  unfolding exec_actions
  rollup_jumps who name raw h k nonce n fits owner read head hk range =
      let s = apply_updates name (jump_to cfg raw k).updates n.pallet in
      let p = jumped_head cfg fits name n.pallet raw h k head in
      let q = jumped_tail cfg fits name n.pallet raw h k range in
      ground (
        arith,
        rollup_met cfg on_response who name (jump_to cfg raw k) nonce n owner tt,
        queue_head_set_ok cfg fits name s h k k p q hk (omega arith) range,
        queue_head_set-loop cfg fits name s h k k p q hk (omega arith),
      )
