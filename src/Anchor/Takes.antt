-- ===== src/Anchor/Takes.antt =====
-- A rollup whose one action moves the head of the queue.
use paraxiom.Prelude.{
  ℕ, ◌-◌, ◌<◌, ◌≤◌, ◌≡◌, refl, some, List, [], ◌∷◌, All, arith, option_eq, list_eq, nat_eq, pair_eq,
  list_beq,
}
use paraxiom.Frame.{Bytes, H256, AccountId, signed, Exec}
use paraxiom.Frame as Frame
use paraxiom.Storage.{get}
use paraxiom.Anchor.State.{Anchor, Config, set_queue_head, RollupTx, label, u32_mod}
use paraxiom.Anchor.Queue.{queue_len, decoded, head_label, tail_label, queue_head_set}
use paraxiom.Anchor.Keys.{HasRoom, key_of, index_beq}
use paraxiom.Anchor.Slots.{slot}
use paraxiom.Anchor.Rollup.{Node, rollup, exec_actions, apply_updates}
use paraxiom.Anchor.Updates.{Meets, get-apply_updates}
use paraxiom.Anchor.Transactions.{rollup_met, noted}
use paraxiom.Anchor.Popped.{popped, queue_head_set_ok, slot-popped}
use paraxiom.Anchor.Fifo.{queue_len_lem}
use paraxiom.Anchor.Tame.{Tame}

exec_actions_one :
    (cfg : Config) {S : Type 0} (on_response : H256 → AccountId → Bytes → Exec S Unit)
    (who : AccountId) (name : H256) (actions : List Bytes) (raw : Bytes) (k : ℕ) (n : Node S)
    (s' : Anchor)
    → actions ≡ raw ∷ []
    → cfg.codec.decode_action raw ≡ some (set_queue_head k)
    → queue_head_set cfg name k n.pallet ≡ (Frame.ok tt, s')
    → exec_actions cfg on_response name who actions n ≡ (Frame.ok tt, record n { pallet = s' })
unfolding exec_actions
exec_actions_one cfg on_response who name [] raw k n s' e code set = cc
exec_actions_one cfg on_response who name (a ∷ []) raw k n s' e code set =
    let same : a ≡ raw = cc in ground arith
exec_actions_one cfg on_response who name (a ∷ b ∷ actions) raw k n s' e code set = cc

module _ (cfg : Config) {S : Type 0} (on_response : H256 → AccountId → Bytes → Exec S Unit)
    (fits : HasRoom cfg) (who : AccountId) (name : H256) (tx : RollupTx) (nonce : ℕ)
    (n : Node S) where
  -- The owner's transaction whose one action moves the head inside of the queue is taken.
  pub rollup_takes :
      (raw : Bytes) (h t k : ℕ)
      → get n.pallet.submitter_by_names name ≡ some who
      → All (Meets n.pallet name) tx.conds
      → Tame cfg tx
      → tx.actions ≡ raw ∷ []
      → cfg.codec.decode_action raw ≡ some (set_queue_head k)
      → decoded cfg (slot cfg n.pallet name (label head_label)) ≡ some h
      → decoded cfg (slot cfg n.pallet name (label tail_label)) ≡ some t
      → h ≤ k
      → k ≤ t
      → t < u32_mod
      → let (o, n') = rollup cfg on_response (signed who) name tx nonce n in
        (o ≡ Frame.ok tt) × (queue_len cfg name n'.pallet ≡ (Frame.ok (t - k), n'.pallet))
  unfolding slot index_beq list_beq
  rollup_takes raw h t k owner met tame one code head tail hk kt range =
      let s = apply_updates name tx.updates n.pallet in
      let read = λ (key : Bytes). get-apply_updates name name key tx.updates n.pallet in
      let head' : decoded cfg (slot cfg s name (label head_label)) ≡ some h =
        ground (arith, read (key_of cfg (label head_label)), tame.head) in
      let tail' : decoded cfg (slot cfg s name (label tail_label)) ≡ some t =
        ground (arith, read (key_of cfg (label tail_label)), tame.tail) in
      let p = popped cfg s name h k in
      let set = queue_head_set_ok cfg fits name s h t k head' tail' hk kt range in
      let taken =
        exec_actions_one cfg on_response who name tx.actions raw k (record n { pallet = s }) p one
          code set in
      let accepted = rollup_met cfg on_response who name tx nonce n owner met in
      let noted_p = noted cfg on_response who name nonce (record n { pallet = p }) in
      let done : rollup cfg on_response (signed who) name tx nonce n ≡ (Frame.ok tt, noted_p) =
        ground (arith, accepted, taken) in
      let moved : decoded cfg (slot cfg p name (label head_label)) ≡ some k = ground (
        arith,
        slot-popped cfg s name name h k (label head_label),
        cfg.codec.decode-encode_u32 k,
      ) in
      let stays : decoded cfg (slot cfg p name (label tail_label)) ≡ some t =
        ground (arith, slot-popped cfg s name name h k (label tail_label)) in
      rw done (refl, queue_len_lem cfg fits name noted_p.pallet k t moved stays)
