-- ===== src/Anchor/Capacity.antt =====
-- No queue outgrows its capacity, so that the loop of `queue_head_set` is short.
use paraxiom.Prelude.{
  ℕ, ◌+◌, ◌-◌, ◌<◌, ◌≤◌, ◌≡◌, refl, ap, ◌⊎◌, arith, leb, ltb, ◌&&◌, Bool-cases, inl, inr, list_beq,
  nat_eq, list_eq, pair_eq, option_eq,
}
use paraxiom.Frame.{Bytes, H256, AccountId, Exec, ok, err}
use paraxiom.Errors.{anchor, invalid_queue_head}
use paraxiom.Storage.{contains_key}
use paraxiom.Anchor.State.{Anchor, Config, label, u32_mod}
use paraxiom.Anchor.Queue.{
  push_message, queue_head_set, queue_len, queue_head, head_label, tail_label,
}
use paraxiom.Anchor.Keys.{HasRoom, index_beq, key_of}
use paraxiom.Anchor.Slots.{slot, queue_head_lem}
use paraxiom.Anchor.Fifo.{
  push_unclaimed, pushed, slot-pushed, push_message_ok, push_message_full, queue_len_lem,
}
use paraxiom.Anchor.Popped.{
  popped, slot-popped, queue_head_set_ok, queue_head_set_invalid, head_loop, queue_head_set-loop,
}
use paraxiom.Anchor.Through.{claim_name-states, Kept}
use paraxiom.Anchor.Rollup.{Node, apply_updates}
use paraxiom.Anchor.Updates.{get-apply_updates}
use paraxiom.Anchor.Tame.{TameReach, TameReach-carries, Carried}
use paraxiom.Anchor.Span.{Short, Span-same, pushed-Span, popped-Span, Short-at}

module _ (cfg : Config) (fits : HasRoom cfg) where
  pub push_message-Short :
      (name : H256) (v : Bytes) (s : Anchor) → Short cfg s → Short cfg (push_message cfg name v s).1
  unfolding index_beq list_beq
  push_message-Short name v s q =
      let own = q name in
      elim (Bool-cases (contains_key s.submitter_by_names name)) [
        | inr out ↦ rw (push_unclaimed cfg s name v out) q
        | inl claimed ↦ elim (Bool-cases (ltb (own.tail - own.head) cfg.queue_capacity)) [
          | inr full ↦
              rw
                (push_message_full cfg fits name s own.head own.tail v own.head_read own.tail_read
                  claimed (ground arith))
                q
          | inl room ↦
              rw
                (push_message_ok cfg fits name s own.head own.tail v own.head_read own.tail_read
                  own.tail_range claimed (ground arith))
                (Short-at cfg s (pushed cfg s name own.tail v) name
                  (λ other differ.
                    Span-same cfg s _ other
                      (ground (
                        arith,
                        slot-pushed cfg s name other own.tail v (label head_label),
                        own.tail_range,
                      ))
                      (ground (
                        arith,
                        slot-pushed cfg s name other own.tail v (label tail_label),
                        own.tail_range,
                      )))
                  (pushed-Span cfg s name v own (ground arith)) q)
        ]
      ]

  pub queue_head_set-Short :
      (name : H256) (k : ℕ) (s : Anchor) → Short cfg s → Short cfg (queue_head_set cfg name k s).1
  unfolding index_beq list_beq
  queue_head_set-Short name k s q =
      let own = q name in
      elim (Bool-cases (leb own.head k && leb k own.tail)) [
        | inr out ↦
            rw
              (queue_head_set_invalid cfg fits name s own.head own.tail k own.head_read
                own.tail_read out)
              q
        | inl inside ↦
            let hk : own.head ≤ k = ground arith in
            let kt : k ≤ own.tail = ground arith in
            let range : k < u32_mod = omega (arith, own.tail_range) in
            rw
              (queue_head_set_ok cfg fits name s own.head own.tail k own.head_read own.tail_read hk
                kt own.tail_range)
              (Short-at cfg s (popped cfg s name own.head k) name
                (λ other differ.
                  Span-same cfg s _ other
                    (ground (arith, slot-popped cfg s name other own.head k (label head_label)))
                    (ground (arith, slot-popped cfg s name other own.head k (label tail_label))))
                (popped-Span cfg s name k own hk kt) q)
      ]

  Short-Kept : (name : H256) → Kept cfg (λ s s'. Short cfg s → Short cfg s') name
  unfolding slot
  Short-Kept name = record {
    same = λ s q. q;
    then = λ x y z f g q. g (f q);
    deposited = λ s events q other.
        Span-same cfg s (record s { events = events }) other refl refl (q other);
    head_set = λ k. record { moves = queue_head_set-Short name k };
  }

  pub Short-Carried : Carried cfg (Short cfg)
  unfolding slot
  Short-Carried = record {
    kept = Short-Kept;
    claimed = λ origin name s q other.
        let e = claim_name-states origin name s in
        Span-same cfg s _ other (rw e refl) (rw e refl) (q other);
    updated = λ name tx s tame q other.
        Span-same cfg s (apply_updates name tx.updates s) other
          (ground (
            arith,
            get-apply_updates name other (key_of cfg (label head_label)) tx.updates s,
            tame.head,
          ))
          (ground (
            arith,
            get-apply_updates name other (key_of cfg (label tail_label)) tx.updates s,
            tame.tail,
          ))
          (q other);
    pushed = push_message-Short;
  }

module _ (cfg : Config) {S : Type 0} (on_response : H256 → AccountId → Bytes → Exec S Unit) where
  -- Where the queue's keys fit their bound: from queues of at most `queue_capacity` messages,
  -- whatever claims, pushes and rollups follow, by whomever, as long as no rollup's updates touch
  -- the keys of `_head` and `_tail`, the length of every name's queue can be read, and is at most
  -- `queue_capacity`.
  pub TameReach-queue_len :
      {n n' : Node S} (name : H256)
      → HasRoom cfg
      → Short cfg n.pallet
      → TameReach cfg on_response n n'
      → (len : ℕ) × (queue_len cfg name n'.pallet ≡ (ok len, n'.pallet))
        × (len ≤ cfg.queue_capacity)
  TameReach-queue_len {n' = n'} name fits q r =
      let now = TameReach-carries cfg on_response (Short cfg) (Short-Carried cfg fits) q r name in
      (
        now.tail - now.head,
        queue_len_lem cfg fits name n'.pallet now.head now.tail now.head_read now.tail_read,
        now.short,
      )

  -- Where the queue's keys fit their bound: in a state that is reached from queues of at most
  -- `queue_capacity` messages by claims, pushes, and rollups whose updates leave the keys of
  -- `_head` and `_tail` alone, a new head is either refused, with nothing changed, or it is the
  -- loop over the positions from the old head on, followed by the write of the head, where the
  -- loop ends after at most `queue_capacity` rounds and nothing of it fails.
  pub TameReach-rounds :
      {n n' : Node S} (name : H256) (k : ℕ)
      → HasRoom cfg
      → Short cfg n.pallet
      → TameReach cfg on_response n n'
      → let s = n'.pallet in
        (queue_head_set cfg name k s ≡ (err (anchor invalid_queue_head), s))
        ⊎ ((head rounds : ℕ) × (queue_head cfg name s ≡ (ok head, s))
            × (head + rounds ≡ k)
            × (rounds ≤ cfg.queue_capacity)
            × (queue_head_set cfg name k s ≡ head_loop cfg name head rounds k s)
            × ((queue_head_set cfg name k s).0 ≡ ok tt))
  TameReach-rounds {n' = n'} name k fits q r =
      let s = n'.pallet in
      let now = TameReach-carries cfg on_response (Short cfg) (Short-Carried cfg fits) q r name in
      elim (Bool-cases (leb now.head k && leb k now.tail)) [
        | inr out ↦ inl (
            queue_head_set_invalid cfg fits name s now.head now.tail k now.head_read now.tail_read
              out)
        | inl inside ↦
            let hk : now.head ≤ k = ground arith in
            let kt : k ≤ now.tail = ground arith in
            inr (
              now.head,
              k - now.head,
              queue_head_lem cfg fits name s now.head now.head_read,
              omega arith,
              omega (arith, now.short),
              queue_head_set-loop cfg fits name s now.head now.tail k now.head_read now.tail_read hk
                  kt,
              ap (λ z. z.0)
                  (queue_head_set_ok cfg fits name s now.head now.tail k now.head_read now.tail_read
                    hk kt now.tail_range),
            )
      ]
