-- ===== src/Anchor/Readable.antt =====
-- Queues whose labels read as positions: a push or a new head keeps them so, and does not panic.
use paraxiom.Prelude.{
  ℕ, ◌+◌, ◌%◌, ◌<◌, ◌≤◌, ◌≡◌, refl, false, some, arith, leb, ltb, ◌&&◌, Bool-cases, inl, inr,
  nat_beq, list_beq, ◌-◌, nat_eq, list_eq, pair_eq, option_eq,
}
use paraxiom.Frame.{Bytes, H256, is_panic}
use paraxiom.Storage.{contains_key}
use paraxiom.Anchor.State.{Anchor, Config, label, u32_mod}
use paraxiom.Anchor.Queue.{push_message, queue_head_set, decoded, head_label, tail_label}
use paraxiom.Anchor.Keys.{HasRoom, index_beq}
use paraxiom.Anchor.Slots.{slot}
use paraxiom.Anchor.Fifo.{push_unclaimed, pushed, slot-pushed, push_message_ok, push_message_full}
use paraxiom.Anchor.Popped.{popped, slot-popped, queue_head_set_ok, queue_head_set_invalid}

-- Whether a label of a name reads as a position.
abbrev pub Reads : Config → Anchor → H256 → Bytes → Type 0
Reads cfg s name l = (i : ℕ) × (decoded cfg (slot cfg s name (label l)) ≡ some i) × (i < u32_mod)

pub record Readable (cfg : Config) (s : Anchor) : Type 0 where
  pub head : (name : H256) → Reads cfg s name head_label
  pub tail : (name : H256) → Reads cfg s name tail_label

module _ (cfg : Config) (fits : HasRoom cfg) where
  pushed-Readable :
      (s : Anchor) (name : H256) (t : ℕ) (v : Bytes)
      → t < u32_mod
      → Readable cfg s
      → Readable cfg (pushed cfg s name t v)
  unfolding index_beq list_beq
  pushed-Readable s name t v range q = record {
    head = λ other.
        let (h, e, b) = q.head other in
        (h, ground (arith, slot-pushed cfg s name other t v (label head_label)), b);
    tail = λ other. elim (Bool-cases (nat_beq name other)) [
      | inl same ↦ (
        (t + 1) % u32_mod,
        ground (
          arith,
          slot-pushed cfg s name other t v (label tail_label),
          cfg.codec.decode-encode_u32 ((t + 1) % u32_mod),
        ),
        omega arith,
      )
      | inr differ ↦
          let (u, e, b) = q.tail other in
          (u, ground (arith, slot-pushed cfg s name other t v (label tail_label)), b)
    ];
  }

  popped-Readable :
      (s : Anchor) (name : H256) (h k : ℕ)
      → h ≤ k
      → k < u32_mod
      → Readable cfg s
      → Readable cfg (popped cfg s name h k)
  unfolding index_beq list_beq
  popped-Readable s name h k hk range q = record {
    head = λ other. elim (Bool-cases (nat_beq name other)) [
      | inl same ↦ (
        k,
        ground (
          arith,
          slot-popped cfg s name other h k (label head_label),
          cfg.codec.decode-encode_u32 k,
        ),
        range,
      )
      | inr differ ↦
          let (u, e, b) = q.head other in
          (u, ground (arith, slot-popped cfg s name other h k (label head_label)), b)
    ];
    tail = λ other.
        let (u, e, b) = q.tail other in
        (u, ground (arith, slot-popped cfg s name other h k (label tail_label)), b);
  }

  -- A push to queues that can be read returns or fails, and leaves them readable.
  pub push_message-Readable :
      (name : H256) (v : Bytes) (s : Anchor)
      → Readable cfg s
      → let (r, s') = push_message cfg name v s in (is_panic r ≡ false) × Readable cfg s'
  push_message-Readable name v s q =
      let (h, eh, bh) = q.head name in
      let (t, et, bt) = q.tail name in
      elim (Bool-cases (contains_key s.submitter_by_names name)) [
        | inr out ↦ rw (push_unclaimed cfg s name v out) (refl, q)
        | inl claimed ↦ elim (Bool-cases (ltb (t - h) cfg.queue_capacity)) [
          | inr full ↦
              rw (push_message_full cfg fits name s h t v eh et claimed (ground arith)) (refl, q)
          | inl room ↦
              rw (push_message_ok cfg fits name s h t v eh et bt claimed (ground arith))
                (refl, pushed-Readable s name t v bt q)
        ]
      ]

  -- So does a new head.
  pub queue_head_set-Readable :
      (name : H256) (k : ℕ) (s : Anchor)
      → Readable cfg s
      → let (r, s') = queue_head_set cfg name k s in (is_panic r ≡ false) × Readable cfg s'
  queue_head_set-Readable name k s q =
      let (h, eh, bh) = q.head name in
      let (t, et, bt) = q.tail name in
      elim (Bool-cases (leb h k && leb k t)) [
        | inr out ↦ rw (queue_head_set_invalid cfg fits name s h t k eh et out) (refl, q)
        | inl inside ↦
            rw (queue_head_set_ok cfg fits name s h t k eh et (ground arith) (ground arith) bt)
              (refl, popped-Readable s name h k (ground arith) (ground arith) q)
      ]
