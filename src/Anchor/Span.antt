-- ===== src/Anchor/Span.antt =====
-- What a push and a pop make of how far the head and the tail of a queue are apart.
use mathlib.Core.Path.{subst}
use paraxiom.Prelude.{
  ℕ, ◌+◌, ◌-◌, ◌%◌, ◌<◌, ◌≤◌, ◌≡◌, false, some, arith, Bool-cases, inl, inr, nat_beq, nat_beq_iff,
  list_beq, nat_eq, list_eq, pair_eq, option_eq,
}
use paraxiom.Frame.{Bytes, H256}
use paraxiom.Anchor.State.{Anchor, Config, label, u32_mod}
use paraxiom.Anchor.Queue.{decoded, head_label, tail_label}
use paraxiom.Anchor.Keys.{index_beq}
use paraxiom.Anchor.Slots.{slot}
use paraxiom.Anchor.Fifo.{pushed, slot-pushed}
use paraxiom.Anchor.Popped.{popped, slot-popped}

-- The labels of a name's queue read as positions, and at most `queue_capacity` messages wait.
pub record Span (cfg : Config) (s : Anchor) (name : H256) : Type 0 where
  pub head : ℕ
  pub tail : ℕ
  pub head_read : decoded cfg (slot cfg s name (label head_label)) ≡ some head
  pub tail_read : decoded cfg (slot cfg s name (label tail_label)) ≡ some tail
  pub head_range : head < u32_mod
  pub tail_range : tail < u32_mod
  pub short : tail - head ≤ cfg.queue_capacity

abbrev pub Short : Config → Anchor → Type 0
Short cfg s = (name : H256) → Span cfg s name

module _ (cfg : Config) where
  -- Where the labels read as before, nothing changes.
  pub Span-same :
      (s s' : Anchor) (name : H256)
      → slot cfg s' name (label head_label) ≡ slot cfg s name (label head_label)
      → slot cfg s' name (label tail_label) ≡ slot cfg s name (label tail_label)
      → Span cfg s name
      → Span cfg s' name
  Span-same s s' name eh et q = record {
    head = q.head;
    tail = q.tail;
    head_read = rw eh q.head_read;
    tail_read = rw et q.tail_read;
    head_range = q.head_range;
    tail_range = q.tail_range;
    short = q.short;
  }

  pub pushed-Span :
      (s : Anchor) (name : H256) (v : Bytes) (q : Span cfg s name)
      → q.tail - q.head < cfg.queue_capacity
      → Span cfg (pushed cfg s name q.tail v) name
  unfolding index_beq list_beq
  pushed-Span s name v q room =
      let t = q.tail in
      record {
        head = q.head;
        tail = (t + 1) % u32_mod;
        head_read =
            ground (
              arith,
              slot-pushed cfg s name name t v (label head_label),
              q.head_read,
              q.tail_range,
            );
        tail_read = ground (
          arith,
          slot-pushed cfg s name name t v (label tail_label),
          cfg.codec.decode-encode_u32 ((t + 1) % u32_mod),
          q.tail_range,
          nat_beq_iff name name,
        );
        head_range = q.head_range;
        tail_range = omega arith;
        short = omega (arith, room);
      }

  pub popped-Span :
      (s : Anchor) (name : H256) (k : ℕ) (q : Span cfg s name)
      → q.head ≤ k
      → k ≤ q.tail
      → Span cfg (popped cfg s name q.head k) name
  unfolding index_beq list_beq
  popped-Span s name k q hk kt =
      let range : k < u32_mod = omega (arith, q.tail_range) in
      record {
        head = k;
        tail = q.tail;
        head_read = ground (
          arith,
          slot-popped cfg s name name q.head k (label head_label),
          cfg.codec.decode-encode_u32 k,
          nat_beq_iff name name,
        );
        tail_read =
            ground (arith, slot-popped cfg s name name q.head k (label tail_label), q.tail_read);
        head_range = range;
        tail_range = q.tail_range;
        short = omega (arith, q.short);
      }

  -- A change of one name's queue.
  pub Short-at :
      (s s' : Anchor) (name : H256)
      → ((other : H256) → nat_beq name other ≡ false → Span cfg s other → Span cfg s' other)
      → Span cfg s' name
      → Short cfg s
      → Short cfg s'
  Short-at s s' name others here q other = elim (Bool-cases (nat_beq name other)) [
    | inl same ↦ subst (Span cfg s') ((nat_beq_iff name other).0 same) here
    | inr differ ↦ others other differ (q other)
  ]
