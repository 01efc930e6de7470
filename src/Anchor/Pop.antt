-- ===== src/Anchor/Pop.antt =====
-- `queue_head_set` drops from the front of the list that the queue refines, and frees the slots.
use paraxiom.Prelude.{
  ℕ, zero, suc, ◌+◌, ◌-◌, ◌<◌, ◌≤◌, ◌≡◌, ◌≢◌, refl, none, List, [], ◌∷◌, length, drop, arith, leb,
  ltb, ◌&&◌, if◌then◌else◌, list_beq, nat_eq,
}
use native.Mathlib.Nat.{add-zero}
use paraxiom.Frame.{Bytes, H256, ok}
use paraxiom.Anchor.State.{Anchor, Config, at, label, u32_mod}
use paraxiom.Anchor.Keys.{HasRoom, index_beq}
use paraxiom.Anchor.Slots.{slot}
use paraxiom.Anchor.Queue.{head_label, tail_label, queue_head_set}
use paraxiom.Anchor.Fifo.{Holds, Refines}
use paraxiom.Anchor.Popped.{popped, queue_head_set_ok, slot-popped}

module _ (cfg : Config) where
  Holds-drop :
      (s : Anchor) (name : H256) (i n : ℕ) (msgs : List Bytes)
      → n ≤ length msgs
      → Holds cfg s name i msgs
      → Holds cfg s name (i + n) (drop n msgs)
  Holds-drop s name i zero msgs b h = rw (add-zero) h
  Holds-drop s name i (suc n) [] b h = absurd (omega arith)
  Holds-drop s name i (suc n) (m ∷ msgs) b h =
      let e : i + suc n ≡ i + 1 + n = omega arith in
      rw e (Holds-drop s name (i + 1) n msgs (omega arith) h.1)

  Holds-popped :
      (s : Anchor) (name : H256) (h k i : ℕ) (msgs : List Bytes)
      → h ≤ k
      → k ≤ i
      → k < u32_mod
      → i + length msgs < u32_mod
      → Holds cfg s name i msgs
      → Holds cfg (popped cfg s name h k) name i msgs
  unfolding index_beq
  Holds-popped s name h k i [] a b c d q = tt
  Holds-popped s name h k i (m ∷ msgs) a b c d q = (
    ground (arith, slot-popped cfg s name name h k (at i)),
    Holds-popped s name h k (i + 1) msgs a (omega arith) c (omega arith) q.1,
  )

  Holds-popped_ne :
      (s : Anchor) (name other : H256) (h k i : ℕ) (msgs : List Bytes)
      → h ≤ k
      → k < u32_mod
      → name ≢ other
      → i + length msgs < u32_mod
      → Holds cfg s other i msgs
      → Holds cfg (popped cfg s name h k) other i msgs
  Holds-popped_ne s name other h k i [] a b ne c q = tt
  Holds-popped_ne s name other h k i (m ∷ msgs) a b ne c q = (
    ground (arith, slot-popped cfg s name other h k (at i)),
    Holds-popped_ne s name other h k (i + 1) msgs a b ne (omega arith) q.1,
  )

  pub popped-Refines_ne :
      (s : Anchor) (name other : H256) (h k i : ℕ) (msgs : List Bytes)
      → h ≤ k
      → k < u32_mod
      → name ≢ other
      → Refines cfg s other i msgs
      → Refines cfg (popped cfg s name h k) other i msgs
  popped-Refines_ne s name other h k i msgs a b ne q = record {
    head_read = ground (arith, q.head_read, slot-popped cfg s name other h k (label head_label));
    tail_read = ground (arith, q.tail_read, slot-popped cfg s name other h k (label tail_label));
    in_range = q.in_range;
    held = Holds-popped_ne s name other h k i msgs a b ne q.in_range q.held;
  }

  pub length-drop : (n : ℕ) (msgs : List Bytes) → length (drop n msgs) ≡ length msgs - n
  length-drop zero msgs = omega arith
  length-drop (suc n) [] = omega arith
  length-drop (suc n) (m ∷ msgs) = omega (arith, length-drop n msgs)

  pub popped-Refines :
      (s : Anchor) (name : H256) (h n : ℕ) (msgs : List Bytes)
      → Refines cfg s name h msgs
      → n ≤ length msgs
      → Refines cfg (popped cfg s name h (h + n)) name (h + n) (drop n msgs)
  unfolding index_beq list_beq
  popped-Refines s name h n msgs q b =
      let range : h + length msgs < u32_mod = q.in_range in
      record {
        head_read = ground (
          arith,
          slot-popped cfg s name name h (h + n) (label head_label),
          cfg.codec.decode-encode_u32 (h + n),
        );
        tail_read = ground (
          arith,
          q.tail_read,
          slot-popped cfg s name name h (h + n) (label tail_label),
          length-drop n msgs,
        );
        in_range = omega (arith, length-drop n msgs);
        held =
            Holds-popped s name h (h + n) (h + n) (drop n msgs) (omega arith) (omega arith)
              (omega arith) (omega (arith, length-drop n msgs))
              (Holds-drop s name h n msgs b q.held);
      }

  -- Where the queue's keys fit their bound: a head `n` messages on, with `n` at most their number,
  -- is accepted; the queue then holds the messages without the first `n`, the slots at the
  -- positions of those are free, and the slot at every other position is as it was.
  pub queue_head_set-Refines :
      (s : Anchor) (name : H256) (h n i : ℕ) (msgs : List Bytes)
      → HasRoom cfg
      → Refines cfg s name h msgs
      → n ≤ length msgs
      → i < u32_mod
      → let (r, s') = queue_head_set cfg name (h + n) s in
        (r ≡ ok tt)
        × Refines cfg s' name (h + n) (drop n msgs)
        × (slot cfg s' name (at i)
            ≡ (if leb h i && ltb i (h + n) then none else slot cfg s name (at i)))
  unfolding index_beq
  queue_head_set-Refines s name h n i msgs fits q b small =
      let range : h + length msgs < u32_mod = q.in_range in
      rw
        (queue_head_set_ok cfg fits name s h (h + length msgs) (h + n) q.head_read q.tail_read
          (omega arith) (omega arith) q.in_range)
        (
          refl,
          popped-Refines s name h n msgs q b,
          ground (arith, slot-popped cfg s name name h (h + n) (at i)),
        )
