-- ===== src/Anchor/Popped.antt =====
-- The state after `queue_head_set`: the slots that its loop has freed, and the new head.
use paraxiom.Prelude.{
  ℕ, zero, suc, ◌+◌, ◌-◌, ◌<◌, ◌≤◌, ◌≡◌, refl, false, some, none, arith, leb, ltb, ◌&&◌,
  if◌then◌else◌, nat_beq, nat_eq, Bool,
}
use paraxiom.Frame.{H256, Exec, ok, err, ◌>>◌}
use paraxiom.Errors.{anchor, invalid_queue_head}
use paraxiom.Anchor.State.{Anchor, Config, Index, at, label, u32_mod}
use paraxiom.Anchor.Keys.{IsIndex, HasRoom, index_beq}
use paraxiom.Anchor.Slots.{
  slot, put, erase, put-owners, erase-owners, slot-put, slot-erase, queue_remove_lem,
  queue_set_u32_lem, queue_head_lem, queue_tail_lem,
}
use paraxiom.Anchor.Queue.{
  decoded, head_label, tail_label, queue_head_set, queue_remove_from, queue_set_u32,
}

module _ (cfg : Config) where
  -- The state after the loop over `n` positions from `i` on.
  pub erased : Anchor → H256 → ℕ → ℕ → Anchor
  erased s name i zero = s
  erased s name i (suc n) = erased (erase cfg s name (at i)) name (i + 1) n

  queue_remove_from_lem :
      (s : Anchor) (name : H256) (i n : ℕ)
      → HasRoom cfg
      → i + n ≤ u32_mod
      → queue_remove_from cfg name i n s ≡ (ok tt, erased s name i n)
  unfolding queue_remove_from erased
  queue_remove_from_lem s name i zero fits b = refl
  queue_remove_from_lem s name i (suc n) fits b = ground (
    arith,
    queue_remove_lem cfg fits name s (at i),
    queue_remove_from_lem (erase cfg s name (at i)) name (i + 1) n fits,
  )

  -- Whether the loop passes an index.
  abbrev passes : ℕ → ℕ → Index → Bool
  passes i n (at j) = leb i j && ltb j (i + n)
  passes i n (label bytes) = false

  slot-erased :
      (s : Anchor) (name other : H256) (i n : ℕ) (y : Index)
      → i + n ≤ u32_mod
      → IsIndex y
      → slot cfg (erased s name i n) other y
        ≡ (if nat_beq name other && passes i n y then none else slot cfg s other y)
  unfolding erased index_beq
  slot-erased s name other i zero (at j) b q = ground arith
  slot-erased s name other i zero (label l) b q = ground arith
  slot-erased s name other i (suc n) (at j) b q = ground (
    arith,
    slot-erased (erase cfg s name (at i)) name other (i + 1) n (at j),
    slot-erase cfg s name other (at i) (at j),
  )
  slot-erased s name other i (suc n) (label l) b q = ground (
    arith,
    slot-erased (erase cfg s name (at i)) name other (i + 1) n (label l),
    slot-erase cfg s name other (at i) (label l),
  )

  pub popped : Anchor → H256 → ℕ → ℕ → Anchor
  popped s name h k =
      put cfg (erased s name h (k - h)) name (label head_label) (cfg.codec.encode_u32 k)

  pub slot-popped :
      (s : Anchor) (name other : H256) (h k : ℕ) (y : Index)
      → h ≤ k
      → k < u32_mod
      → IsIndex y
      → slot cfg (popped s name h k) other y ≡ (
          if nat_beq name other && index_beq (label head_label) y
          then some (cfg.codec.encode_u32 k)
          else if nat_beq name other && passes h (k - h) y
          then none
          else slot cfg s other y)
  unfolding popped
  slot-popped s name other h k y hk b q =
      rw
        (
          slot-put cfg (erased s name h (k - h)) name other (label head_label) y
              (cfg.codec.encode_u32 k) refl q,
          slot-erased s name other h (k - h) y (omega arith) q,
        )
        refl

  -- The loop of `queue_head_set` with its rounds, and the write of the head.
  abbrev pub head_loop : H256 → ℕ → ℕ → ℕ → Exec Anchor Unit
  head_loop name head rounds index =
      queue_remove_from cfg name head rounds >> queue_set_u32 cfg name head_label index

  module _ (fits : HasRoom cfg) (name : H256) (s : Anchor) where
    pub queue_head_set_ok :
        (h t k : ℕ)
        → decoded cfg (slot cfg s name (label head_label)) ≡ some h
        → decoded cfg (slot cfg s name (label tail_label)) ≡ some t
        → h ≤ k
        → k ≤ t
        → t < u32_mod
        → queue_head_set cfg name k s ≡ (ok tt, popped s name h k)
    unfolding queue_head_set popped
    queue_head_set_ok h t k p q hk kt b = ground (
      arith,
      queue_head_lem cfg fits name s h p,
      queue_tail_lem cfg fits name s t q,
      queue_remove_from_lem s name h (k - h) fits,
      queue_set_u32_lem cfg fits name (erased s name h (k - h)) head_label k refl,
    )

    -- A head inside runs the loop over the positions from the old head on, and is then written.
    pub queue_head_set-loop :
        (h t k : ℕ)
        → decoded cfg (slot cfg s name (label head_label)) ≡ some h
        → decoded cfg (slot cfg s name (label tail_label)) ≡ some t
        → h ≤ k
        → k ≤ t
        → queue_head_set cfg name k s ≡ head_loop name h (k - h) k s
    unfolding queue_head_set
    queue_head_set-loop h t k p q hk kt =
        ground (arith, queue_head_lem cfg fits name s h p, queue_tail_lem cfg fits name s t q)

    -- A head outside of the queue is refused.
    pub queue_head_set_invalid :
        (h t k : ℕ)
        → decoded cfg (slot cfg s name (label head_label)) ≡ some h
        → decoded cfg (slot cfg s name (label tail_label)) ≡ some t
        → (leb h k && leb k t) ≡ false
        → queue_head_set cfg name k s ≡ (err (anchor invalid_queue_head), s)
    unfolding queue_head_set
    queue_head_set_invalid h t k p q out =
        ground (arith, queue_head_lem cfg fits name s h p, queue_tail_lem cfg fits name s t q)

  erased-owners :
      (s : Anchor) (name : H256) (i n : ℕ)
      → (erased s name i n).submitter_by_names ≡ s.submitter_by_names
  unfolding erased
  erased-owners s name i zero = refl
  erased-owners s name i (suc n) = ground (
    arith,
    erased-owners (erase cfg s name (at i)) name (i + 1) n,
    erase-owners cfg s name (at i),
  )

  pub popped-owners :
      (s : Anchor) (name : H256) (h k : ℕ)
      → (popped s name h k).submitter_by_names ≡ s.submitter_by_names
  unfolding popped
  popped-owners s name h k = ground (
    arith,
    put-owners cfg (erased s name h (k - h)) name (label head_label) (cfg.codec.encode_u32 k),
    erased-owners s name h (k - h),
  )
