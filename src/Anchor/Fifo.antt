-- ===== src/Anchor/Fifo.antt =====
-- The queue of a name refines a list: `push_message` appends to it, `queue_head_set` drops from its
-- front, and each leaves every other name's queue alone.
use paraxiom.Prelude.{
  ℕ, ◌+◌, ◌-◌, ◌%◌, ◌<◌, ◌≤◌, ◌≡◌, ◌≢◌, refl, true, false, some, none, List, [], ◌∷◌, ◌++◌, length,
  arith, nat_eq, list_eq, pair_eq, option_eq, list_beq, if◌then◌else◌, length-append, nat_beq, ◌&&◌,
}
use paraxiom.Frame.{Bytes, H256, ok, err}
use paraxiom.Errors.{anchor, queue_is_full, name_not_exist}
use paraxiom.Storage.{contains_key}
use paraxiom.Anchor.State.{Anchor, Config, at, label, u32_mod, Index}
use paraxiom.Anchor.Keys.{IsIndex, HasRoom, index_beq}
use paraxiom.Anchor.Slots.{
  slot, put, put-owners, slot-put, queue_set_lem, queue_set_u32_lem, queue_head_lem, queue_tail_lem,
}
use paraxiom.Anchor.Queue.{decoded, queue_len, head_label, tail_label, push_message, queue_tail_set}

module _ (cfg : Config) where
  -- The messages of a list stand in the slots from position `i` on.
  abbrev pub Holds : Anchor → H256 → ℕ → List Bytes → Type 0
  Holds s name i [] = Unit
  Holds s name i (m ∷ msgs) = (slot cfg s name (at i) ≡ some m) × Holds s name (i + 1) msgs

  -- The name's queue holds `msgs`, of which the first stands at position `head`.
  pub record Refines (s : Anchor) (name : H256) (head : ℕ) (msgs : List Bytes) : Type 0 where
    pub head_read : decoded cfg (slot cfg s name (label head_label)) ≡ some head
    pub tail_read : decoded cfg (slot cfg s name (label tail_label)) ≡ some (head + length msgs)
    pub in_range : head + length msgs < u32_mod
    pub held : Holds s name head msgs

  pub pushed : Anchor → H256 → ℕ → Bytes → Anchor
  pushed s name end v =
      put cfg (put cfg s name (at end) v) name (label tail_label)
        (cfg.codec.encode_u32 ((end + 1) % u32_mod))

  pub pushed-owners :
      (s : Anchor) (name : H256) (t : ℕ) (v : Bytes)
      → (pushed s name t v).submitter_by_names ≡ s.submitter_by_names
  unfolding pushed
  pushed-owners s name t v = ground (
    arith,
    put-owners cfg (put cfg s name (at t) v) name (label tail_label)
        (cfg.codec.encode_u32 ((t + 1) % u32_mod)),
    put-owners cfg s name (at t) v,
  )

  module _ (fits : HasRoom cfg) (name : H256) (s : Anchor) where
    pub queue_len_lem :
        (h t : ℕ)
        → decoded cfg (slot cfg s name (label head_label)) ≡ some h
        → decoded cfg (slot cfg s name (label tail_label)) ≡ some t
        → queue_len cfg name s ≡ (ok (t - h), s)
    unfolding queue_len
    queue_len_lem h t p q =
        ground (arith, queue_head_lem cfg fits name s h, queue_tail_lem cfg fits name s t)

    pub push_message_ok :
        (h t : ℕ) (v : Bytes)
        → decoded cfg (slot cfg s name (label head_label)) ≡ some h
        → decoded cfg (slot cfg s name (label tail_label)) ≡ some t
        → t < u32_mod
        → contains_key s.submitter_by_names name ≡ true
        → t - h < cfg.queue_capacity
        → push_message cfg name v s ≡ (ok t, pushed s name t v)
    unfolding push_message pushed queue_tail_set
    push_message_ok h t v p q range claimed room = ground (
      arith,
      queue_len_lem h t p q,
      queue_tail_lem cfg fits name s t q,
      queue_set_lem cfg fits name s (at t) v range,
      queue_set_u32_lem cfg fits name (put cfg s name (at t) v) tail_label ((t + 1) % u32_mod) refl,
    )

    -- A full queue refuses a message.
    pub push_message_full :
        (h t : ℕ) (v : Bytes)
        → decoded cfg (slot cfg s name (label head_label)) ≡ some h
        → decoded cfg (slot cfg s name (label tail_label)) ≡ some t
        → contains_key s.submitter_by_names name ≡ true
        → cfg.queue_capacity ≤ t - h
        → push_message cfg name v s ≡ (err (anchor queue_is_full), s)
    unfolding push_message
    push_message_full h t v p q claimed full = ground (arith, queue_len_lem h t p q)

  pub push_unclaimed :
      (s : Anchor) (name : H256) (v : Bytes)
      → contains_key s.submitter_by_names name ≡ false
      → push_message cfg name v s ≡ (err (anchor name_not_exist), s)
  unfolding push_message
  push_unclaimed s name v no_key = ground arith

  -- The slots after a push.
  pub slot-pushed :
      (s : Anchor) (name other : H256) (t : ℕ) (v : Bytes) (y : Index)
      → t < u32_mod
      → IsIndex y
      → slot cfg (pushed s name t v) other y ≡ (
          if nat_beq name other && index_beq (label tail_label) y
          then some (cfg.codec.encode_u32 ((t + 1) % u32_mod))
          else if nat_beq name other && index_beq (at t) y
          then some v
          else slot cfg s other y)
  unfolding pushed
  slot-pushed s name other t v y p q =
      rw
        (
          slot-put cfg (put cfg s name (at t) v) name other (label tail_label) y
              (cfg.codec.encode_u32 ((t + 1) % u32_mod)) refl q,
          slot-put cfg s name other (at t) y v p q,
        )
        refl

  Holds-pushed :
      (s : Anchor) (name : H256) (t : ℕ) (v : Bytes) (i : ℕ) (msgs : List Bytes)
      → t < u32_mod
      → i + length msgs ≡ t
      → Holds s name i msgs
      → Holds (pushed s name t v) name i (msgs ++ v ∷ [])
  unfolding index_beq
  Holds-pushed s name t v i [] range e h = (ground (arith, slot-pushed s name name t v (at i)), tt)
  Holds-pushed s name t v i (m ∷ msgs) range e h = (
    ground (arith, slot-pushed s name name t v (at i)),
    Holds-pushed s name t v (i + 1) msgs range (omega arith) h.1,
  )

  Holds-pushed_ne :
      (s : Anchor) (name other : H256) (t : ℕ) (v : Bytes) (i : ℕ) (msgs : List Bytes)
      → t < u32_mod
      → name ≢ other
      → i + length msgs < u32_mod
      → Holds s other i msgs
      → Holds (pushed s name t v) other i msgs
  Holds-pushed_ne s name other t v i [] range ne b h = tt
  Holds-pushed_ne s name other t v i (m ∷ msgs) range ne b h = (
    ground (arith, slot-pushed s name other t v (at i)),
    Holds-pushed_ne s name other t v (i + 1) msgs range ne (omega arith) h.1,
  )

  pub pushed-Refines :
      (s : Anchor) (name : H256) (h : ℕ) (msgs : List Bytes) (v : Bytes)
      → Refines s name h msgs
      → h + length msgs + 1 < u32_mod
      → Refines (pushed s name (h + length msgs) v) name h (msgs ++ v ∷ [])
  unfolding index_beq list_beq
  pushed-Refines s name h msgs v q room =
      let t = h + length msgs in
      record {
        head_read = ground (arith, q.head_read, slot-pushed s name name t v (label head_label));
        tail_read = ground (
          arith,
          slot-pushed s name name t v (label tail_label),
          cfg.codec.decode-encode_u32 (t + 1),
          length-append msgs (v ∷ []),
        );
        in_range = omega (arith, length-append msgs (v ∷ []));
        held = Holds-pushed s name t v h msgs (omega arith) refl q.held;
      }

  pub pushed-Refines_ne :
      (s : Anchor) (name other : H256) (t h : ℕ) (msgs : List Bytes) (v : Bytes)
      → t < u32_mod
      → name ≢ other
      → Refines s other h msgs
      → Refines (pushed s name t v) other h msgs
  pushed-Refines_ne s name other t h msgs v range ne q = record {
    head_read = ground (arith, q.head_read, slot-pushed s name other t v (label head_label));
    tail_read = ground (arith, q.tail_read, slot-pushed s name other t v (label tail_label));
    in_range = q.in_range;
    held = Holds-pushed_ne s name other t v h msgs range ne q.in_range q.held;
  }

  -- Where the queue's keys fit their bound: while fewer than `queue_capacity` messages wait, and
  -- the position behind the new message is still a `u32`, `push_message` on a claimed name returns
  -- the position behind the last message, and the queue then holds the message behind all others.
  pub push_message-Refines :
      (s : Anchor) (name : H256) (h : ℕ) (msgs : List Bytes) (v : Bytes)
      → HasRoom cfg
      → Refines s name h msgs
      → contains_key s.submitter_by_names name ≡ true
      → length msgs < cfg.queue_capacity
      → h + length msgs + 1 < u32_mod
      → let (r, s') = push_message cfg name v s in
        (r ≡ ok (h + length msgs)) × Refines s' name h (msgs ++ v ∷ [])
  push_message-Refines s name h msgs v fits q claimed room range =
      rw
        (push_message_ok fits name s h (h + length msgs) v q.head_read q.tail_read (omega arith)
          claimed (omega arith))
        (refl, pushed-Refines s name h msgs v q range)

  -- Before the first push a queue is empty.
  pub Refines-empty :
      (s : Anchor) (name : H256)
      → slot cfg s name (label head_label) ≡ none
      → slot cfg s name (label tail_label) ≡ none
      → Refines s name 0 []
  Refines-empty s name head tail = record {
    head_read = rw head refl;
    tail_read = rw tail refl;
    in_range = omega arith;
    held = tt;
  }
