-- ===== src/Anchor/Slots.antt =====
-- What the queue's helpers do to the slots of a name, the cells under its queue keys.
use paraxiom.Prelude.{
  ℕ, ◌≡◌, refl, ◌&&◌, Option, none, some, arith, nat_beq, list_eq, pair_eq, nat_eq, if◌then◌else◌,
  length,
}
use paraxiom.Frame.{Bytes, H256, ok}
use paraxiom.Storage.{get, insert, remove, get-insert, get-remove}
use paraxiom.Anchor.State.{Anchor, Config, Index, label}
use paraxiom.Anchor.Keys.{IsIndex, HasRoom, key_of, index_beq, list_beq-key_of, queue_key_lem}
use paraxiom.Anchor.Queue.{
  queue_set, queue_get, queue_remove, queue_get_u32, queue_set_u32, decoded, queue_head, queue_tail,
  head_label, tail_label,
}

module _ (cfg : Config) where
  unfoldable pub slot : Anchor → H256 → Index → Option Bytes
  slot s name x = get s.states (name, key_of cfg x)

  pub put : Anchor → H256 → Index → Bytes → Anchor
  put s name x v = record s { states = insert s.states (name, key_of cfg x) v }

  pub erase : Anchor → H256 → Index → Anchor
  erase s name x = record s { states = remove s.states (name, key_of cfg x) }

  pub put-owners :
      (s : Anchor) (name : H256) (x : Index) (v : Bytes)
      → (put s name x v).submitter_by_names ≡ s.submitter_by_names
  unfolding put
  put-owners s name x v = refl

  pub erase-owners :
      (s : Anchor) (name : H256) (x : Index)
      → (erase s name x).submitter_by_names ≡ s.submitter_by_names
  unfolding erase
  erase-owners s name x = refl

  pub slot-put :
      (s : Anchor) (name other : H256) (x y : Index) (v : Bytes)
      → IsIndex x
      → IsIndex y
      → slot (put s name x v) other y
        ≡ (if nat_beq name other && index_beq x y then some v else slot s other y)
  unfolding slot put
  slot-put s name other x y v p q = rw (get-insert, list_beq-key_of cfg x y p q)

  pub slot-erase :
      (s : Anchor) (name other : H256) (x y : Index)
      → IsIndex x
      → IsIndex y
      → slot (erase s name x) other y
        ≡ (if nat_beq name other && index_beq x y then none else slot s other y)
  unfolding slot erase
  slot-erase s name other x y p q = rw (get-remove, list_beq-key_of cfg x y p q)

  module _ (fits : HasRoom cfg) (name : H256) (s : Anchor) where
    pub queue_set_lem :
        (x : Index) (v : Bytes) → IsIndex x → queue_set cfg name x v s ≡ (ok tt, put s name x v)
    unfolding queue_set put
    queue_set_lem x v p = rw (queue_key_lem cfg x fits p)

    pub queue_get_lem : (x : Index) → IsIndex x → queue_get cfg name x s ≡ (ok (slot s name x), s)
    unfolding queue_get slot
    queue_get_lem x p = rw (queue_key_lem cfg x fits p)

    pub queue_remove_lem :
        (x : Index) → IsIndex x → queue_remove cfg name x s ≡ (ok tt, erase s name x)
    unfolding queue_remove erase
    queue_remove_lem x p = rw (queue_key_lem cfg x fits p)

    pub queue_set_u32_lem :
        (l : Bytes) (n : ℕ)
        → length l ≡ 5
        → queue_set_u32 cfg name l n s ≡ (ok tt, put s name (label l) (cfg.codec.encode_u32 n))
    unfolding queue_set_u32
    queue_set_u32_lem l n p =
        rw (cfg.codec.length-encode_u32 n) (queue_set_lem (label l) (cfg.codec.encode_u32 n) p)

    pub queue_head_lem :
        (h : ℕ)
        → decoded cfg (slot s name (label head_label)) ≡ some h
        → queue_head cfg name s ≡ (ok h, s)
    unfolding queue_head queue_get_u32
    queue_head_lem h e = ground (arith, queue_get_lem (label head_label) refl)

    pub queue_tail_lem :
        (t : ℕ)
        → decoded cfg (slot s name (label tail_label)) ≡ some t
        → queue_tail cfg name s ≡ (ok t, s)
    unfolding queue_tail queue_get_u32
    queue_tail_lem t e = ground (arith, queue_get_lem (label tail_label) refl)
