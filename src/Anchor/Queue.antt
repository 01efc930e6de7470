-- ===== src/Anchor/Queue.antt =====
-- The message queue of anchor.rs: `push_message` and the queue's helpers.
use paraxiom.Prelude.{
  ℕ, zero, suc, ◌+◌, ◌-◌, ◌%◌, ◌&&◌, Option, none, some, [], ◌∷◌, ◌++◌, length, leb, ltb,
  if◌then◌else◌, nat_eq, list_eq, pair_eq,
}
use paraxiom.Errors.{anchor, name_not_exist, queue_is_full, invalid_queue_head}
use paraxiom.Frame.{
  Bytes, H256, Outcome, ok, panic, Exec, pure, lift, gets, expect, ensure, modify, ◌>>=◌, ◌>>◌,
}
use paraxiom.Storage.{get, insert, remove, contains_key}
use paraxiom.Anchor.State.{Anchor, Config, Index, at, label, u32_mod}

-- `b"_head"` and `b"_tail"`
abbrev pub head_label : Bytes
head_label = b'_' ∷ b'h' ∷ b'e' ∷ b'a' ∷ b'd' ∷ []

abbrev pub tail_label : Bytes
tail_label = b'_' ∷ b't' ∷ b'a' ∷ b'i' ∷ b'l' ∷ []

abbrev pub max_key_bytes : ℕ
max_key_bytes = 128

abbrev pub max_value_bytes : ℕ
max_value_bytes = 2048

-- `try_into().expect(..)` into a bounded vector
abbrev pub bounded : ℕ → Bytes → Outcome Bytes
bounded limit bytes = if leb (length bytes) limit then ok bytes else panic

module _ (cfg : Config) where
  open cfg use {codec, queue_prefix, queue_capacity}

  abbrev pub encode_index : Index → Bytes
  encode_index (at i) = codec.encode_u32 i
  encode_index (label bytes) = codec.encode_array bytes

  unfoldable pub queue_key : Index → Outcome Bytes
  queue_key index = bounded max_key_bytes (queue_prefix ++ encode_index index)

  unfoldable pub queue_set : H256 → Index → Bytes → Exec Anchor Unit
  queue_set name index value = do
    key ← lift (queue_key index)
    modify (λ s. record s { states = insert s.states (name, key) value })

  unfoldable pub queue_get : H256 → Index → Exec Anchor (Option Bytes)
  queue_get name index = do key ← lift (queue_key index); gets (λ s. get s.states (name, key))

  unfoldable pub queue_remove : H256 → Index → Exec Anchor Unit
  queue_remove name index = do
    key ← lift (queue_key index)
    modify (λ s. record s { states = remove s.states (name, key) })

  -- `Ok(0)` for a missing value, else what the bytes decode to; `none` is the decoding error
  abbrev pub decoded : Option Bytes → Option ℕ
  decoded none = some 0
  decoded (some bytes) = codec.decode_u32 bytes

  unfoldable pub queue_get_u32 : H256 → Bytes → Exec Anchor (Option ℕ)
  queue_get_u32 name index = do bytes ← queue_get name (label index); pure (decoded bytes)

  unfoldable pub queue_set_u32 : H256 → Bytes → ℕ → Exec Anchor Unit
  queue_set_u32 name index value = do
    bytes ← lift (bounded max_value_bytes (codec.encode_u32 value))
    queue_set name (label index) bytes

  unfoldable pub queue_head : H256 → Exec Anchor ℕ
  queue_head name = do index ← queue_get_u32 name head_label; expect index

  unfoldable pub queue_tail : H256 → Exec Anchor ℕ
  queue_tail name = do index ← queue_get_u32 name tail_label; expect index

  -- `saturating_sub`
  unfoldable pub queue_len : H256 → Exec Anchor ℕ
  queue_len name = do tail ← queue_tail name; head ← queue_head name; pure (tail - head)

  unfoldable pub queue_tail_set : H256 → ℕ → Exec Anchor Unit
  queue_tail_set name index = queue_set_u32 name tail_label index

  -- `for i in head..index`, with the rounds that are left
  unfoldable pub queue_remove_from : H256 → ℕ → ℕ → Exec Anchor Unit
  queue_remove_from name i zero = pure tt
  queue_remove_from name i (suc rounds) =
      queue_remove name (at i) >> queue_remove_from name (i + 1) rounds

  unfoldable pub queue_head_set : H256 → ℕ → Exec Anchor Unit
  queue_head_set name index = do
    head ← queue_head name
    tail ← queue_tail name
    ensure (leb head index && leb index tail) (anchor invalid_queue_head)
    queue_remove_from name head (index - head)
    queue_set_u32 name head_label index

  -- `end + 1` is computed in `u32`
  unfoldable pub push_message : H256 → Bytes → Exec Anchor ℕ
  push_message name value = do
    claimed ← gets (λ s. contains_key s.submitter_by_names name)
    ensure claimed (anchor name_not_exist)
    len ← queue_len name
    ensure (ltb len queue_capacity) (anchor queue_is_full)
    end ← queue_tail name
    queue_set name (at end) value
    queue_tail_set name ((end + 1) % u32_mod)
    pure end
