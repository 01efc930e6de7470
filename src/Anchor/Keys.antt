-- ===== src/Anchor/Keys.antt =====
-- The queue's keys fit and differ, so that its slots are cells of a store indexed by `Index`.
use paraxiom.Prelude.{
  ℕ, ◌+◌, ◌≤◌, ◌<◌, ◌≡◌, ap, Bool, true, false, ◌↔◌, ◌++◌, arith, length, length-append,
  append_cancel_left, le→leb, nat_beq, nat_beq_iff, list_beq, list_eq, pair_eq, nat_eq,
}
use paraxiom.Frame.{bytes_beq_iff, Bytes, ok}
use paraxiom.Anchor.State.{Config, Index, at, label, u32_mod}
use paraxiom.Anchor.Queue.{encode_index, queue_key, max_key_bytes}

-- The indices that the pallet uses: positions in `u32`, labels of five bytes.
abbrev pub IsIndex : Index → Type 0
IsIndex (at i) = i < u32_mod
IsIndex (label bytes) = length bytes ≡ 5

unfoldable pub index_beq : Index → Index → Bool
index_beq (at i) (at j) = nat_beq i j
index_beq (label a) (label b) = list_beq a b
index_beq (at i) (label b) = false
index_beq (label a) (at j) = false

-- A configuration whose prefix leaves room for the longest index.
abbrev pub HasRoom : Config → Type 0
HasRoom cfg = length cfg.queue_prefix + 5 ≤ max_key_bytes

module _ (cfg : Config) where
  open cfg use {codec, queue_prefix}

  unfoldable pub key_of : Index → Bytes
  key_of index = queue_prefix ++ encode_index cfg index

  encode_u32_injective :
      (i j : ℕ) → i < u32_mod → j < u32_mod → codec.encode_u32 i ≡ codec.encode_u32 j → i ≡ j
  encode_u32_injective i j p q e =
      cc (codec.decode-encode_u32 i p, codec.decode-encode_u32 j q, ap codec.decode_u32 e)

  key_of_injective : (x y : Index) → IsIndex x → IsIndex y → key_of x ≡ key_of y → x ≡ y
  unfolding key_of
  key_of_injective (at i) (at j) p q e =
      ap at (encode_u32_injective i j p q (append_cancel_left queue_prefix e))
  key_of_injective (at i) (label b) p q e = absurd (
      omega (
        arith,
        codec.length-encode_u32 i,
        ap length (codec.encode_array_lem b),
        ap length (
            append_cancel_left queue_prefix {ys = codec.encode_u32 i} {zs = codec.encode_array b}
              e),
      ))
  key_of_injective (label a) (at j) p q e = absurd (
      omega (
        arith,
        codec.length-encode_u32 j,
        ap length (codec.encode_array_lem a),
        ap length (
            append_cancel_left queue_prefix {ys = codec.encode_array a} {zs = codec.encode_u32 j}
              e),
      ))
  key_of_injective (label a) (label b) p q e = cc (
    codec.encode_array_lem a,
    codec.encode_array_lem b,
    append_cancel_left queue_prefix {ys = codec.encode_array a} {zs = codec.encode_array b} e,
  )

  index_beq_iff : (x y : Index) → (index_beq x y ≡ true) ↔ (x ≡ y)
  unfolding index_beq
  index_beq_iff (at i) (at j) = ground (arith, nat_beq_iff i j)
  index_beq_iff (at i) (label b) = ground arith
  index_beq_iff (label a) (at j) = ground arith
  index_beq_iff (label a) (label b) = ground (arith, bytes_beq_iff a b)

  -- Two keys are equal exactly when the indices are.
  pub list_beq-key_of :
      (x y : Index) → IsIndex x → IsIndex y → list_beq (key_of x) (key_of y) ≡ index_beq x y
  list_beq-key_of x y p q = ground (
    arith,
    bytes_beq_iff (key_of x) (key_of y),
    index_beq_iff x y,
    key_of_injective x y p q,
    λ (e : x ≡ y). ap key_of e,
  )

  length-encode_index : (x : Index) → IsIndex x → length (encode_index cfg x) ≤ 5
  length-encode_index (at i) p = omega (arith, codec.length-encode_u32 i)
  length-encode_index (label b) p = omega (arith, ap length (codec.encode_array_lem b))

  -- The key of an index is made without a panic.
  pub queue_key_lem : (x : Index) → HasRoom cfg → IsIndex x → queue_key cfg x ≡ ok (key_of x)
  unfolding queue_key key_of
  queue_key_lem x fits p = rw (
      le→leb (length (queue_prefix ++ encode_index cfg x)) 128
        (omega (arith, length-append queue_prefix (encode_index cfg x), length-encode_index x p)))
