-- ===== src/Tests/Codec.antt =====
-- A codec as the anchor assumes it: four bytes, the lowest first, and a tag before an action.
use paraxiom.Prelude.{
  ℕ, zero, suc, ◌+◌, ◌*◌, ◌/◌, ◌%◌, ◌<◌, ◌≡◌, refl, Option, none, some, [], ◌∷◌, arith, length, ap,
}
use paraxiom.Frame.{Bytes}
use paraxiom.Anchor.State.{Codec, Config, Action, reply, set_queue_head, u32_mod}
use paraxiom.Runtime.{runtime_config}
use mathlib.Core.Option

abbrev pub encode_u32 : ℕ → Bytes
encode_u32 n = (n % 256) ∷ (n / 256 % 256) ∷ (n / 65536 % 256) ∷ (n / 16777216 % 256) ∷ []

abbrev pub decode_u32 : Bytes → Option ℕ
decode_u32 (a ∷ b ∷ c ∷ d ∷ []) = some (a + 256 * b + 65536 * c + 16777216 * d)
decode_u32 _ = none

abbrev decode_action : Bytes → Option Action
decode_action (zero ∷ bytes) = some (reply bytes)
decode_action (suc zero ∷ bytes) = Option.map set_queue_head (decode_u32 bytes)
decode_action _ = none

pub decode-encode_u32 : (n : ℕ) → n < u32_mod → decode_u32 (encode_u32 n) ≡ some n
decode-encode_u32 n h = ap some (omega arith)

pub length-encode_u32 : (n : ℕ) → length (encode_u32 n) ≡ 4
length-encode_u32 n = refl

pub encode_array_lem : (bytes : Bytes) → bytes ≡ bytes
encode_array_lem bytes = refl

abbrev pub codec : Codec
codec = record {
  encode_u32 = encode_u32;
  decode_u32 = decode_u32;
  encode_array = λ bytes. bytes;
  decode_action = decode_action;
  length-encode_u32 = length-encode_u32;
  decode-encode_u32 = decode-encode_u32;
  encode_array_lem = encode_array_lem;
}

abbrev pub config : Config
config = runtime_config codec
