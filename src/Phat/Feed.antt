-- ===== src/Phat/Feed.antt =====
-- phat/contracts/phat_oracle_feed/lib.rs. A message is a function of who calls it and of the contract's
-- storage. The rollup client, SCALE and the contract's key pairs are packages.
use paraxiom.Prelude.{
  ℕ, zero, suc, Option, none, some, List, [], ◌∷◌, ◌==◌, nat_eq, list_eq, length, nat_beq,
  if◌then◌else◌,
}
use paraxiom.Frame.{Bytes, H256, AccountId}
use paraxiom.Attempt.{Attempt, ok, err, and_then}

pub record Config : Type 0 where
  pub rpc : Bytes
  pub pallet_id : ℕ
  pub submit_key : Bytes

pub record PhatOracleFeed : Type 0 where
  pub owner : AccountId
  pub config : Option Config

pub record RequestRecord : Type 0 where
  pub request_id : H256
  pub url : Bytes
  pub path : Bytes

pub record ResponseRecord : Type 0 where
  pub owner : AccountId
  pub contract_id : AccountId
  pub request_id : H256
  pub response_data : Bytes
  pub timestamp_ms : ℕ

pub data Error : Type 0 where
  bad_origin not_configured invalid_key_length failed_to_create_client : Error
  failed_to_commit_tx failed_to_fetch_price failed_to_get_name_owner failed_to_claim_name : Error
  failed_to_get_storage failed_to_create_transaction failed_to_send_transaction : Error
  failed_to_get_block_hash failed_to_decode rollup_already_initialized : Error
  rollup_configured_by_another_account : Error

abbrev pub or_error : {A : Type 0} → Error → Option A → Attempt Error A
or_error e none = err e
or_error e (some a) = ok a

-- The constructor, called by the account that deploys the contract.
unfoldable pub default : AccountId → PhatOracleFeed
default caller = record { owner = caller; config = none }

unfoldable pub ensure_owner : AccountId → PhatOracleFeed → Attempt Error Unit
ensure_owner caller s = if caller == s.owner then ok tt else err bad_origin

unfoldable pub ensure_configured : PhatOracleFeed → Attempt Error Config
ensure_configured s = or_error not_configured s.config

-- `submit_key.try_into()` into 32 bytes
abbrev pub key_of : Bytes → Attempt Error Bytes
key_of bytes = if nat_beq (length bytes) 32 then ok bytes else err invalid_key_length

-- The state that a message leaves: a failed one has written nothing before it fails.
abbrev pub kept :
    PhatOracleFeed → Attempt Error PhatOracleFeed → Attempt Error Unit × PhatOracleFeed
kept s (ok s') = (ok tt, s')
kept s (err e) = (err e, s)
kept s Attempt.panic = (Attempt.panic, s)

-- The message `config`.
unfoldable pub configure :
    AccountId → Bytes → ℕ → Bytes → PhatOracleFeed → Attempt Error Unit × PhatOracleFeed
unfolding ensure_owner
configure caller rpc pallet_id submit_key s = kept s (
    and_then (ensure_owner caller s) λ _. and_then (key_of submit_key) λ key.
      ok (record s {
        config = some (record { rpc = rpc; pallet_id = pallet_id; submit_key = key });
      }))

unfoldable pub transfer_ownership :
    AccountId → AccountId → PhatOracleFeed → Attempt Error Unit × PhatOracleFeed
unfolding ensure_owner
transfer_ownership caller new_owner s =
    kept s (and_then (ensure_owner caller s) λ _. ok (record s { owner = new_owner }))

-- `get_name_owner` gives no answer if the look-up fails. `claim_name` and `submit` give the id of the
-- transaction that they send. A client carries the actions attached to it, encoded.
pub record Rollup : Type 1 where
  pub Client : Type 0
  pub Submittable : Type 0
  pub get_name_owner : Bytes → AccountId → Option (Option AccountId)
  pub claim_name : Bytes → ℕ → AccountId → Bytes → Option Bytes
  pub get_public_key : Bytes → Bytes
  pub encode_account : AccountId → Bytes
  pub encode_response : ResponseRecord → Bytes
  pub decode_request : Bytes → Option (Bytes × Bytes × Bytes)
  pub create_client : Bytes → ℕ → AccountId → Bytes → Option Client
  pub pop : Client → Option (Option Bytes)
  pub reply : Bytes → Client → Client
  pub commit : Client → Option (Option Submittable)
  pub submit : Submittable → Bytes → ℕ → Option Bytes

-- `u128::MAX.to_le_bytes()` is the value 255, sixteen times.
unfoldable pub price_bytes : ℕ → Bytes
price_bytes zero = []
price_bytes (suc n) = 255 ∷ price_bytes n

module _ (rollup : Rollup) (contract_id : AccountId) where
  -- What is sent besides the result: the arguments of `claim_name`.
  abbrev pub Claim : Type 0
  Claim = Bytes × ℕ × AccountId × Bytes

  abbrev claim : Config → Attempt Error (Option Bytes) × List Claim
  claim config = (
    and_then
        (or_error failed_to_claim_name
          (rollup.claim_name config.rpc config.pallet_id contract_id config.submit_key))
        λ tx_id. ok (some tx_id),
    (config.rpc, config.pallet_id, contract_id, config.submit_key) ∷ [],
  )

  abbrev by_owner : Config → Option (Option AccountId) → Attempt Error (Option Bytes) × List Claim
  by_owner config none = (err failed_to_get_name_owner, [])
  by_owner config (some none) = claim config
  by_owner config (some (some owner)) = (
    if rollup.encode_account owner == rollup.get_public_key config.submit_key
        then ok none
        else err rollup_configured_by_another_account,
    [],
  )

  abbrev with_config : Attempt Error Config → Attempt Error (Option Bytes) × List Claim
  with_config (ok config) = by_owner config (rollup.get_name_owner config.rpc contract_id)
  with_config (err e) = (err e, [])
  with_config Attempt.panic = (Attempt.panic, [])

  unfoldable pub maybe_init_rollup : PhatOracleFeed → Attempt Error (Option Bytes) × List Claim
  unfolding ensure_configured
  maybe_init_rollup s = with_config (ensure_configured s)

  -- `b"q/"`
  abbrev pub queue_prefix : Bytes
  queue_prefix = b'q' ∷ b'/' ∷ []

  abbrev pub new_client : Config → Attempt Error rollup.Client
  new_client config =
      or_error failed_to_create_client
        (rollup.create_client config.rpc config.pallet_id contract_id queue_prefix)

  abbrev decode_next : Option Bytes → Attempt Error Unit
  decode_next none = ok tt
  decode_next (some raw) =
      and_then (or_error failed_to_decode (rollup.decode_request raw)) λ next_decoded. ok tt

  unfoldable pub process_queue_request : PhatOracleFeed → Attempt Error Unit
  unfolding ensure_configured
  process_queue_request s = and_then (ensure_configured s) λ config.
      and_then (new_client config) λ client.
        and_then (or_error failed_to_decode (rollup.pop client))
          λ next_request. decode_next next_request

  abbrev pub respond : ℕ → RequestRecord → PhatOracleFeed → ResponseRecord
  respond block_timestamp request s = record {
    owner = s.owner;
    contract_id = contract_id;
    request_id = request.request_id;
    response_data = price_bytes 16;
    timestamp_ms = block_timestamp;
  }

  abbrev submit_if : Config → Option rollup.Submittable → Attempt Error (Option Bytes)
  submit_if config none = ok none
  submit_if config (some submittable) =
      and_then (or_error failed_to_send_transaction (rollup.submit submittable config.submit_key 0))
        λ tx_id. ok (some tx_id)

  unfoldable pub feed_request : ℕ → RequestRecord → PhatOracleFeed → Attempt Error (Option Bytes)
  unfolding ensure_configured price_bytes
  feed_request block_timestamp request s = and_then (ensure_configured s) λ config.
      and_then (new_client config) λ client.
        let answered =
          rollup.reply (rollup.encode_response (respond block_timestamp request s)) client in
        and_then (or_error failed_to_commit_tx (rollup.commit answered))
          λ maybe_submittable. submit_if config maybe_submittable
