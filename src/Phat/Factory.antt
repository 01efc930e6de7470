-- ===== src/Phat/Factory.antt =====
-- phat/contracts/phat_oracle/lib.rs: the factory that deploys feeds, beside the feeds deployed. A
-- message that fails leaves everything as it was; arithmetic wraps, as the contract's profile says.
use paraxiom.Prelude.{
  ℕ, ◌+◌, ◌%◌, ◌^◌, ◌≡◌, Option, none, some, List, [], ◌∷◌, ◌++◌, ◌==◌, nat_eq, list_eq, length,
  nat_beq, if◌then◌else◌,
}
use paraxiom.Frame.{Bytes, H256, AccountId}
use paraxiom.Storage.{StorageMap, insert}
use paraxiom.Attempt.{Attempt, ok, err, panic, and_then}
use paraxiom.Phat.Feed.{PhatOracleFeed, transfer_ownership}
use paraxiom.Phat.Feed as Feed

pub record Config : Type 0 where
  pub rpc : Bytes
  pub pallet_id : ℕ
  pub submit_key : Bytes
  pub price_feed_code : H256

pub record Deployment : Type 0 where
  pub name : Bytes
  pub owner : AccountId
  pub contract_id : AccountId
  pub created_at : ℕ
  pub expired_at : ℕ

pub data Error : Type 0 where
  bad_origin not_configured invalid_key_length failed_to_deploy_contract : Error
  failed_to_config_contract failed_to_transfer_ownership : Error

pub record PhatOracle : Type 0 where
  pub owner : AccountId
  pub config : Option Config
  pub deployments : List Bytes
  pub num_deployed : ℕ

-- The factory, and the feeds at their accounts.
pub record World : Type 0 where
  pub factory : PhatOracle
  pub feeds : StorageMap AccountId PhatOracleFeed

-- The host and the packages. `instantiate` gives the account of a new contract for a code hash and a
-- salt; `config_feed` is the call of a feed's message `config` with the factory's five arguments, by
-- the factory's account; SCALE reads back what it writes.
pub record Host : Type 0 where
  pub factory_id : AccountId
  pub instantiate : H256 → Bytes → Option AccountId
  pub config_feed :
      AccountId
      → Bytes
      → ℕ
      → Bytes
      → Bytes
      → Bytes
      → PhatOracleFeed
      → Attempt Feed.Error Unit × PhatOracleFeed
  pub encode_u32 : ℕ → Bytes
  pub encode : Deployment → Bytes
  pub decode : Bytes → Option Deployment
  pub decode-encode : (d : Deployment) → decode (encode d) ≡ some d

-- The constructor.
unfoldable pub default : AccountId → PhatOracle
default caller = record { owner = caller; config = none; deployments = []; num_deployed = 0 }

unfoldable pub ensure_owner : AccountId → PhatOracle → Attempt Error Unit
ensure_owner caller s = if caller == s.owner then ok tt else err bad_origin

unfoldable pub ensure_configured : PhatOracle → Attempt Error Config
ensure_configured s = elim s.config [ none ↦ err not_configured | some config ↦ ok config ]

abbrev pub key_of : Bytes → Attempt Error Bytes
key_of bytes = if nat_beq (length bytes) 32 then ok bytes else err invalid_key_length

abbrev pub kept : {S A : Type 0} → S → Attempt Error (A × S) → Attempt Error A × S
kept s (ok (a, s')) = (ok a, s')
kept s (err e) = (err e, s)
kept s panic = (panic, s)

-- The message `config`.
unfoldable pub configure :
    AccountId → Bytes → ℕ → Bytes → H256 → PhatOracle → Attempt Error Unit × PhatOracle
unfolding ensure_owner
configure caller rpc pallet_id submit_key price_feed_code s = kept s (
    and_then (ensure_owner caller s) λ _. and_then (key_of submit_key) λ key. ok (
      tt,
      record s {
        config = some (record {
          rpc = rpc;
          pallet_id = pallet_id;
          submit_key = key;
          price_feed_code = price_feed_code;
        });
      },
    ))

unfoldable pub get_config : PhatOracle → Attempt Error (ℕ × H256)
unfolding ensure_configured
get_config s =
    and_then (ensure_configured s) λ config. ok (config.pallet_id, config.price_feed_code)

-- `.or(Err(e))?`
abbrev pub or_error :
    Error → Attempt Feed.Error Unit × PhatOracleFeed → Attempt Error PhatOracleFeed
or_error e (ok _, feed) = ok feed
or_error e (err _, feed) = err e
or_error e (panic, feed) = panic

abbrev pub joined :
    Option Deployment → Attempt Error (List Deployment) → Attempt Error (List Deployment)
joined none rest = panic
joined (some deployed) rest = and_then rest λ deployments. ok (deployed ∷ deployments)

module _ (host : Host) where
  abbrev pub instantiated : Config → PhatOracle → Attempt Error AccountId
  instantiated config s =
      elim (host.instantiate config.price_feed_code (host.encode_u32 s.num_deployed)) [
        | none ↦ panic
        | some contract_id ↦ ok contract_id
      ]

  abbrev pub deployment : AccountId → ℕ → Bytes → AccountId → Deployment
  deployment caller block_timestamp name contract_id = record {
    name = name;
    owner = caller;
    contract_id = contract_id;
    created_at = block_timestamp;
    expired_at = (block_timestamp + 3600000) % 2 ^ 64;
  }

  abbrev pub recorded : AccountId → ℕ → Bytes → AccountId → PhatOracle → PhatOracle
  recorded caller block_timestamp name contract_id s = record s {
    deployments =
        s.deployments ++ host.encode (deployment caller block_timestamp name contract_id) ∷ [];
    num_deployed = (s.num_deployed + 1) % 2 ^ 32;
  }

  unfoldable pub deploy_price_feed :
      AccountId → ℕ → Bytes → Bytes → Bytes → World → Attempt Error AccountId × World
  unfolding ensure_configured
  deploy_price_feed caller block_timestamp name token0 token1 w = kept w (
      and_then (ensure_configured w.factory) λ config.
        and_then (instantiated config w.factory) λ contract_id.
          and_then
            (or_error failed_to_config_contract (
              host.config_feed host.factory_id config.rpc config.pallet_id config.submit_key token0
                token1 (Feed.default host.factory_id)))
            λ configured.
              and_then
                (or_error failed_to_transfer_ownership
                  (transfer_ownership host.factory_id caller configured))
                λ deployed. ok (
                  contract_id,
                  record {
                    factory = recorded caller block_timestamp name contract_id w.factory;
                    feeds = insert w.feeds contract_id deployed;
                  },
                ))

  -- `Decode::decode(..).expect(..)` of each deployment
  unfoldable pub decode_all : List Bytes → Attempt Error (List Deployment)
  decode_all [] = ok []
  decode_all (d ∷ ds) = joined (host.decode d) (decode_all ds)

  unfoldable pub get_deployments : PhatOracle → Attempt Error (List Deployment)
  unfolding decode_all
  get_deployments s = decode_all s.deployments
