-- ===== src/Tests/Phat.antt =====
-- The contracts at concrete states.
use paraxiom.Prelude.{
  ℕ, ◌≡◌, refl, Option, none, some, List, [], ◌∷◌, arith, nat_eq, list_eq, pair_eq,
}
use paraxiom.Frame.{Bytes, AccountId, signed}
use paraxiom.Frame as Frame
use paraxiom.Storage.{get, insert, empty, get-insert, get-empty, contains_key_lem}
use paraxiom.Attempt.{ok, err}
use paraxiom.Anchor.State as Anchor
use paraxiom.Anchor.Rollup.{claim_name}
use paraxiom.Oracle.State.{Backend, Request, ResponseRecord, request_eq}
use paraxiom.Oracle.Calls.{on_response}
use paraxiom.Registry as Registry
use paraxiom.Phat.Feed.{
  PhatOracleFeed, Rollup, RequestRecord, Claim, configure, transfer_ownership, maybe_init_rollup,
  respond, price_bytes,
}
use paraxiom.Phat.Feed as Feed
use paraxiom.Phat.Access.{Step-same, transfers, maybe_init_rollup-claim_name, on_response-respond}
use paraxiom.Phat.Factory.{
  World, Host, Deployment, PhatOracle, deploy_price_feed, get_deployments, deployment, decode_all,
}
use paraxiom.Phat.Factory as Factory
use paraxiom.Phat.Deployments.{deploy_price_feed_lem}
use paraxiom.Tests.Oracle.{env}

Step-same_example : (transfer_ownership 9 9 (Feed.default 4)).1 ≡ Feed.default 4
unfolding Feed.default
Step-same_example = Step-same (transfers 9 9 (Feed.default 4)) (omega arith)

abbrev key : Bytes
key =
    1 ∷ 2 ∷ 3 ∷ 4 ∷ 5 ∷ 6 ∷ 7 ∷ 8 ∷ 1 ∷ 2 ∷ 3 ∷ 4 ∷ 5 ∷ 6 ∷ 7 ∷ 8 ∷ 1 ∷ 2 ∷ 3 ∷ 4 ∷ 5 ∷ 6 ∷ 7 ∷ 8
    ∷ 1 ∷ 2 ∷ 3 ∷ 4 ∷ 5 ∷ 6 ∷ 7 ∷ 8 ∷ []

-- A chain on which account 7 owns every name; account `n` is encoded as `n`, and so is its public key.
abbrev rollup : Rollup
rollup = record {
  Client = List Bytes;
  Submittable = List Bytes;
  get_name_owner = λ rpc id. some (some 7);
  claim_name = λ rpc pallet_id id key. some key;
  get_public_key = λ key. key;
  encode_account = λ account. account ∷ [];
  encode_response = λ r. r.contract_id ∷ r.request_id ∷ r.response_data;
  decode_request = λ bytes. none;
  create_client = λ rpc pallet_id id prefix. some [];
  pop = λ client. some none;
  reply = λ bytes client. bytes ∷ client;
  commit = λ client. some (some client);
  submit = λ s key nonce. some key;
}

abbrev configured : PhatOracleFeed
configured = record {
  owner = 4;
  config = some (record { rpc = []; pallet_id = 100; submit_key = 7 ∷ [] });
}

claimed-here :
    rollup.get_name_owner [] 1
    ≡ some (get (claim_name (signed 7) 1 Anchor.genesis).1.submitter_by_names 1)
unfolding claim_name
claimed-here = ground (
  arith,
  contains_key_lem Anchor.genesis.submitter_by_names 1,
  get-empty {K = ℕ} {V = AccountId} 1,
  get-insert Anchor.genesis.submitter_by_names 1 1 7,
)

maybe_init_rollup-claim_name_example : maybe_init_rollup rollup 1 configured ≡ (ok none, [])
maybe_init_rollup-claim_name_example =
    maybe_init_rollup-claim_name rollup 1 configured
      (record { rpc = []; pallet_id = 100; submit_key = 7 ∷ [] }) 7 Anchor.genesis refl
      (get-empty 1) claimed-here refl

abbrev asked : Request
asked = record { registry_feed_key = []; caller = 5; nonce = 0; requested_data = [] }

abbrev backend : Backend
backend = record {
  registry = Registry.genesis;
  oracle = record { feed_data = empty; feed_requests = insert empty 9 asked; events = [] };
}

abbrev as_written : Bytes → Option ResponseRecord
as_written (contract_id ∷ request_id ∷ bytes) = some (record {
  owner = 4;
  phat_contract_id = contract_id;
  request_id = request_id;
  response_data = bytes;
  timestamp_ms = 50;
})
as_written _ = none

abbrev request : RequestRecord
request = record { request_id = 9; url = []; path = [] }

on_response-respond_example :
    let (r, b') =
      on_response
        (record env { decode_response = as_written })
        1
        7
        (rollup.encode_response (respond rollup 1 50 request configured))
        backend in
    (r ≡ Frame.ok tt) × (get b'.oracle.feed_data (7, asked) ≡ some (price_bytes 16))
on_response-respond_example =
    on_response-respond rollup 1 (record env { decode_response = as_written }) 50 request configured
      7 backend asked refl (get-insert {K = ℕ} empty 9 9 asked)

-- The factory at account 2, whose feeds get the account 3 and accept its call of `config`.
abbrev decode : Bytes → Option Deployment
decode (owner ∷ contract_id ∷ created_at ∷ expired_at ∷ name) = some (record {
  name = name;
  owner = owner;
  contract_id = contract_id;
  created_at = created_at;
  expired_at = expired_at;
})
decode _ = none

abbrev encode : Deployment → Bytes
encode d = d.owner ∷ d.contract_id ∷ d.created_at ∷ d.expired_at ∷ d.name

decode-encode : (d : Deployment) → decode (encode d) ≡ some d
decode-encode d = refl

abbrev host : Host
host = record {
  factory_id = 2;
  instantiate = λ code salt. some 3;
  config_feed = λ caller rpc pallet_id submit_key token0 token1 feed.
      configure caller rpc pallet_id submit_key feed;
  encode_u32 = λ n. n ∷ [];
  encode = encode;
  decode = decode;
  decode-encode = decode-encode;
}

abbrev world : World
world = record {
  factory = record {
    owner = 4;
    config = some (record { rpc = []; pallet_id = 100; submit_key = key; price_feed_code = 8 });
    deployments = [];
    num_deployed = 0;
  };
  feeds = empty;
}

deployed : (deploy_price_feed host 6 50 [] [] [] world).0 ≡ ok 3
unfolding deploy_price_feed configure transfer_ownership Feed.default Feed.ensure_owner
    Factory.ensure_configured
deployed = refl

no_deployments : get_deployments host world.factory ≡ ok []
unfolding get_deployments decode_all
no_deployments = refl

deploy_price_feed_lem_example :
    let w' = (deploy_price_feed host 6 50 [] [] [] world).1 in
    ((feed : PhatOracleFeed) × (feed.owner ≡ 6) × (get w'.feeds 3 ≡ some feed))
    × (get_deployments host w'.factory ≡ ok (deployment host 6 50 [] 3 ∷ []))
deploy_price_feed_lem_example =
    deploy_price_feed_lem host 6 50 [] [] [] world 3 3 [] deployed no_deployments

unconfigured :
    (deploy_price_feed host 6 50 [] [] [] (record { factory = Factory.default 4; feeds = empty })).0
    ≡ err Factory.not_configured
unfolding deploy_price_feed Factory.ensure_configured Factory.default
unconfigured = refl
