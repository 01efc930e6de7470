-- ===== src/Tests/Oracle.antt =====
-- The registry and the oracle at concrete states.
use paraxiom.Prelude.{
  ap, ◌∙◌, ℕ, ◌≡◌, refl, Option, none, some, [], ◌∷◌, ◌++◌, ◌⊎◌, arith, length, nat_eq, list_eq,
  pair_eq, list_beq,
}
use paraxiom.Frame.{Bytes, AccountId, signed, ok, err}
use paraxiom.Errors.{oracle, failed_to_get_api_feed, api_feed_not_active}
use paraxiom.Storage.{
  get, insert, empty, get-insert, some_key, some_key-insert, no_key_lem, key_held_lem,
}
use paraxiom.Registry.{
  Registry, ApiFeed, active, registered, is_active, register_feed, unregister_feed,
  feed_unregistered,
}
use paraxiom.Anchor.State.{RollupTx}
use paraxiom.Anchor.Rollup.{Node, rollup}
use paraxiom.Anchor.Fifo.{Refines}
use paraxiom.Oracle.State.{Request, ResponseRecord, Backend, Env, Oracle, request_eq, request_beq}
use paraxiom.Oracle.Calls.{request, request_id, on_response}
use paraxiom.Oracle.Requests.{payload, made, request_ok}
use paraxiom.Anchor.Fifo.{push_message-Refines}
use paraxiom.Anchor.Isolation.{push_message-Stays}
use paraxiom.Tests.Anchor.{claimed-contains}
use paraxiom.Oracle.Responses.{response_delivered}
use paraxiom.Oracle.RoundTrip.{request_answered, answer}
use paraxiom.Oracle.Collisions.{request_stored, request_overwritten}
use paraxiom.Oracle.Requests.{request_taken}
use paraxiom.Anchor.Queue.{push_message}
use paraxiom.Runtime.{genesis, start, next, dispatch}
use paraxiom.Runtime.Calls.{Call}
use paraxiom.Runtime.Reachable.{request_refused}
use paraxiom.Runtime.Feeds.{dispatch_isolated}
use paraxiom.Tests.Codec.{codec, config}
use paraxiom.Tests.Anchor.{claimed, claimed-Refines}
use paraxiom.Registry as Registry
use paraxiom.Oracle.State as State

abbrev decode_response : Bytes → Option ResponseRecord
decode_response (name ∷ id ∷ bytes) = some (record {
  owner = 0;
  phat_contract_id = name;
  request_id = id;
  response_data = bytes;
  timestamp_ms = 0;
})
decode_response _ = none

abbrev pub env : Env
env = record {
  block_number = 1;
  encoded_random_seed = 42 ∷ [];
  random = λ seed. length seed;
  encode_request = λ id url path. id ∷ url ++ path;
  decode_response = decode_response;
  last_key = some_key;
  last_key_none = no_key_lem;
  last_key_some = key_held_lem;
}

abbrev feed_key : Bytes
feed_key = 1 ∷ []

abbrev feed : ApiFeed
feed = record { started_at = 0; url = 2 ∷ []; path = 3 ∷ []; status = active }

-- Account 5 has an active feed, and name 1 is claimed.
abbrev ready : Node Backend
ready = record {
  pallet = claimed;
  app = record {
    registry = record { api_feeds = insert empty (5, feed_key) feed; events = [] };
    oracle = State.genesis;
  };
}

ready-feed : get ready.app.registry.api_feeds (5, feed_key) ≡ some feed
unfolding list_beq
ready-feed = get-insert {K = AccountId × Bytes} empty (5, feed_key) (5, feed_key) feed

request_ok_example :
    let (r, n') = request config env (signed 5) feed_key 0 ready in
    (r ≡ ok tt)
    × Refines config n'.pallet 1 0 (payload config env 0 feed ∷ [])
    × (get n'.app.oracle.feed_requests (request_id env 0)
        ≡ some (made config env feed_key 5 0 feed))
unfolding payload request_id
request_ok_example =
    request_ok config env 5 feed_key 0 ready feed 1 0 [] ready-feed refl (omega arith)
      (some_key-insert {K = ℕ} empty 1 7) (omega arith) claimed-Refines (omega arith) (omega arith)

-- A request of account 5 is stored under the id 9.
abbrev asked : Request
asked = record { registry_feed_key = feed_key; caller = 5; nonce = 0; requested_data = [] }

abbrev waiting : Node Backend
waiting = record {
  pallet = claimed;
  app = record {
    registry = Registry.genesis;
    oracle = record { feed_data = empty; feed_requests = insert empty 9 asked; events = [] };
  };
}

abbrev response : ResponseRecord
response = record {
  owner = 0;
  phat_contract_id = 1;
  request_id = 9;
  response_data = 77 ∷ [];
  timestamp_ms = 0;
}

abbrev replying : RollupTx
replying = record { conds = []; actions = (0 ∷ 1 ∷ 9 ∷ 77 ∷ []) ∷ []; updates = [] }

response_delivered_example :
    let (r, n') = rollup config (on_response env) (signed 7) 1 replying 0 waiting in
    (r ≡ ok tt) × (get n'.app.oracle.feed_data (7, asked) ≡ some (77 ∷ []))
unfolding list_beq
response_delivered_example =
    response_delivered config env 7 1 replying 0 waiting (0 ∷ 1 ∷ 9 ∷ 77 ∷ []) (1 ∷ 9 ∷ 77 ∷ [])
      response asked 7 asked (get-insert {K = ℕ} empty 1 1 7) tt refl refl refl refl
      (get-insert {K = ℕ} empty 9 9 asked)

abbrev registered_node : Node Backend
registered_node =
    (dispatch codec env (signed 5) (Call.register_feed feed_key (2 ∷ []) (3 ∷ [])) genesis).1

request_refused_example :
    (request config env (signed 5) feed_key 0 registered_node
      ≡ (err (oracle failed_to_get_api_feed), registered_node))
    ⊎ (request config env (signed 5) feed_key 0 registered_node
        ≡ (err (oracle api_feed_not_active), registered_node))
request_refused_example =
    request_refused codec env 5 feed_key 0
      (next env (signed 5) (Call.register_feed feed_key (2 ∷ []) (3 ∷ [])) start)

-- Account 5 asks twice in one block.
abbrev after_one : Node Backend
after_one = (request config env (signed 5) feed_key 0 ready).1

after_one-feed : get after_one.app.registry.api_feeds (5, feed_key) ≡ some feed
after_one-feed =
    rw (request_stored config env 5 feed_key 0 ready feed ready-feed (request_ok_example.0)).1
      ready-feed

after_one-last : some_key after_one.pallet.submitter_by_names ≡ some 1
unfolding payload request_id
after_one-last =
    let message = payload config env 0 feed in
    let pushed =
      push_message-Refines config claimed 1 0 [] message (omega arith) claimed-Refines
        claimed-contains (omega arith) (omega arith) in
    let s = (push_message config 1 message claimed).1 in
    let taken =
      request_taken config env 5 feed_key 0 ready feed 1 0 s ready-feed refl (omega arith)
        (some_key-insert {K = ℕ} empty 1 7) (λ i. (pushed.0 i, s)) in
    ap (λ result. some_key result.1.pallet.submitter_by_names) taken
    ∙ ap some_key ((push_message-Stays 1 config message).moves claimed).owners
    ∙ some_key-insert {K = ℕ} empty 1 7

request_overwritten_example :
    let n'' = (request config env (signed 5) feed_key 1 after_one).1 in
    (get after_one.app.oracle.feed_requests (request_id env 0)
      ≡ some (made config env feed_key 5 0 feed))
    × (get n''.app.oracle.feed_requests (request_id env 0)
        ≡ some (made config env feed_key 5 1 feed))
unfolding payload request_id
request_overwritten_example =
    request_overwritten config env 5 5 feed_key feed_key 0 1 ready feed feed ready-feed ready-feed
      request_ok_example.0
      (request_ok config env 5 feed_key 1 after_one feed 1 0 (payload config env 0 feed ∷ [])
        after_one-feed refl (omega arith) after_one-last (omega arith) request_ok_example.1
        (omega arith) (omega arith)).0

-- The owner of name 1 takes the request of account 5 from the queue and replies with 77.
abbrev answering : ResponseRecord
answering = record response { request_id = 1 }

request_answered_example :
    let n' = (request config env (signed 5) feed_key 0 ready).1 in
    let (r, n'') =
      rollup config
        (on_response env)
        (signed 7)
        1
        (answer (1 ∷ 1 ∷ 0 ∷ 0 ∷ 0 ∷ []) (0 ∷ 1 ∷ 1 ∷ 77 ∷ []))
        0
        n' in
    (r ≡ ok tt)
    × Refines config n''.pallet 1 1 []
    × (get n''.app.oracle.feed_data (7, made config env feed_key 5 0 feed) ≡ some (77 ∷ []))
unfolding payload request_id
request_answered_example =
    request_answered config env 5 7 feed_key 0 0 ready feed 1 0 1 [] (1 ∷ 1 ∷ 0 ∷ 0 ∷ 0 ∷ [])
      (0 ∷ 1 ∷ 1 ∷ 77 ∷ []) (1 ∷ 1 ∷ 77 ∷ []) answering ready-feed refl (omega arith)
      (some_key-insert {K = ℕ} empty 1 7) (get-insert {K = ℕ} empty 1 1 7) (omega arith)
      claimed-Refines (omega arith) (omega arith) (omega arith) refl refl refl refl refl

-- Account 6 unregisters a feed under the key of account 5's.
dispatch_isolated_example :
    let n = (dispatch codec env (signed 6) (Call.unregister_feed feed_key) registered_node).1 in
    get n.app.registry.api_feeds (5, feed_key)
    ≡ get registered_node.app.registry.api_feeds (5, feed_key)
dispatch_isolated_example =
    dispatch_isolated codec env (signed 6) (Call.unregister_feed feed_key) registered_node 5
      feed_key (λ e. cc)
