-- ===== src/Oracle/Calls.antt =====
-- The extrinsics of pallets/oracle/src/lib.rs, and its handler of responses.
use paraxiom.Prelude.{
  ℕ, [], ◌∷◌, ◌++◌, ◌==◌, nat_eq, list_eq, pair_eq, length, leb, if◌then◌else◌, option_eq,
}
use paraxiom.Errors.{
  oracle, failed_to_get_api_feed, api_feed_not_active, failed_to_encode_data,
  failed_to_find_oracle_feeds, failed_to_push_message_to_anchor, failed_to_decode_response,
  failed_to_authenticate_response, failed_to_get_feed_request,
}
use paraxiom.Frame.{
  Bytes, H256, AccountId, Origin, Exec, panic, pure, lift, gets, modify, ensure, ok_or, map_err,
  transactional, ensure_signed, ◌>>=◌, ◌>>◌, raise,
}
use paraxiom.Storage.{get, insert}
use paraxiom.Registry.{is_active_status}
use paraxiom.Anchor.State.{Config}
use paraxiom.Anchor.Queue.{push_message, max_value_bytes}
use paraxiom.Anchor.Rollup.{Node, on_anchor, on_app}
use paraxiom.Oracle.State.{
  Event, oracle_request, response_record_received, Oracle, Backend, Env, request_eq,
}

abbrev pub set_oracle : (Oracle → Oracle) → Exec Backend Unit
set_oracle f = modify (λ b. record b { oracle = f b.oracle })

unfoldable pub deposit_event : Event → Exec Backend Unit
deposit_event event = set_oracle (λ o. record o { events = o.events ++ event ∷ [] })

-- The random seed comes with the nonce in a pair, of which only the seed is encoded.
unfoldable pub request_id : Env → ℕ → H256
request_id env nonce =
    let seed_and_nonce : Bytes × ℕ = (env.encoded_random_seed, nonce) in env.random seed_and_nonce.0

module _ (cfg : Config) (env : Env) where
  unfoldable pub request : Origin → Bytes → ℕ → Exec (Node Backend) Unit
  unfolding deposit_event is_active_status request_id
  request origin registry_feed_key nonce = transactional do
    who ← ensure_signed origin
    found ← gets (λ n. get n.app.registry.api_feeds (who, registry_feed_key))
    api_feed ← ok_or found (oracle failed_to_get_api_feed)
    ensure (is_active_status api_feed.status) (oracle api_feed_not_active)
    let id = request_id env nonce
    let data_raw = env.encode_request id api_feed.url api_feed.path
    payload ←
        (if leb (length data_raw) max_value_bytes
          then pure data_raw
          else raise (oracle failed_to_encode_data))
    on_app (
        set_oracle (λ o. record o {
          feed_requests = insert o.feed_requests id (record {
            registry_feed_key = registry_feed_key;
            caller = who;
            nonce = nonce;
            requested_data = payload;
          });
        }))
    last ← gets (λ n. env.last_key n.pallet.submitter_by_names)
    name ← ok_or last (oracle failed_to_find_oracle_feeds)
    map_err (oracle failed_to_push_message_to_anchor) (on_anchor (push_message cfg name payload))
    on_app (deposit_event (oracle_request who id registry_feed_key))

-- Its arguments are unused.
unfoldable pub feeds : Origin → H256 → Bytes → ℕ → Exec (Node Backend) Unit
feeds origin name payload nonce = transactional do who ← ensure_signed origin; pure tt

-- `todo!`
unfoldable pub average : Origin → Exec (Node Backend) Unit
average origin = do who ← ensure_signed origin; lift panic

-- `OnResponse::on_response`
unfoldable pub on_response : Env → H256 → AccountId → Bytes → Exec Backend Unit
unfolding deposit_event
on_response env name submitter bytes = do
  resp ← ok_or (env.decode_response bytes) (oracle failed_to_decode_response)
  ensure (resp.phat_contract_id == name) (oracle failed_to_authenticate_response)
  found ← gets (λ b. get b.oracle.feed_requests resp.request_id)
  requested_data ← ok_or found (oracle failed_to_get_feed_request)
  set_oracle (λ o. record o {
    feed_data = insert o.feed_data (submitter, requested_data) resp.response_data;
  })
  deposit_event
      (response_record_received submitter name resp.request_id resp.response_data resp.timestamp_ms)
