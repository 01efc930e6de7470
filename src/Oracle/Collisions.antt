-- ===== src/Oracle/Collisions.antt =====
-- Two requests in one block have the same id.
use paraxiom.Prelude.{ℕ, ◌≡◌, some, arith, nat_beq_iff, nat_eq, list_eq, pair_eq}
use paraxiom.Frame.{Bytes, AccountId, signed, ok}
use paraxiom.Storage.{get, get-insert}
use paraxiom.Registry.{is_active_status, ApiFeed}
use paraxiom.Anchor.State.{Config}
use paraxiom.Anchor.Rollup.{Node}
use paraxiom.Oracle.State.{Backend, Env, request_eq}
use paraxiom.Oracle.Calls.{request, request_id}
use paraxiom.Oracle.Requests.{made, payload}

module _ (cfg : Config) (env : Env) where
  -- What an accepted request leaves behind.
  pub request_stored :
      (who : AccountId) (key : Bytes) (nonce : ℕ) (n : Node Backend) (feed : ApiFeed)
      → get n.app.registry.api_feeds (who, key) ≡ some feed
      → (request cfg env (signed who) key nonce n).0 ≡ ok tt
      → let n' = (request cfg env (signed who) key nonce n).1 in
        (get n'.app.oracle.feed_requests (request_id env nonce)
          ≡ some (made cfg env key who nonce feed))
        × (n'.app.registry ≡ n.app.registry)
  unfolding request payload is_active_status
  request_stored who key nonce n feed found accepted = ground (
    arith,
    get-insert n.app.oracle.feed_requests (request_id env nonce) (request_id env nonce)
        (made cfg env key who nonce feed),
    nat_beq_iff (request_id env nonce) (request_id env nonce),
  )

  -- Two requests that are accepted one after the other in a block get the same id, whoever makes
  -- them, for whatever feeds and with whatever nonces: right after the first, its record is found
  -- under its id; after the second, the second's record stands there in its place.
  pub request_overwritten :
      (who who' : AccountId) (key key' : Bytes) (nonce nonce' : ℕ) (n : Node Backend)
      (feed feed' : ApiFeed)
      → get n.app.registry.api_feeds (who, key) ≡ some feed
      → get n.app.registry.api_feeds (who', key') ≡ some feed'
      → (request cfg env (signed who) key nonce n).0 ≡ ok tt
      → (request cfg env (signed who') key' nonce' (request cfg env (signed who) key nonce n).1).0
        ≡ ok tt
      → let n' = (request cfg env (signed who) key nonce n).1 in
        let n'' = (request cfg env (signed who') key' nonce' n').1 in
        (get n'.app.oracle.feed_requests (request_id env nonce)
          ≡ some (made cfg env key who nonce feed))
        × (get n''.app.oracle.feed_requests (request_id env nonce)
            ≡ some (made cfg env key' who' nonce' feed'))
  unfolding request_id
  request_overwritten who who' key key' nonce nonce' n feed feed' found found' first second =
      let n' = (request cfg env (signed who) key nonce n).1 in
      let (stored, same) = request_stored who key nonce n feed found first in
      let still : get n'.app.registry.api_feeds (who', key') ≡ some feed' = rw same found' in
      (stored, (request_stored who' key' nonce' n' feed' still second).0)
