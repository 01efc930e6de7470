-- ===== src/Oracle/Requests.antt =====
-- Requests reach the queue of a rollup, and responses reach the feed data.
use paraxiom.Prelude.{
  ℕ, ◌+◌, ◌<◌, ◌≤◌, ◌≡◌, refl, true, some, List, [], ◌∷◌, ◌++◌, arith, nat_beq_iff, length, nat_eq,
  list_eq, pair_eq,
}
use paraxiom.Frame.{Bytes, H256, AccountId, signed, ok}
use paraxiom.Storage.{StorageMap, get, insert, get-insert, contains_key, contains_key_lem}
use paraxiom.Registry.{is_active_status, ApiFeed, active}
use paraxiom.Anchor.State.{Anchor, Config, u32_mod}
use paraxiom.Anchor.Queue.{push_message, max_value_bytes}
use paraxiom.Anchor.Keys.{HasRoom}
use paraxiom.Anchor.Fifo.{Refines, push_message-Refines}
use paraxiom.Anchor.Rollup.{Node}
use paraxiom.Oracle.State.{Request, oracle_request, Backend, Env, request_eq}
use paraxiom.Oracle.Calls.{request, request_id}

module _ (cfg : Config) (env : Env) where
  -- The message that stands for a request in the queue.
  unfoldable pub payload : ℕ → ApiFeed → Bytes
  payload nonce feed = env.encode_request (request_id env nonce) feed.url feed.path

  abbrev pub made : Bytes → AccountId → ℕ → ApiFeed → Request
  made key who nonce feed = record {
    registry_feed_key = key;
    caller = who;
    nonce = nonce;
    requested_data = payload nonce feed;
  }

  pub held_key :
      (m : StorageMap H256 AccountId) (name : H256)
      → env.last_key m ≡ some name
      → contains_key m name ≡ true
  held_key m name last = ground (arith, contains_key_lem m name, env.last_key_some m name last)

  -- The state after a request whose message the anchor `s` has taken.
  abbrev pub accepted : AccountId → Bytes → ℕ → ApiFeed → Node Backend → Anchor → Node Backend
  accepted who key nonce feed n s = record {
    pallet = s;
    app = record n.app {
      oracle = record n.app.oracle {
        feed_requests =
            insert n.app.oracle.feed_requests (request_id env nonce) (made key who nonce feed);
        events = n.app.oracle.events ++ oracle_request who (request_id env nonce) key ∷ [];
      };
    };
  }

  module _ (who : AccountId) (key : Bytes) (nonce : ℕ) (n : Node Backend) (feed : ApiFeed)
      (name : H256) where
    pub request_taken :
        (t : ℕ) (s : Anchor)
        → get n.app.registry.api_feeds (who, key) ≡ some feed
        → feed.status ≡ active
        → length (payload nonce feed) ≤ max_value_bytes
        → env.last_key n.pallet.submitter_by_names ≡ some name
        → push_message cfg name (payload nonce feed) n.pallet ≡ (ok t, s)
        → request cfg env (signed who) key nonce n ≡ (ok tt, accepted who key nonce feed n s)
    unfolding request payload is_active_status
    request_taken t s found act fits last taken = ground arith

  -- Where the queue's keys fit their bound: a request for the caller's active feed, whose message
  -- fits a value, is taken if the queue of the last claimed name holds fewer messages than its
  -- capacity and its positions stay `u32`s: the message stands behind all others of that queue,
  -- and the request is found under its id.
  pub request_ok :
      (who : AccountId) (key : Bytes) (nonce : ℕ) (n : Node Backend) (feed : ApiFeed) (name : H256)
      (h : ℕ) (msgs : List Bytes)
      → get n.app.registry.api_feeds (who, key) ≡ some feed
      → feed.status ≡ active
      → length (payload nonce feed) ≤ max_value_bytes
      → env.last_key n.pallet.submitter_by_names ≡ some name
      → HasRoom cfg
      → Refines cfg n.pallet name h msgs
      → length msgs < cfg.queue_capacity
      → h + length msgs + 1 < u32_mod
      → let (r, n') = request cfg env (signed who) key nonce n in
        (r ≡ ok tt)
        × Refines cfg n'.pallet name h (msgs ++ payload nonce feed ∷ [])
        × (get n'.app.oracle.feed_requests (request_id env nonce) ≡ some (made key who nonce feed))
  request_ok who key nonce n feed name h msgs found act fits last room q cap range =
      let pushed =
        push_message-Refines cfg n.pallet name h msgs (payload nonce feed) room q
          (held_key n.pallet.submitter_by_names name last) cap range in
      let s = (push_message cfg name (payload nonce feed) n.pallet).1 in
      rw
        (request_taken who key nonce n feed name (h + length msgs) s found act fits last
          (λ i. (pushed.0 i, s)))
        (
          refl,
          pushed.1,
          ground (
            arith,
            get-insert n.app.oracle.feed_requests (request_id env nonce) (request_id env nonce)
                (made key who nonce feed),
            nat_beq_iff (request_id env nonce) (request_id env nonce),
          ),
        )
