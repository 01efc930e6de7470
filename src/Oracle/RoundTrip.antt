-- ===== src/Oracle/RoundTrip.antt =====
-- A request and its answer: from the feed of an account through the queue of a contract to the feed
-- data.
use paraxiom.Prelude.{
  ℕ, ◌+◌, ◌<◌, ◌≤◌, ◌≡◌, refl, some, List, [], ◌∷◌, ◌++◌, arith, length, drop, nat_beq_iff,
  beq_refl, length-append, nat_eq, list_eq, pair_eq, ap, ◌∙◌,
}
use paraxiom.Frame.{Bytes, H256, AccountId, signed, ok}
use paraxiom.Storage.{get, get-insert}
use paraxiom.Registry.{ApiFeed, active}
use paraxiom.Anchor.State.{Anchor, Config, RollupTx, reply, set_queue_head, u32_mod, Event}
use paraxiom.Anchor.Queue.{push_message, queue_head_set, max_value_bytes}
use paraxiom.Anchor.Keys.{HasRoom}
use paraxiom.Anchor.Slots.{slot}
use paraxiom.Anchor.Fifo.{Holds, Refines, push_message-Refines}
use paraxiom.Anchor.Popped.{popped, queue_head_set_ok}
use paraxiom.Anchor.Pop.{popped-Refines}
use paraxiom.Anchor.Isolation.{push_message-Stays}
use paraxiom.Anchor.Rollup.{Node, rollup, exec_actions, apply_updates}
use paraxiom.Anchor.Transactions.{rollup_met, noted}
use paraxiom.Oracle.State.{Backend, Env, Request, ResponseRecord, request_eq}
use paraxiom.Oracle.Calls.{request, request_id, on_response}
use paraxiom.Oracle.Requests.{payload, made, accepted, request_taken, held_key}
use paraxiom.Oracle.Responses.{answered, exec_reply}

-- The transaction with which a contract takes messages from its queue and replies.
abbrev pub answer : Bytes → Bytes → RollupTx
answer raw_pop raw_reply = record { conds = []; actions = raw_pop ∷ raw_reply ∷ []; updates = [] }

module _ (cfg : Config) (env : Env) where
  exec_answer :
      (who : AccountId) (name : H256) (m : Node Backend) (s : Anchor) (k : ℕ)
      (raw_pop raw_reply bytes : Bytes) (resp : ResponseRecord) (req : Request)
      → cfg.codec.decode_action raw_pop ≡ some (set_queue_head k)
      → queue_head_set cfg name k m.pallet ≡ (ok tt, s)
      → cfg.codec.decode_action raw_reply ≡ some (reply bytes)
      → env.decode_response bytes ≡ some resp
      → resp.phat_contract_id ≡ name
      → get m.app.oracle.feed_requests resp.request_id ≡ some req
      → exec_actions cfg (on_response env) name who (raw_pop ∷ raw_reply ∷ []) m
        ≡ (ok tt, record { pallet = s; app = answered env name who bytes resp m.app req })
  unfolding exec_actions
  exec_answer who name m s k raw_pop raw_reply bytes resp req pop moved act parsed same known =
      ground (
        arith,
        exec_reply cfg env who name (raw_reply ∷ []) (record m { pallet = s }) raw_reply bytes resp
            req refl act parsed same known,
      )

  -- Events are no part of a queue.
  Holds-events :
      (s : Anchor) (events : List Event) (name : H256) (i : ℕ) (msgs : List Bytes)
      → Holds cfg s name i msgs
      → Holds cfg (record s { events = events }) name i msgs
  unfolding slot
  Holds-events s events name i [] h = tt
  Holds-events s events name i (m ∷ msgs) h = (h.0, Holds-events s events name (i + 1) msgs h.1)

  Refines-events :
      (s : Anchor) (events : List Event) (name : H256) (h : ℕ) (msgs : List Bytes)
      → Refines cfg s name h msgs
      → Refines cfg (record s { events = events }) name h msgs
  unfolding slot
  Refines-events s events name h msgs q = record {
    head_read = q.head_read;
    tail_read = q.tail_read;
    in_range = q.in_range;
    held = Holds-events s events name h msgs q.held;
  }

  rollup_taken :
      (owner : AccountId) (name : H256) (n : Node Backend) (h i nonce : ℕ) (msgs : List Bytes)
      (raw_pop raw_reply bytes : Bytes) (resp : ResponseRecord) (req : Request)
      → HasRoom cfg
      → Refines cfg n.pallet name h msgs
      → i ≤ length msgs
      → get n.pallet.submitter_by_names name ≡ some owner
      → cfg.codec.decode_action raw_pop ≡ some (set_queue_head (h + i))
      → cfg.codec.decode_action raw_reply ≡ some (reply bytes)
      → env.decode_response bytes ≡ some resp
      → resp.phat_contract_id ≡ name
      → get n.app.oracle.feed_requests resp.request_id ≡ some req
      → rollup cfg (on_response env) (signed owner) name (answer raw_pop raw_reply) nonce n ≡ (
        ok tt,
        noted cfg (on_response env) owner name nonce (record {
          pallet = popped cfg n.pallet name h (h + i);
          app = answered env name owner bytes resp n.app req;
        }),
      )
  unfolding apply_updates
  rollup_taken owner name n h i nonce msgs raw_pop raw_reply bytes resp req fits q b owned pop act
        parsed same known =
      ground (
        arith,
        rollup_met cfg (on_response env) owner name (answer raw_pop raw_reply) nonce n owned tt,
        exec_answer owner name n (popped cfg n.pallet name h (h + i)) (h + i) raw_pop raw_reply
            bytes resp req pop
            (queue_head_set_ok cfg fits name n.pallet h (h + length msgs) (h + i) q.head_read
              q.tail_read (omega arith) (omega arith) q.in_range)
            act parsed same known,
      )

  -- The owner's answer to a queue: it takes the first messages, and its reply is filed.
  rollup_answered :
      (owner : AccountId) (name : H256) (n : Node Backend) (h i nonce : ℕ) (msgs : List Bytes)
      (raw_pop raw_reply bytes : Bytes) (resp : ResponseRecord) (req : Request)
      → HasRoom cfg
      → Refines cfg n.pallet name h msgs
      → i ≤ length msgs
      → get n.pallet.submitter_by_names name ≡ some owner
      → cfg.codec.decode_action raw_pop ≡ some (set_queue_head (h + i))
      → cfg.codec.decode_action raw_reply ≡ some (reply bytes)
      → env.decode_response bytes ≡ some resp
      → resp.phat_contract_id ≡ name
      → get n.app.oracle.feed_requests resp.request_id ≡ some req
      → let (r, n') =
          rollup cfg (on_response env) (signed owner) name (answer raw_pop raw_reply) nonce n in
        (r ≡ ok tt)
        × Refines cfg n'.pallet name (h + i) (drop i msgs)
        × (get n'.app.oracle.feed_data (owner, req) ≡ some resp.response_data)
  rollup_answered owner name n h i nonce msgs raw_pop raw_reply bytes resp req fits q b owned pop
        act parsed same known =
      rw
        (rollup_taken owner name n h i nonce msgs raw_pop raw_reply bytes resp req fits q b owned
          pop act parsed same known)
        (
          refl,
          Refines-events (popped cfg n.pallet name h (h + i)) _ name (h + i) (drop i msgs)
              (popped-Refines cfg n.pallet name h i msgs q b),
          ground (
            arith,
            get-insert n.app.oracle.feed_data (owner, req) (owner, req) resp.response_data,
            beq_refl {A = AccountId × Request} (owner, req),
          ),
        )

  -- Where the queue's keys fit their bound, and the queue of the last claimed name has room: after
  -- an account's request for its active feed, the owner of that name answers by a transaction that
  -- takes the first `i` messages from the queue, the request's being the last of all, and replies
  -- with a response for the request's id in the name of the contract. The transaction succeeds, the
  -- queue holds the messages that are left, and the response is the owner's feed data for exactly
  -- the request that was made.
  pub request_answered :
      (who owner : AccountId) (key : Bytes) (nonce nonce' : ℕ) (n : Node Backend) (feed : ApiFeed)
      (name : H256) (h i : ℕ) (msgs : List Bytes) (raw_pop raw_reply bytes : Bytes)
      (resp : ResponseRecord)
      → get n.app.registry.api_feeds (who, key) ≡ some feed
      → feed.status ≡ active
      → length (payload cfg env nonce feed) ≤ max_value_bytes
      → env.last_key n.pallet.submitter_by_names ≡ some name
      → get n.pallet.submitter_by_names name ≡ some owner
      → HasRoom cfg
      → Refines cfg n.pallet name h msgs
      → length msgs < cfg.queue_capacity
      → h + length msgs + 1 < u32_mod
      → i ≤ length msgs + 1
      → cfg.codec.decode_action raw_pop ≡ some (set_queue_head (h + i))
      → cfg.codec.decode_action raw_reply ≡ some (reply bytes)
      → env.decode_response bytes ≡ some resp
      → resp.phat_contract_id ≡ name
      → resp.request_id ≡ request_id env nonce
      → let n' = (request cfg env (signed who) key nonce n).1 in
        let (r, n'') =
          rollup cfg (on_response env) (signed owner) name (answer raw_pop raw_reply) nonce' n' in
        (r ≡ ok tt)
        × Refines cfg n''.pallet name (h + i) (drop i (msgs ++ payload cfg env nonce feed ∷ []))
        × (get n''.app.oracle.feed_data (owner, made cfg env key who nonce feed)
            ≡ some resp.response_data)
  request_answered who owner key nonce nonce' n feed name h i msgs raw_pop raw_reply bytes resp
        found act small last owned fits q room range few pop reply_act parsed same for_request =
      let message = payload cfg env nonce feed in
      let s = (push_message cfg name message n.pallet).1 in
      let pushed =
        push_message-Refines cfg n.pallet name h msgs message fits q
          (held_key cfg env n.pallet.submitter_by_names name last) room range in
      let still =
        ap (λ m. get m name) ((push_message-Stays name cfg message).moves n.pallet).owners
        ∙ owned in
      let m = accepted cfg env who key nonce feed n s in
      let stored : get m.app.oracle.feed_requests (request_id env nonce)
          ≡ some (made cfg env key who nonce feed) =
        ground (
          arith,
          get-insert n.app.oracle.feed_requests (request_id env nonce) (request_id env nonce)
              (made cfg env key who nonce feed),
          nat_beq_iff (request_id env nonce) (request_id env nonce),
        ) in
      rw
        (request_taken cfg env who key nonce n feed name (h + length msgs) s found act small last
          (λ j. (pushed.0 j, s)))
        (rollup_answered owner name m h i nonce' (msgs ++ message ∷ []) raw_pop raw_reply bytes resp
          (made cfg env key who nonce feed) fits pushed.1
          (omega (arith, length-append msgs (message ∷ []))) still pop reply_act parsed same
          (ap (get m.app.oracle.feed_requests) for_request ∙ stored))
