-- ===== src/Oracle/Responses.antt =====
-- A response in a rollup reaches the feed data; what `on_response` refuses.
use paraxiom.Prelude.{
  ℕ, ◌≡◌, ◌≢◌, refl, none, some, List, [], ◌∷◌, ◌++◌, arith, nat_beq, nat_beq_iff, nat_eq, list_eq,
  pair_eq, if◌then◌else◌, All, ◌&&◌,
}
use paraxiom.Errors.{oracle, failed_to_authenticate_response, failed_to_get_feed_request}
use paraxiom.Frame.{Bytes, H256, AccountId, signed, ok, err}
use paraxiom.Storage.{get, insert, get-insert}
use paraxiom.Anchor.State.{Config, RollupTx, reply}
use paraxiom.Anchor.Rollup.{Node, rollup, exec_actions, apply_updates}
use paraxiom.Anchor.Updates.{Meets}
use paraxiom.Anchor.Transactions.{rollup_met, noted, updated}
use paraxiom.Oracle.State.{
  Request, ResponseRecord, response_record_received, Backend, Env, request_eq, request_beq,
}
use paraxiom.Oracle.Calls.{on_response}

module _ (env : Env) (name : H256) (submitter : AccountId) (bytes : Bytes) (resp : ResponseRecord)
    (b : Backend) where
  abbrev pub answered : Request → Backend
  answered req = record b {
    oracle = record b.oracle {
      feed_data = insert b.oracle.feed_data (submitter, req) resp.response_data;
      events =
          b.oracle.events
          ++ response_record_received submitter name resp.request_id resp.response_data
              resp.timestamp_ms
            ∷ [];
    };
  }

  pub on_response_ok :
      (req : Request)
      → env.decode_response bytes ≡ some resp
      → resp.phat_contract_id ≡ name
      → get b.oracle.feed_requests resp.request_id ≡ some req
      → on_response env name submitter bytes b ≡ (ok tt, answered req)
  unfolding on_response
  on_response_ok req parsed same known = ground (arith, nat_beq_iff resp.phat_contract_id name)

  -- A response that names another contract is refused, and one for a request that is not known is
  -- refused too; neither changes anything.
  pub on_response_refused :
      env.decode_response bytes ≡ some resp
      → (resp.phat_contract_id ≢ name
          → on_response env name submitter bytes b
            ≡ (err (oracle failed_to_authenticate_response), b))
        × (resp.phat_contract_id ≡ name
            → get b.oracle.feed_requests resp.request_id ≡ none
            → on_response env name submitter bytes b ≡ (err (oracle failed_to_get_feed_request), b))
  unfolding on_response
  on_response_refused parsed = (
    λ other. ground (arith, nat_beq_iff resp.phat_contract_id name),
    λ same absent. ground (arith, nat_beq_iff resp.phat_contract_id name),
  )

module _ (cfg : Config) (env : Env) where
  pub exec_reply :
      (who : AccountId) (name : H256) (actions : List Bytes) (m : Node Backend) (raw bytes : Bytes)
      (resp : ResponseRecord) (req : Request)
      → actions ≡ raw ∷ []
      → cfg.codec.decode_action raw ≡ some (reply bytes)
      → env.decode_response bytes ≡ some resp
      → resp.phat_contract_id ≡ name
      → get m.app.oracle.feed_requests resp.request_id ≡ some req
      → exec_actions cfg (on_response env) name who actions m
        ≡ (ok tt, record m { app = answered env name who bytes resp m.app req })
  unfolding exec_actions
  exec_reply who name actions m raw bytes resp req one act parsed same known =
      rw one (ground (arith, on_response_ok env name who bytes resp m.app req parsed same known))

  rollup_replied :
      (who : AccountId) (name : H256) (tx : RollupTx) (nonce : ℕ) (n : Node Backend)
      (raw bytes : Bytes) (resp : ResponseRecord) (req : Request)
      → get n.pallet.submitter_by_names name ≡ some who
      → All (Meets n.pallet name) tx.conds
      → tx.actions ≡ raw ∷ []
      → cfg.codec.decode_action raw ≡ some (reply bytes)
      → env.decode_response bytes ≡ some resp
      → resp.phat_contract_id ≡ name
      → get n.app.oracle.feed_requests resp.request_id ≡ some req
      → rollup cfg (on_response env) (signed who) name tx nonce n ≡ (
        ok tt,
        noted cfg
            (on_response env)
            who
            name
            nonce
            (record (updated cfg (on_response env) name tx n) {
              app = answered env name who bytes resp n.app req;
            }),
      )
  rollup_replied who name tx nonce n raw bytes resp req owner met one act parsed same known =
      ground (
        arith,
        rollup_met cfg (on_response env) who name tx nonce n owner met,
        exec_reply who name tx.actions
            (record n { pallet = apply_updates name tx.updates n.pallet }) raw bytes resp req one
            act parsed same known,
      )

  -- The owner's rollup whose conditions hold and whose one action replies with a response to a known
  -- request, in the name of its contract, succeeds; the response is then the owner's feed data for
  -- that request, and the data of every other account and request is as it was.
  pub response_delivered :
      (who : AccountId) (name : H256) (tx : RollupTx) (nonce : ℕ) (n : Node Backend)
      (raw bytes : Bytes) (resp : ResponseRecord) (req : Request) (other : AccountId)
      (old : Request)
      → get n.pallet.submitter_by_names name ≡ some who
      → All (Meets n.pallet name) tx.conds
      → tx.actions ≡ raw ∷ []
      → cfg.codec.decode_action raw ≡ some (reply bytes)
      → env.decode_response bytes ≡ some resp
      → resp.phat_contract_id ≡ name
      → get n.app.oracle.feed_requests resp.request_id ≡ some req
      → let (r, n') = rollup cfg (on_response env) (signed who) name tx nonce n in
        (r ≡ ok tt)
        × (get n'.app.oracle.feed_data (other, old) ≡ (
            if nat_beq who other && request_beq req old
            then some resp.response_data
            else get n.app.oracle.feed_data (other, old)))
  response_delivered who name tx nonce n raw bytes resp req other old owner met one act parsed same
        known =
      rw (rollup_replied who name tx nonce n raw bytes resp req owner met one act parsed same known)
        (refl, get-insert n.app.oracle.feed_data (who, req) (other, old) resp.response_data)
