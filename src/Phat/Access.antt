-- ===== src/Phat/Access.antt =====
-- Who may change a feed contract, and how it claims its name at the anchor and answers the oracle.
use paraxiom.Prelude.{
  ℕ, ◌≡◌, ◌≢◌, refl, Option, none, some, [], ◌∷◌, arith, ◌==◌, nat_eq, list_eq, pair_eq, nat_beq,
  nat_beq_iff, length, if◌then◌else◌, Bool-cases, Option-cases, inl, inr, ◌∙◌, beq_refl,
}
use mathlib.Core.Path.{subst}
use paraxiom.Frame as Frame
use paraxiom.Frame.{Bytes, H256, AccountId, signed, Origin}
use paraxiom.Storage.{get, get-insert, contains_key_lem}
use paraxiom.Attempt.{ok, err}
use paraxiom.Phat.Feed.{
  PhatOracleFeed, Config, Error, rollup_configured_by_another_account, default, ensure_owner,
  configure, transfer_ownership, Rollup, maybe_init_rollup, ensure_configured, RequestRecord,
  respond, price_bytes,
}
use paraxiom.Anchor.State.{Anchor}
use paraxiom.Anchor.Rollup.{claim_name}
use paraxiom.Oracle.State.{Env, Backend, Request, request_eq}
use paraxiom.Oracle.Calls.{on_response}
use paraxiom.Oracle.Responses.{on_response_ok}

-- The messages of a feed contract that may change it, by their callers.
pub data Step : AccountId → PhatOracleFeed → PhatOracleFeed → Type 0 where
  configures :
      (caller : AccountId) (rpc : Bytes) (pallet_id : ℕ) (submit_key : Bytes) (s : PhatOracleFeed)
      → Step caller s (configure caller rpc pallet_id submit_key s).1
  transfers :
      (caller new_owner : AccountId) (s : PhatOracleFeed)
      → Step caller s (transfer_ownership caller new_owner s).1

pub data Reach (deployer : AccountId) : PhatOracleFeed → Type 0 where
  start : Reach deployer (default deployer)
  next :
      {s t : PhatOracleFeed} {caller : AccountId}
      → Reach deployer s
      → Step caller s t
      → Reach deployer t

-- The stored key, if there is one, has 32 bytes.
abbrev KeyFits : Option Config → Type 0
KeyFits none = Unit
KeyFits (some config) = length config.submit_key ≡ 32

Step-KeyFits :
    {caller : AccountId} {s t : PhatOracleFeed}
    → Step caller s t
    → KeyFits s.config
    → KeyFits t.config
unfolding configure transfer_ownership ensure_owner
Step-KeyFits (configures caller rpc pallet_id submit_key s) h =
    elim (Bool-cases (nat_beq caller s.owner)) [
      | inl own ↦ elim (Bool-cases (nat_beq (length submit_key) 32)) [
        | inl fits ↦ rw (own, fits) ((nat_beq_iff (length submit_key) 32).0 fits)
        | inr bad ↦ rw (own, bad) h
      ]
      | inr other ↦ rw other h
    ]
Step-KeyFits (transfers caller new_owner s) h = elim (Bool-cases (nat_beq caller s.owner)) [
  | inl own ↦ rw own h
  | inr other ↦ rw other h
]

Reach-KeyFits : {deployer : AccountId} {s : PhatOracleFeed} → Reach deployer s → KeyFits s.config
unfolding default
Reach-KeyFits start = tt
Reach-KeyFits (next r st) = Step-KeyFits st (Reach-KeyFits r)

key_length :
    (o : Option Config) (config : Config)
    → o ≡ some config
    → KeyFits o
    → length config.submit_key ≡ 32
key_length none config e h = cc
key_length (some c) config e h =
    let same : c ≡ config = cc in subst (λ x. length x.submit_key ≡ 32) same h

-- A call of `config` or `transfer_ownership` by anyone but the contract's owner changes nothing.
pub Step-same :
    {caller : AccountId} {s t : PhatOracleFeed} → Step caller s t → caller ≢ s.owner → t ≡ s
unfolding configure transfer_ownership ensure_owner
Step-same (configures caller rpc pallet_id submit_key s) other =
    ground (arith, nat_beq_iff caller s.owner)
Step-same (transfers caller new_owner s) other = ground (arith, nat_beq_iff caller s.owner)

-- In every state that calls of `config` and `transfer_ownership` reach from a new contract, a
-- configured submit key has 32 bytes.
pub Reach-submit_key :
    (deployer : AccountId) (s : PhatOracleFeed) (config : Config)
    → Reach deployer s
    → s.config ≡ some config
    → length config.submit_key ≡ 32
Reach-submit_key deployer s config r e = key_length s.config config e (Reach-KeyFits r)

module _ (rollup : Rollup) (contract_id : AccountId) where
  -- A configured contract whose name the chain reports as owned sends nothing: it returns
  -- `Ok(None)` if the owner's encoding is the public key of its submit key, and refuses otherwise.
  -- One whose name is reported as free sends exactly one claim, for its own name with its own key,
  -- and returns the claim's transaction, or an error if the claim cannot be sent.
  pub maybe_init_rollup_lem :
      (s : PhatOracleFeed) (config : Config) (found : Option AccountId)
      → s.config ≡ some config
      → rollup.get_name_owner config.rpc contract_id ≡ some found
      → maybe_init_rollup rollup contract_id s ≡ elim found [
        | none ↦ (
          elim (rollup.claim_name config.rpc config.pallet_id contract_id config.submit_key) [
            | none ↦ err Error.failed_to_claim_name
            | some tx_id ↦ ok (some tx_id)
          ],
          (config.rpc, config.pallet_id, contract_id, config.submit_key) ∷ [],
        )
        | some owner ↦ (
          if rollup.encode_account owner == rollup.get_public_key config.submit_key
              then ok none
              else err rollup_configured_by_another_account,
          [],
        )
      ]
  unfolding maybe_init_rollup ensure_configured
  maybe_init_rollup_lem s config none e found =
      rw (e, found)
        (elim (Option-cases
          (rollup.claim_name config.rpc config.pallet_id contract_id config.submit_key)) [
            | inl failed ↦ rw failed refl
            | inr (tx_id, sent) ↦ rw sent refl
          ])
  maybe_init_rollup_lem s config (some owner) e found = rw (e, found) refl

  -- After an account whose encoding is the public key of the contract's submit key has claimed the
  -- contract's name, which was free, a configured contract that reads the anchor's owners sends no
  -- further claim and returns `Ok(None)`.
  pub maybe_init_rollup-claim_name :
      (s : PhatOracleFeed) (config : Config) (submitter : AccountId) (a : Anchor)
      → s.config ≡ some config
      → get a.submitter_by_names contract_id ≡ none
      → (let a' = (claim_name (signed submitter) contract_id a).1 in
          rollup.get_name_owner config.rpc contract_id
          ≡ some (get a'.submitter_by_names contract_id))
      → rollup.encode_account submitter ≡ rollup.get_public_key config.submit_key
      → maybe_init_rollup rollup contract_id s ≡ (ok none, [])
  unfolding claim_name
  maybe_init_rollup-claim_name s config submitter a e free reads own =
      let owned : rollup.get_name_owner config.rpc contract_id ≡ some (some submitter) = ground (
        arith,
        contains_key_lem a.submitter_by_names contract_id,
        get-insert a.submitter_by_names contract_id contract_id submitter,
        nat_beq_iff contract_id contract_id,
      ) in
      rw
        (
          maybe_init_rollup_lem s config (some submitter) e owned,
          own,
          beq_refl (rollup.get_public_key config.submit_key),
        )
        refl

  -- The record with which the contract answers a request is accepted by the oracle's handler of
  -- replies under the contract's name, if the two read the encoding alike and the request is known;
  -- the sixteen bytes of the price are then the submitter's feed data for the request.
  pub on_response-respond :
      (env : Env) (block_timestamp : ℕ) (request : RequestRecord) (s : PhatOracleFeed)
      (submitter : AccountId) (b : Backend) (req : Request)
      → (let r = respond rollup contract_id block_timestamp request s in
          env.decode_response (rollup.encode_response r)
          ≡ some (record {
            owner = r.owner;
            phat_contract_id = r.contract_id;
            request_id = r.request_id;
            response_data = r.response_data;
            timestamp_ms = r.timestamp_ms;
          }))
      → get b.oracle.feed_requests request.request_id ≡ some req
      → let (r, b') =
          on_response env contract_id submitter
            (rollup.encode_response (respond rollup contract_id block_timestamp request s))
            b in
        (r ≡ Frame.ok tt) × (get b'.oracle.feed_data (submitter, req) ≡ some (price_bytes 16))
  on_response-respond env block_timestamp request s submitter b req alike known =
      let r = respond rollup contract_id block_timestamp request s in
      rw
        (on_response_ok env contract_id submitter (rollup.encode_response r) _ b req alike refl
          known)
        (
          refl,
          get-insert b.oracle.feed_data (submitter, req) (submitter, req) r.response_data
              ∙ ground (arith, beq_refl {A = AccountId × Request} (submitter, req)),
        )
