-- ===== src/Phat/Deployments.antt =====
-- What the factory deploys, and what it says of it.
use paraxiom.Prelude.{
  ℕ, ◌≡◌, refl, Option, none, some, List, [], ◌∷◌, ◌++◌, arith, nat_eq, list_eq, nat_beq,
  if◌then◌else◌, Bool-cases, inl, inr, sym, ap, ◌∙◌,
}
use paraxiom.Frame.{Bytes, AccountId}
use paraxiom.Storage.{get, insert, get-insert}
use paraxiom.Attempt.{Attempt, ok, err, panic, and_then_ok}
use paraxiom.Phat.Feed.{PhatOracleFeed, transfer_ownership}
use paraxiom.Phat.Feed as Feed
use paraxiom.Phat.Factory.{
  Deployment, World, Host, Error, ensure_configured, kept, or_error, instantiated, deployment,
  recorded, deploy_price_feed, joined, decode_all, get_deployments,
}

joined_cases :
    (o : Option Deployment) (rest : Attempt Error (List Deployment)) (ds : List Deployment)
    → joined o rest ≡ ok ds
    → (d : Deployment) × (ds' : List Deployment) × (o ≡ some d) × (rest ≡ ok ds') × (ds ≡ d ∷ ds')
joined_cases none rest ds h = cc
joined_cases (some d) (ok ds') ds h = (d, ds', refl, refl, (cc))
joined_cases (some d) (err e) ds h = cc
joined_cases (some d) panic ds h = cc

kept_ok :
    {S A : Type 0} (s : S) (m : Attempt Error (A × S)) (a : A)
    → (kept s m).0 ≡ ok a
    → (s' : S) × (m ≡ ok (a, s')) × ((kept s m).1 ≡ s')
kept_ok s (ok (a', s')) a h = (s', (cc), refl)
kept_ok s (err e) a h = cc
kept_ok s panic a h = cc

module _ (host : Host) where
  decode_all_cons :
      (b : Bytes) (bytes : List Bytes)
      → decode_all host (b ∷ bytes) ≡ joined (host.decode b) (decode_all host bytes)
  unfolding decode_all
  decode_all_cons b bytes = refl

  decode_all_end : (d : Deployment) → decode_all host (host.encode d ∷ []) ≡ ok (d ∷ [])
  unfolding decode_all
  decode_all_end d = ap (λ o. joined o (ok [])) (host.decode-encode d)

  decode_all_nil : (ds : List Deployment) → decode_all host [] ≡ ok ds → ds ≡ []
  unfolding decode_all
  decode_all_nil ds h = cc

  decode_all-append :
      (bytes : List Bytes) (ds : List Deployment) (d : Deployment)
      → decode_all host bytes ≡ ok ds
      → decode_all host (bytes ++ host.encode d ∷ []) ≡ ok (ds ++ d ∷ [])
  decode_all-append [] ds d h = rw (decode_all_nil ds h) (decode_all_end d)
  decode_all-append (b ∷ bytes) ds d h =
      let (d', ds', e, rest, split) =
        joined_cases (host.decode b) (decode_all host bytes) ds
          (sym (decode_all_cons b bytes) ∙ h) in
      decode_all_cons b (bytes ++ host.encode d ∷ [])
      ∙ ap (λ o. joined o (decode_all host (bytes ++ host.encode d ∷ []))) e
      ∙ ap (λ r. joined (some d') r) (decode_all-append bytes ds' d rest)
      ∙ ap (λ l. ok (l ++ d ∷ [])) (sym split)

  transfer_ownership_ok :
      (by caller : AccountId) (feed after : PhatOracleFeed)
      → or_error Error.failed_to_transfer_ownership (transfer_ownership by caller feed) ≡ ok after
      → after.owner ≡ caller
  unfolding transfer_ownership Feed.ensure_owner
  transfer_ownership_ok by caller feed after h = elim (Bool-cases (nat_beq by feed.owner)) [
    | inl own ↦ ground arith
    | inr other ↦ ground arith
  ]

  -- The world after a deployment of `feed`.
  abbrev world_with : AccountId → ℕ → Bytes → World → AccountId → PhatOracleFeed → World
  world_with caller block_timestamp name w contract_id feed = record {
    factory = recorded host caller block_timestamp name contract_id w.factory;
    feeds = insert w.feeds contract_id feed;
  }

  deployed_world :
      (caller : AccountId) (block_timestamp : ℕ) (name token0 token1 : Bytes) (w : World)
      (contract_id : AccountId)
      → (deploy_price_feed host caller block_timestamp name token0 token1 w).0 ≡ ok contract_id
      → (feed : PhatOracleFeed) × ((deploy_price_feed host caller block_timestamp name token0 token1
            w).1
          ≡ world_with caller block_timestamp name w contract_id feed)
        × (feed.owner ≡ caller)
  unfolding deploy_price_feed
  deployed_world caller block_timestamp name token0 token1 w contract_id h =
      let (w', made, is) = kept_ok w _ contract_id h in
      let (config, e0, rest0) =
        and_then_ok (ensure_configured w.factory) _ (contract_id, w') made in
      let (id, e1, rest1) =
        and_then_ok (instantiated host config w.factory) _ (contract_id, w') rest0 in
      let (configured, e2, rest2) =
        and_then_ok
          (or_error Error.failed_to_config_contract (
            host.config_feed host.factory_id config.rpc config.pallet_id config.submit_key token0
              token1 (Feed.default host.factory_id)))
          _ (contract_id, w') rest1 in
      let (feed, e3, rest3) =
        and_then_ok
          (or_error Error.failed_to_transfer_ownership
            (transfer_ownership host.factory_id caller configured))
          _ (contract_id, w') rest2 in
      let (same, world) =
        split id contract_id (world_with caller block_timestamp name w id feed) w' rest3 in
      (
        feed,
        is ∙ sym world ∙ ap (λ c. world_with caller block_timestamp name w c feed) same,
        transfer_ownership_ok host.factory_id caller configured feed e3,
      )
    where
      split :
          (id contract_id : AccountId) (v w' : World)
          → (let a : Attempt Error (AccountId × World) = ok (id, v) in a ≡ ok (contract_id, w'))
          → (id ≡ contract_id) × (v ≡ w')
      split id contract_id v w' h = ((cc), (cc))

  -- A deployment that succeeds, by a factory whose list can be read, puts a feed that its caller
  -- owns at the account that it returns and leaves the feeds of all other accounts as they were;
  -- the factory then lists the deployments that it listed before with the new one behind them,
  -- which expires an hour after it was made (in wrapping `u64`).
  pub deploy_price_feed_lem :
      (caller : AccountId) (block_timestamp : ℕ) (name token0 token1 : Bytes) (w : World)
      (contract_id other : AccountId) (ds : List Deployment)
      → (deploy_price_feed host caller block_timestamp name token0 token1 w).0 ≡ ok contract_id
      → get_deployments host w.factory ≡ ok ds
      → let w' = (deploy_price_feed host caller block_timestamp name token0 token1 w).1 in
        ((feed : PhatOracleFeed) × (feed.owner ≡ caller)
          × (get w'.feeds other
              ≡ (if nat_beq contract_id other then some feed else get w.feeds other)))
        × (get_deployments host w'.factory
            ≡ ok (ds ++ deployment host caller block_timestamp name contract_id ∷ []))
  unfolding get_deployments
  deploy_price_feed_lem caller block_timestamp name token0 token1 w contract_id other ds h listed =
      let (feed, is, own) =
        deployed_world caller block_timestamp name token0 token1 w contract_id h in
      rw is (
        (feed, own, get-insert w.feeds contract_id other feed),
        decode_all-append w.factory.deployments ds
            (deployment host caller block_timestamp name contract_id) listed,
      )

  kept_err :
      {S A : Type 0} (s : S) (m : Attempt Error (A × S)) (e : Error)
      → (kept s m).0 ≡ err e
      → (kept s m).1 ≡ s
  kept_err s (ok (a, s')) e h = cc
  kept_err s (err f) e h = refl
  kept_err s panic e h = cc

  -- A deployment that fails, at whatever point, leaves the factory and all feeds as they were.
  pub deploy_price_feed_atomic :
      (caller : AccountId) (block_timestamp : ℕ) (name token0 token1 : Bytes) (w : World)
      (e : Error)
      → (deploy_price_feed host caller block_timestamp name token0 token1 w).0 ≡ err e
      → (deploy_price_feed host caller block_timestamp name token0 token1 w).1 ≡ w
  unfolding deploy_price_feed
  deploy_price_feed_atomic caller block_timestamp name token0 token1 w e h = kept_err w _ e h
