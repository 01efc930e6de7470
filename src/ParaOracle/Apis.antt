-- ===== src/ParaOracle/Apis.antt =====
-- Submitting and removing API feeds.
use paraxiom.Prelude.{
  ℕ, ◌≡◌, refl, none, some, [], ◌∷◌, ◌++◌, ◌&&◌, arith, list_beq, list_beq_iff, list_eq, nat_eq,
  pair_eq, if◌then◌else◌,
}
use paraxiom.Frame.{Bytes, signed, sibling, ok}
use paraxiom.Storage.{get, get-insert, get-remove}
use paraxiom.ParaOracle.State.{
  CreatorId, account_id, para_id, creator_eq, creator_beq, creator_beq_iff, Config, Block, ApiFeed,
  api_feed_removed,
}
use paraxiom.ParaOracle.Calls.{State, do_submit_api, submit_api, remove_api, xcm_remove_api}
use paraxiom.ParaOracle.Creators.{removal, do_remove_api_lem}

abbrev pub submitted : Block → Bytes → Bytes → ApiFeed
submitted block url vpath = record {
  requested_block_number = block.block_number;
  url = some url;
  vpath = some vpath;
}

module _ (cfg : Config) where
  -- Removing is decided by what is stored under the caller's own key alone: the feed there is removed
  -- and noted in the event, or the call fails with `CannotLookup` and changes nothing. The `unwrap`
  -- never panics. It is the same for accounts and for parachains.
  pub remove_api_lem :
      (who para : ℕ) (key : Bytes) (s : State cfg)
      → (remove_api cfg (signed who) key s
          ≡ removal cfg (account_id who) key (get s.api_feeds (account_id who, key)) s)
        × (xcm_remove_api cfg (sibling para) key s
            ≡ removal cfg (para_id para) key (get s.api_feeds (para_id para, key)) s)
  unfolding remove_api xcm_remove_api
  remove_api_lem who para key s =
      (do_remove_api_lem cfg (account_id who) key s, do_remove_api_lem cfg (para_id para) key s)

  -- A submitted feed is found under the account's key, over whatever was there, and every other feed
  -- is as it was; removing it at once succeeds, notes exactly the submitted feed, and leaves nothing
  -- under the key and all other feeds as they were before.
  pub remove_api-submit_api :
      (block : Block) (who : ℕ) (key url vpath : Bytes) (s : State cfg) (d : CreatorId) (k : Bytes)
      → let (r, s') = submit_api cfg block (signed who) key url vpath s in
        let (r', s'') = remove_api cfg (signed who) key s' in
        let here = creator_beq (account_id who) d && list_beq key k in
        (r ≡ ok tt)
        × (get s'.api_feeds (d, k)
            ≡ (if here then some (submitted block url vpath) else get s.api_feeds (d, k)))
        × (r' ≡ ok tt)
        × (s''.events
            ≡ s'.events ++ api_feed_removed (account_id who) key (submitted block url vpath) ∷ [])
        × (get s''.api_feeds (d, k) ≡ (if here then none else get s.api_feeds (d, k)))
  unfolding submit_api do_submit_api
  remove_api-submit_api block who key url vpath s d k =
      let cid = account_id who in
      let feed = submitted block url vpath in
      let s' = (submit_api cfg block (signed who) key url vpath s).1 in
      let stored = get-insert s.api_feeds (cid, key) (cid, key) feed in
      let there = get-insert s.api_feeds (cid, key) (d, k) feed in
      let gone = get-remove s'.api_feeds (cid, key) (d, k) in
      let found : get s'.api_feeds (cid, key) ≡ some feed =
        ground (arith, stored, creator_beq_iff cid cid, list_beq_iff key key) in
      rw ((remove_api_lem who who key s').0, found)
        (refl, there, refl, refl, ground (arith, gone, there))
