-- ===== src/ParaOracle/Creators.antt =====
-- What belongs to a creator: its API feeds and its raw values.
use paraxiom.Prelude.{
  ◌≡◌, ◌≢◌, refl, Option, none, some, List, [], ◌∷◌, ◌++◌, arith, list_eq, nat_eq, pair_eq,
  Bool-cases, inl, inr, Option-cases,
}
use paraxiom.Prelude.Int.{ℤ}
use paraxiom.Errors.{cannot_lookup}
use paraxiom.Frame.{Bytes, Origin, signed, sibling, ok, err, Exec}
use paraxiom.Storage.{get, remove, get-insert, get-remove, contains_key_lem}
use paraxiom.ParaOracle.Combine.{TimestampedValue}
use paraxiom.ParaOracle.State.{
  CreatorId, account_id, para_id, creator_eq, creator_beq_iff, Config, Block, ApiFeed,
  api_feed_removed,
}
use paraxiom.ParaOracle.Calls.{
  State, feed, feed_data, store_values, store_raw, store_combined, combined, xcm_feed_data,
  xcm_query_data, do_submit_api, submit_api, do_remove_api, remove_api, xcm_submit_api,
  xcm_remove_api,
}
use paraxiom.ParaOracle.Dispatched.{
  Step, feeds, xcm_feeds, queries, submits, xcm_submits, removes, xcm_removes,
}
use paraxiom.ParaOracle.Feeding.{store_values_raw, feed_new, feed_refused}

-- On whose behalf a call is made, if it is signed or comes from a parachain.
abbrev pub acts_as : Origin → Option CreatorId
acts_as (signed who) = some (account_id who)
acts_as (sibling para) = some (para_id para)
acts_as _ = none

module _ (cfg : Config) where
  -- The creator's feed and raw value under a key stay as they are.
  record Untouched (c : CreatorId) (k : Bytes) (s t : State cfg) : Type 0 where
    feeds_same : get t.api_feeds (c, k) ≡ get s.api_feeds (c, k)
    values_same : get t.raw_values (c, k) ≡ get s.raw_values (c, k)

  store_values_feeds :
      (block : Block) (cid : CreatorId) (values : List (Bytes × ℤ)) (s : State cfg)
      → (store_values cfg block cid values s).api_feeds ≡ s.api_feeds
  unfolding store_values
  store_values_feeds block cid [] s = refl
  store_values_feeds block cid ((key, value) ∷ values) s =
      let stored = store_raw cfg block cid (key, value) s in
      let v = combined cfg block key stored in
      cc (store_values_feeds block cid values (store_combined cfg key v stored), same key v stored)
    where
      same :
          (key : Bytes) (v : Option TimestampedValue) (s : State cfg)
          → (store_combined cfg key v s).api_feeds ≡ s.api_feeds
      same key none s = refl
      same key (some v) s = refl

  feed-Untouched :
      (block : Block) (cid c : CreatorId) (k : Bytes) (values : List (Bytes × ℤ)) (s : State cfg)
      → cid ≢ c
      → Untouched c k s (feed cfg block cid values s).1
  feed-Untouched block cid c k values s ne =
      elim (Bool-cases (cfg.set.insert cid s.has_dispatched).0) [
        | inl new ↦
            let entered : State cfg = record s {
              has_dispatched = (cfg.set.insert cid s.has_dispatched).1;
            } in
            rw (feed_new cfg block cid values s new) (record {
              feeds_same = cc (store_values_feeds block cid values entered);
              values_same =
                  ground (
                    arith,
                    store_values_raw cfg block cid c k values entered,
                    creator_beq_iff cid c,
                  );
            })
        | inr old ↦
            rw (feed_refused cfg block cid values s old)
              (record { feeds_same = refl; values_same = refl })
      ]

  do_submit_api-Untouched :
      (block : Block) (cid c : CreatorId) (key url vpath k : Bytes) (s : State cfg)
      → cid ≢ c
      → Untouched c k s (do_submit_api cfg block cid key url vpath s).1
  unfolding do_submit_api
  do_submit_api-Untouched block cid c key url vpath k s ne = record {
    feeds_same = ground (
      arith,
      get-insert s.api_feeds (cid, key) (c, k)
          (record {
            requested_block_number = block.block_number;
            url = some url;
            vpath = some vpath;
          }),
      creator_beq_iff cid c,
    );
    values_same = refl;
  }

  -- The state after an API feed of a creator is removed.
  abbrev pub removed : CreatorId → Bytes → ApiFeed → State cfg → State cfg
  removed cid key api_feed s = record s {
    api_feeds = remove s.api_feeds (cid, key);
    events = s.events ++ api_feed_removed cid key api_feed ∷ [];
  }

  abbrev pub removal : CreatorId → Bytes → Option ApiFeed → Exec (State cfg) Unit
  removal cid key none s = (err cannot_lookup, s)
  removal cid key (some api_feed) s = (ok tt, removed cid key api_feed s)

  pub do_remove_api_lem :
      (cid : CreatorId) (key : Bytes) (s : State cfg)
      → do_remove_api cfg cid key s ≡ removal cid key (get s.api_feeds (cid, key)) s
  unfolding do_remove_api
  do_remove_api_lem cid key s = elim (Option-cases (get s.api_feeds (cid, key))) [
    | inl absent ↦ ground (arith, contains_key_lem s.api_feeds (cid, key))
    | inr (api_feed, e) ↦ ground (arith, contains_key_lem s.api_feeds (cid, key))
  ]

  do_remove_api-Untouched :
      (cid c : CreatorId) (key k : Bytes) (s : State cfg)
      → cid ≢ c
      → Untouched c k s (do_remove_api cfg cid key s).1
  do_remove_api-Untouched cid c key k s ne =
      rw (do_remove_api_lem cid key s) (elim (Option-cases (get s.api_feeds (cid, key))) [
        | inl absent ↦ rw absent (record { feeds_same = refl; values_same = refl })
        | inr (api_feed, e) ↦ rw e (record {
          feeds_same =
              ground (arith, get-remove s.api_feeds (cid, key) (c, k), creator_beq_iff cid c);
          values_same = refl;
        })
      ])

  differs : {a c : CreatorId} → some a ≢ some c → a ≢ c
  differs ne = λ e. ne (cc)

  Step-Untouched :
      {o : Origin} {s t : State cfg} (c : CreatorId) (k : Bytes)
      → Step cfg o s t
      → acts_as o ≢ some c
      → Untouched c k s t
  unfolding feed_data xcm_feed_data xcm_query_data submit_api xcm_submit_api remove_api
      xcm_remove_api
  Step-Untouched c k (feeds s block (signed who) values) ne =
      feed-Untouched block (account_id who) c k values s (differs ne)
  Step-Untouched c k (feeds s block o values) ne = record { feeds_same = refl; values_same = refl }
  Step-Untouched c k (xcm_feeds s block (sibling para) values) ne =
      feed-Untouched block (para_id para) c k values s (differs ne)
  Step-Untouched c k (xcm_feeds s block o values) ne = record {
    feeds_same = refl;
    values_same = refl;
  }
  Step-Untouched c k (queries s o key) ne = record {
    feeds_same = ground arith;
    values_same = ground arith;
  }
  Step-Untouched c k (submits s block (signed who) key url vpath) ne =
      do_submit_api-Untouched block (account_id who) c key url vpath k s (differs ne)
  Step-Untouched c k (submits s block o key url vpath) ne = record {
    feeds_same = refl;
    values_same = refl;
  }
  Step-Untouched c k (xcm_submits s block (sibling para) key url vpath) ne =
      do_submit_api-Untouched block (para_id para) c key url vpath k s (differs ne)
  Step-Untouched c k (xcm_submits s block o key url vpath) ne = record {
    feeds_same = refl;
    values_same = refl;
  }
  Step-Untouched c k (removes s (signed who) key) ne =
      do_remove_api-Untouched (account_id who) c key k s (differs ne)
  Step-Untouched c k (removes s o key) ne = record { feeds_same = refl; values_same = refl }
  Step-Untouched c k (xcm_removes s (sibling para) key) ne =
      do_remove_api-Untouched (para_id para) c key k s (differs ne)
  Step-Untouched c k (xcm_removes s o key) ne = record { feeds_same = refl; values_same = refl }

  -- A call that is not made on behalf of a creator leaves that creator's API feeds and raw values as
  -- they are: an account never touches what a parachain or another account has.
  pub creators_isolated :
      (o : Origin) (s t : State cfg) (c : CreatorId) (k : Bytes)
      → Step cfg o s t
      → acts_as o ≢ some c
      → (get t.api_feeds (c, k) ≡ get s.api_feeds (c, k))
        × (get t.raw_values (c, k) ≡ get s.raw_values (c, k))
  creators_isolated o s t c k st ne =
      let same = Step-Untouched c k st ne in (same.feeds_same, same.values_same)
