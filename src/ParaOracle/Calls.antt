-- ===== src/ParaOracle/Calls.antt =====
-- The hooks and extrinsics of pallets/para-oracle/src/lib.rs, with the functions that they call.
use paraxiom.Prelude.{
  ℕ, Bool, true, Option, none, some, List, [], ◌∷◌, ◌++◌, ◌==◌, false, list_eq, nat_eq, pair_eq,
  if◌then◌else◌,
}
use paraxiom.Prelude.Int.{ℤ}
use paraxiom.Errors.{para_oracle, already_feeded, xcm_send_error, cannot_lookup}
use paraxiom.Frame.{
  Bytes, Origin, Exec, raise, gets, ensure, modify, expect, ensure_signed, ensure_sibling_para,
  ◌>>=◌, ◌>>◌,
}
use paraxiom.Storage.{get, insert, remove, contains_key}
use paraxiom.ParaOracle.Combine.{TimestampedValue}
use paraxiom.ParaOracle.State.{
  CreatorId, account_id, para_id, creator_eq, ApiFeed, Event, new_feed_data, new_api_feed,
  api_feed_removed, Config, ParaOracle, Block,
}

module _ (cfg : Config) where
  abbrev pub State : Type 0
  State = ParaOracle cfg.set.Carrier

  unfoldable pub deposit_event : Event → Exec State Unit
  deposit_event event = modify (λ s. record s { events = s.events ++ event ∷ [] })

  -- `on_finalize`
  unfoldable pub on_finalize : Exec State Unit
  on_finalize = modify (λ s. record s { has_dispatched = cfg.set.default })

  -- The `filter_map` of `read_raw_values`.
  unfoldable pub raw_values_of :
      Bytes → List ((CreatorId × Bytes) × TimestampedValue) → List TimestampedValue
  raw_values_of key [] = []
  raw_values_of key (((c, k), val) ∷ entries) =
      let rest = raw_values_of key entries in if key == k then val ∷ rest else rest

  unfoldable pub read_raw_values : Bytes → State → List TimestampedValue
  unfolding raw_values_of
  read_raw_values key s = raw_values_of key (cfg.iter_raw_values s.raw_values)

  -- `get`
  unfoldable pub get_value : Bytes → State → Option TimestampedValue
  get_value key s = get s.values key

  unfoldable pub combined : Block → Bytes → State → Option TimestampedValue
  unfolding read_raw_values
  combined block key s = cfg.combine_data block.now key (read_raw_values key s) (get s.values key)

  abbrev pub store_combined : Bytes → Option TimestampedValue → State → State
  store_combined key none s = s
  store_combined key (some value) s = record s { values = insert s.values key value }

  abbrev pub store_raw : Block → CreatorId → Bytes × ℤ → State → State
  store_raw block cid (key, value) s = record s {
    raw_values = insert s.raw_values (cid, key) (record { value = value; timestamp = block.now });
  }

  -- The loop over the values that are fed.
  unfoldable pub store_values : Block → CreatorId → List (Bytes × ℤ) → State → State
  unfolding combined
  store_values block cid [] s = s
  store_values block cid ((key, value) ∷ values) s =
      let stored = store_raw block cid (key, value) s in
      store_values block cid values (store_combined key (combined block key stored) stored)

  -- The body that `feed_data` and `xcm_feed_data` share: `HasDispatched::mutate` writes the set that
  -- `insert` leaves, then the guard reads what `insert` returned.
  unfoldable pub feed : Block → CreatorId → List (Bytes × ℤ) → Exec State Unit
  unfolding deposit_event
  feed block cid values = do
    inserted ← gets (λ s. (cfg.set.insert cid s.has_dispatched).0)
    modify (λ s. record s { has_dispatched = (cfg.set.insert cid s.has_dispatched).1 })
    ensure inserted (para_oracle already_feeded)
    modify (store_values block cid values)
    deposit_event (new_feed_data cid values)

  unfoldable pub feed_data : Block → Origin → List (Bytes × ℤ) → Exec State Unit
  unfolding feed
  feed_data block origin values = do
    feeder ← ensure_signed origin
    feed block (account_id feeder) values

  unfoldable pub xcm_feed_data : Block → Origin → List (Bytes × ℤ) → Exec State Unit
  unfolding feed
  xcm_feed_data block origin values = do
    para ← ensure_sibling_para origin
    feed block (para_id para) values

  unfoldable pub send_qret_to_parachain : ℕ → Bytes → ℤ → Exec State Unit
  send_qret_to_parachain para key value =
      ensure (cfg.send_xcm para (cfg.encode_feed_back key value)) (para_oracle xcm_send_error)

  abbrev answer : ℕ → Bytes → Option TimestampedValue → Exec State Unit
  answer para key none = raise cannot_lookup
  answer para key (some val) = send_qret_to_parachain para key val.value

  unfoldable pub xcm_query_data : Origin → Bytes → Exec State Unit
  unfolding get_value send_qret_to_parachain
  xcm_query_data origin key = do
    para ← ensure_sibling_para origin
    found ← gets (get_value key)
    answer para key found

  unfoldable pub do_submit_api : Block → CreatorId → Bytes → Bytes → Bytes → Exec State Unit
  unfolding deposit_event
  do_submit_api block cid key url vpath = do
    let api_feed : ApiFeed = record {
      requested_block_number = block.block_number;
      url = some url;
      vpath = some vpath;
    }
    modify (λ s. record s { api_feeds = insert s.api_feeds (cid, key) api_feed })
    deposit_event (new_api_feed cid key api_feed)

  abbrev remove_api_feed : CreatorId → Bytes → Bool → Exec State Unit
  remove_api_feed cid key feed_exists = elim feed_exists [
    | true ↦ gets (λ s. get s.api_feeds (cid, key)) >>= λ found. expect found >>= λ api_feed.
        modify (λ s. record s { api_feeds = remove s.api_feeds (cid, key) })
        >> modify (λ s. record s { events = s.events ++ api_feed_removed cid key api_feed ∷ [] })
    | false ↦ raise cannot_lookup
  ]

  unfoldable pub do_remove_api : CreatorId → Bytes → Exec State Unit
  do_remove_api cid key = do
    feed_exists ← gets (λ s. contains_key s.api_feeds (cid, key))
    remove_api_feed cid key feed_exists

  unfoldable pub submit_api : Block → Origin → Bytes → Bytes → Bytes → Exec State Unit
  unfolding do_submit_api
  submit_api block origin key url vpath = do
    submitter ← ensure_signed origin
    do_submit_api block (account_id submitter) key url vpath

  unfoldable pub remove_api : Origin → Bytes → Exec State Unit
  unfolding do_remove_api
  remove_api origin key = do
    submitter ← ensure_signed origin
    do_remove_api (account_id submitter) key

  unfoldable pub xcm_submit_api : Block → Origin → Bytes → Bytes → Bytes → Exec State Unit
  unfolding do_submit_api
  xcm_submit_api block origin key url vpath = do
    para ← ensure_sibling_para origin
    do_submit_api block (para_id para) key url vpath

  unfoldable pub xcm_remove_api : Origin → Bytes → Exec State Unit
  unfolding do_remove_api
  xcm_remove_api origin key = do para ← ensure_sibling_para origin; do_remove_api (para_id para) key
