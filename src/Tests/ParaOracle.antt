-- ===== src/Tests/ParaOracle.antt =====
-- The para-oracle at a concrete state, with a set of at most three feeders.
use paraxiom.Tests.Feeders.{occurs, occurs_nil, config}
use paraxiom.Prelude.{
  ◌≡◌, refl, true, none, some, List, [], ◌∷◌, ◌++◌, arith, length, nat_eq, list_eq, pair_eq, ap,
  ◌∙◌, list_beq,
}
use paraxiom.Prelude.Int.{pos, negsuc, ◌≤ℤ◌}
use paraxiom.Errors.{para_oracle, already_feeded}
use paraxiom.Frame.{Bytes, signed, ok, err}
use paraxiom.Storage.{
  StorageMap, get, insert, empty, iter, get-insert, get-empty, iter-insert, iter-empty,
}
use paraxiom.ParaOracle.Combine.{
  TimestampedValue, retain, combine_data, combine_fresh, select_nth, sorted, insert_sorted,
}
use paraxiom.ParaOracle.Median.{outside, count}
use paraxiom.ParaOracle.Order.{combine_data-permuted, option_value}
use mathlib.Core.List.{Permᴰ}
use paraxiom.ParaOracle.State.{CreatorId, account_id, para_id, creator_eq, Block, api_feed_removed}
use paraxiom.ParaOracle.Calls.{
  State, feed_data, submit_api, remove_api, get_value, read_raw_values, raw_values_of, feed,
  store_values, combined,
}
use paraxiom.ParaOracle.Feeding.{feed_data_lem, last_value}
use paraxiom.ParaOracle.Dispatched.{feed_data_once, here, feeds}
use paraxiom.ParaOracle.Creators.{creators_isolated}
use paraxiom.ParaOracle.Apis.{remove_api-submit_api, submitted}
use paraxiom.ParaOracle.Aggregate.{feed_data-between, with_median, fresh}

abbrev pub block : Block
block = record { block_number = 1; now = 1000 }

abbrev pub start : State config
start = record {
  next_unsigned_at = 0;
  api_feeds = empty;
  raw_values = empty;
  values = empty;
  has_dispatched = [];
  events = [];
}

abbrev pub key : Bytes
key = 1 ∷ []

feed_data_lem_example :
    let (r, s') = feed_data config block (signed 4) ((key, pos 9) ∷ (key, pos 10) ∷ []) start in
    (r ≡ ok tt)
    × (occurs s'.has_dispatched (account_id 4) ≡ true)
    × (get s'.raw_values (account_id 4, key) ≡ some (record { value = pos 10; timestamp = 1000 }))
unfolding last_value list_beq
feed_data_lem_example =
    feed_data_lem config block 4 ((key, pos 9) ∷ (key, pos 10) ∷ []) start (account_id 4) key
      (occurs_nil (account_id 4)) (omega arith)

feed_data_once_example :
    let s' = (feed_data config block (signed 4) ((key, pos 9) ∷ (key, pos 10) ∷ []) start).1 in
    feed_data config block (signed 4) ((key, pos 11) ∷ []) s'
    ≡ (err (para_oracle already_feeded), s')
feed_data_once_example =
    feed_data_once config block block 4 ((key, pos 9) ∷ (key, pos 10) ∷ []) ((key, pos 11) ∷ [])
      start (feed_data config block (signed 4) ((key, pos 9) ∷ (key, pos 10) ∷ []) start).1
      feed_data_lem_example.0 here

creators_isolated_example :
    let s' = (feed_data config block (signed 4) ((key, pos 9) ∷ []) start).1 in
    (get s'.api_feeds (para_id 4, key) ≡ get start.api_feeds (para_id 4, key))
    × (get s'.raw_values (para_id 4, key) ≡ get start.raw_values (para_id 4, key))
creators_isolated_example =
    creators_isolated config (signed 4) start
      (feed_data config block (signed 4) ((key, pos 9) ∷ []) start).1 (para_id 4) key
      (feeds start block (signed 4) ((key, pos 9) ∷ [])) (λ e. cc)

remove_api-submit_api_example :
    let (r, s') = submit_api config block (signed 4) key (2 ∷ []) (3 ∷ []) start in
    let (r', s'') = remove_api config (signed 4) key s' in
    (r ≡ ok tt)
    × (get s'.api_feeds (account_id 4, key) ≡ some (submitted block (2 ∷ []) (3 ∷ [])))
    × (r' ≡ ok tt)
    × (s''.events
        ≡ s'.events ++ api_feed_removed (account_id 4) key (submitted block (2 ∷ []) (3 ∷ [])) ∷ [])
    × (get s''.api_feeds (account_id 4, key) ≡ none)
unfolding list_beq
remove_api-submit_api_example =
    remove_api-submit_api config block 4 key (2 ∷ []) (3 ∷ []) start (account_id 4) key

abbrev between_example : List TimestampedValue
between_example =
    record { value = negsuc 5; timestamp = 1000 }
    ∷ record { value = pos 9; timestamp = 950 }
    ∷ record { value = pos 8; timestamp = 10 }
    ∷ record { value = pos 7; timestamp = 990 }
    ∷ []

abbrev pub value5 : TimestampedValue
value5 = record { value = pos 8; timestamp = 990 }

-- Account 5 has fed 8 under the key.
abbrev pub one_fed : State (with_median 2 100 config)
one_fed = record start { raw_values = insert empty (account_id 5, key) value5 }

abbrev pub value4 : TimestampedValue
value4 = record { value = pos 10; timestamp = 1000 }

abbrev Raw : Type 0
Raw = StorageMap (CreatorId × Bytes) TimestampedValue

abbrev raw5 : Raw
raw5 = insert empty (account_id 5, key) value5

absent4 : get raw5 (account_id 4, key) ≡ none
unfolding list_beq
absent4 =
    get-insert {K = CreatorId × Bytes} empty (account_id 5, key) (account_id 4, key) value5
    ∙ get-empty {K = CreatorId × Bytes} (account_id 4, key)

listed :
    iter {K = CreatorId × Bytes} (insert raw5 (account_id 4, key) value4)
    ≡ ((account_id 4, key), value4) ∷ ((account_id 5, key), value5) ∷ []
listed =
    iter-insert raw5 (account_id 4, key) value4 absent4
    ∙ ap (λ l. ((account_id 4, key), value4) ∷ l)
        (iter-insert {K = CreatorId × Bytes} empty (account_id 5, key) value5
            (get-empty {K = CreatorId × Bytes} (account_id 5, key))
          ∙ ap (λ l. ((account_id 5, key), value5) ∷ l) iter-empty)

pub fresh_values :
    fresh 2 100 config block key
      (feed_data (with_median 2 100 config) block (signed 4) ((key, pos 10) ∷ []) one_fed).1
    ≡ value4 ∷ value5 ∷ []
unfolding feed_data feed store_values combined combine_data combine_fresh select_nth sorted
    insert_sorted read_raw_values raw_values_of retain list_beq occurs
fresh_values =
    rw listed (ap (λ l. retain 100 1000 (raw_values_of (with_median 2 100 config) key l)) listed)

feed_data-between_example :
    let s' =
      (feed_data (with_median 2 100 config) block (signed 4) ((key, pos 10) ∷ []) one_fed).1 in
    (v : TimestampedValue) × (get_value (with_median 2 100 config) key s' ≡ some v)
    × (pos 8 ≤ℤ v.value)
    × (v.value ≤ℤ pos 10)
unfolding count
feed_data-between_example =
    let size = ap length fresh_values in
    let out = ap (count (outside (pos 8) (pos 10))) fresh_values in
    feed_data-between 2 100 config block 4 key (pos 10) (pos 8) (pos 10) one_fed
      (occurs_nil (account_id 4)) (omega arith) (omega (arith, size)) (omega (arith, size))
      (omega (arith, size, out))

combine_data-permuted_example :
    option_value (combine_data 2 100 1000 (value5 ∷ value4 ∷ []) none)
    ≡ option_value (combine_data 2 100 1000 (value4 ∷ value5 ∷ []) none)
combine_data-permuted_example =
    combine_data-permuted 2 100 1000 (value5 ∷ value4 ∷ []) (value4 ∷ value5 ∷ []) none
      (Permᴰ.swap refl refl)
