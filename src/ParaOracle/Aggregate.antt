-- ===== src/ParaOracle/Aggregate.antt =====
-- A feed updates the combined value of its key by the median.
use paraxiom.Prelude.{
  ℕ, ◌≤◌, ◌<◌, ◌*◌, ◌^◌, ◌≡◌, refl, false, Option, none, some, List, [], ◌∷◌, arith, ◌∙◌, ap,
  list_eq, nat_eq, pair_eq, length, beq_refl, ◌∙◌,
}
use paraxiom.Prelude.Int.{ℤ, ◌≤ℤ◌}
use paraxiom.Frame.{Bytes, signed}
use paraxiom.Storage.{get, get-insert}
use paraxiom.ParaOracle.Combine.{TimestampedValue, retain, combine_data}
use paraxiom.ParaOracle.Median.{count, outside, combine_data-between}
use paraxiom.ParaOracle.State.{CreatorId, account_id, Config, Block}
use paraxiom.ParaOracle.Calls.{
  State, feed_data, store_values, store_raw, store_combined, combined, read_raw_values, get_value,
}
use paraxiom.ParaOracle.Feeding.{feed_new, fed}

-- The pallet with `CombineData = DefaultCombineData<Self, MinimumCount, ExpiresIn>`.
abbrev pub with_median : ℕ → ℕ → Config → Config
with_median minimum_count expires_in cfg = record cfg {
  combine_data = λ now key values prev. combine_data minimum_count expires_in now values prev;
}

module _ (minimum_count expires_in : ℕ) (base : Config) where
  abbrev cfg : Config
  cfg = with_median minimum_count expires_in base

  -- The raw values for a key that have not expired.
  abbrev pub fresh : Block → Bytes → State cfg → List TimestampedValue
  fresh block key s = retain expires_in block.now (read_raw_values cfg key s)

  -- The state in which the value that is fed is combined.
  stored : Block → CreatorId → Bytes → ℤ → State cfg → State cfg
  stored block cid key value s =
      store_raw cfg block cid (key, value)
        (record s { has_dispatched = (cfg.set.insert cid s.has_dispatched).1 })

  fed_one :
      (block : Block) (cid : CreatorId) (key : Bytes) (value : ℤ) (s : State cfg)
      → ((fed cfg block cid ((key, value) ∷ []) s).raw_values
          ≡ (stored block cid key value s).raw_values)
        × ((v : TimestampedValue)
            → combined cfg block key (stored block cid key value s) ≡ some v
            → get (fed cfg block cid ((key, value) ∷ []) s).values key ≡ some v)
  unfolding store_values stored
  fed_one block cid key value s = (
    raw (combined cfg block key (stored block cid key value s)),
    λ v e. rw e (get-insert s.values key key v ∙ ground (arith, beq_refl key)),
  )
    where
      raw :
          (v : Option TimestampedValue)
          → (store_combined cfg key v (stored block cid key value s)).raw_values
            ≡ (stored block cid key value s).raw_values
      raw none = refl
      raw (some v) = refl

  fresh_same :
      (block : Block) (key : Bytes) (s t : State cfg)
      → s.raw_values ≡ t.raw_values
      → fresh block key s ≡ fresh block key t
  unfolding read_raw_values
  fresh_same block key s t e = rw e refl

  fed-between :
      (block : Block) (cid : CreatorId) (key : Bytes) (value lo hi : ℤ) (s : State cfg)
      → let s' = fed cfg block cid ((key, value) ∷ []) s in
        minimum_count ≤ length (fresh block key s')
        → length (fresh block key s') < 2 ^ 32
        → 2 * count (outside lo hi) (fresh block key s') < length (fresh block key s')
        → (v : TimestampedValue) × (get s'.values key ≡ some v) × (lo ≤ℤ v.value) × (v.value ≤ℤ hi)
  unfolding combined
  fed-between block cid key value lo hi s enough range few =
      let t = stored block cid key value s in
      let one = fed_one block cid key value s in
      let same = fresh_same block key (fed cfg block cid ((key, value) ∷ []) s) t one.0 in
      let same_length = ap length same in
      let same_count = ap (count (outside lo hi)) same in
      let (v, e, low, high) =
        combine_data-between minimum_count expires_in block.now (read_raw_values cfg key t)
          (get t.values key) lo hi (omega (arith, enough, same_length))
          (omega (arith, range, same_length)) (omega (arith, few, same_length, same_count)) in
      (v, one.1 v e, low, high)

  -- An account that has not fed in this block, while the set of feeders has room, feeds one value
  -- for a key. If of the fresh raw values for the key, the new one among them, there are enough
  -- (and fewer than 2 ^ 32) and fewer than half lie outside of a range, then the value that the
  -- pallet answers for the key lies in the range.
  pub feed_data-between :
      (block : Block) (who : ℕ) (key : Bytes) (value lo hi : ℤ) (s : State cfg)
      → cfg.set.contains s.has_dispatched (account_id who) ≡ false
      → cfg.set.len s.has_dispatched < cfg.set.max_len
      → let s' = (feed_data cfg block (signed who) ((key, value) ∷ []) s).1 in
        minimum_count ≤ length (fresh block key s')
        → length (fresh block key s') < 2 ^ 32
        → 2 * count (outside lo hi) (fresh block key s') < length (fresh block key s')
        → (v : TimestampedValue) × (get_value cfg key s' ≡ some v)
          × (lo ≤ℤ v.value)
          × (v.value ≤ℤ hi)
  unfolding feed_data get_value
  feed_data-between block who key value lo hi s absent room =
      let cid = account_id who in
      rw
        (feed_new cfg block cid ((key, value) ∷ []) s
          (cfg.set.insert_new cid s.has_dispatched absent room))
        (fed-between block cid key value lo hi s)
