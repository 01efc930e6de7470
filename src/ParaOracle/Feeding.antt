-- ===== src/ParaOracle/Feeding.antt =====
-- Feeding values: what is stored, and that the account is noted.
use paraxiom.Prelude.{
  ℕ, ◌<◌, ◌≡◌, refl, true, false, Option, none, some, List, [], ◌∷◌, ◌++◌, arith, list_beq, list_eq,
  nat_eq, pair_eq, if◌then◌else◌, Bool-cases, inl, inr, beq_refl,
}
use paraxiom.Prelude.Int.{ℤ}
use paraxiom.Errors.{para_oracle, already_feeded}
use paraxiom.Frame.{Bytes, signed, ok, err}
use paraxiom.Storage.{get, get-insert}
use paraxiom.ParaOracle.Combine.{TimestampedValue}
use paraxiom.ParaOracle.State.{
  CreatorId, account_id, creator_eq, creator_beq, Config, Block, new_feed_data,
}
use paraxiom.ParaOracle.Calls.{
  State, feed, feed_data, store_values, store_raw, store_combined, combined, on_finalize,
}

-- The last value for a key in a list of values.
unfoldable pub last_value : Bytes → List (Bytes × ℤ) → Option ℤ
last_value key [] = none
last_value key ((k, v) ∷ values) = elim (last_value key values) [
  | some w ↦ some w
  | none ↦ if list_beq k key then some v else none
]

abbrev pub fed_value : Block → Option ℤ → Option TimestampedValue → Option TimestampedValue
fed_value block none old = old
fed_value block (some v) old = some (record { value = v; timestamp = block.now })

module _ (cfg : Config) where
  store_combined-same :
      (key : Bytes) (v : Option TimestampedValue) (s : State cfg)
      → ((store_combined cfg key v s).raw_values ≡ s.raw_values)
        × ((store_combined cfg key v s).has_dispatched ≡ s.has_dispatched)
  store_combined-same key none s = (refl, refl)
  store_combined-same key (some v) s = (refl, refl)

  pub store_values_dispatched :
      (block : Block) (cid : CreatorId) (values : List (Bytes × ℤ)) (s : State cfg)
      → (store_values cfg block cid values s).has_dispatched ≡ s.has_dispatched
  unfolding store_values
  store_values_dispatched block cid [] s = refl
  store_values_dispatched block cid ((key, value) ∷ values) s =
      let stored = store_raw cfg block cid (key, value) s in
      let v = combined cfg block key stored in
      cc (
        store_values_dispatched block cid values (store_combined cfg key v stored),
        (store_combined-same key v stored).1,
      )

  pub store_values_raw :
      (block : Block) (cid d : CreatorId) (k : Bytes) (values : List (Bytes × ℤ)) (s : State cfg)
      → get (store_values cfg block cid values s).raw_values (d, k) ≡ (
          if creator_beq cid d
          then fed_value block (last_value k values) (get s.raw_values (d, k))
          else get s.raw_values (d, k))
  unfolding store_values last_value
  store_values_raw block cid d k [] s = ground arith
  store_values_raw block cid d k ((key, value) ∷ values) s =
      let stored = store_raw cfg block cid (key, value) s in
      let v = combined cfg block key stored in
      let same = (store_combined-same key v stored).0 in
      ground (
        arith,
        store_values_raw block cid d k values (store_combined cfg key v stored),
        same,
        get-insert s.raw_values (cid, key) (d, k) (record { value = value; timestamp = block.now }),
      )

  -- The state after values have been taken.
  abbrev pub fed : Block → CreatorId → List (Bytes × ℤ) → State cfg → State cfg
  fed block cid values s =
      let s' =
        store_values cfg block cid values
          (record s { has_dispatched = (cfg.set.insert cid s.has_dispatched).1 }) in
      record s' { events = s'.events ++ new_feed_data cid values ∷ [] }

  pub feed_new :
      (block : Block) (cid : CreatorId) (values : List (Bytes × ℤ)) (s : State cfg)
      → (cfg.set.insert cid s.has_dispatched).0 ≡ true
      → feed cfg block cid values s ≡ (ok tt, fed block cid values s)
  unfolding feed
  feed_new block cid values s new = ground arith

  pub feed_refused :
      (block : Block) (cid : CreatorId) (values : List (Bytes × ℤ)) (s : State cfg)
      → (cfg.set.insert cid s.has_dispatched).0 ≡ false
      → feed cfg block cid values s ≡ (err (para_oracle already_feeded), s)
  unfolding feed
  feed_refused block cid values s old =
      ground (arith, cfg.set.insert_refused cid s.has_dispatched old)

  pub feed_again :
      (block : Block) (cid : CreatorId) (values : List (Bytes × ℤ)) (s : State cfg)
      → cfg.set.contains s.has_dispatched cid ≡ true
      → feed cfg block cid values s ≡ (err (para_oracle already_feeded), s)
  feed_again block cid values s there = elim (Bool-cases (cfg.set.insert cid s.has_dispatched).0) [
    | inl new ↦ absurd (cc (cfg.set.insert_only cid s.has_dispatched new))
    | inr old ↦ feed_refused block cid values s old
  ]

  pub fed-contains :
      (block : Block) (cid : CreatorId) (values : List (Bytes × ℤ)) (s : State cfg)
      → (feed cfg block cid values s).0 ≡ ok tt
      → cfg.set.contains (feed cfg block cid values s).1.has_dispatched cid ≡ true
  fed-contains block cid values s accepted =
      elim (Bool-cases (cfg.set.insert cid s.has_dispatched).0) [
        | inl new ↦ rw (feed_new block cid values s new) (
            cc (
              store_values_dispatched block cid values
                  (record s { has_dispatched = (cfg.set.insert cid s.has_dispatched).1 }),
              cfg.set.contains-insert cid cid s.has_dispatched new,
              beq_refl cid,
            ))
        | inr old ↦ absurd (cc (feed_refused block cid values s old))
      ]

  -- An account that has not fed in this block, while the set of feeders has room, is accepted. Under
  -- each key its raw value is then the last that it has fed for the key, with the time, and is as it
  -- was if it has fed none; the raw values of all other creators are as they were; and the account
  -- counts as having fed.
  pub feed_data_lem :
      (block : Block) (who : ℕ) (values : List (Bytes × ℤ)) (s : State cfg) (d : CreatorId)
      (k : Bytes)
      → cfg.set.contains s.has_dispatched (account_id who) ≡ false
      → cfg.set.len s.has_dispatched < cfg.set.max_len
      → let (r, s') = feed_data cfg block (signed who) values s in
        (r ≡ ok tt)
        × (cfg.set.contains s'.has_dispatched (account_id who) ≡ true)
        × (get s'.raw_values (d, k) ≡ (
            if creator_beq (account_id who) d
            then fed_value block (last_value k values) (get s.raw_values (d, k))
            else get s.raw_values (d, k)))
  unfolding feed_data
  feed_data_lem block who values s d k absent room =
      let cid = account_id who in
      let new = cfg.set.insert_new cid s.has_dispatched absent room in
      let entered : State cfg = record s {
        has_dispatched = (cfg.set.insert cid s.has_dispatched).1;
      } in
      rw (feed_new block cid values s new) (
        refl,
        (cc (
          store_values_dispatched block cid values entered,
          cfg.set.contains-insert cid cid s.has_dispatched new,
          beq_refl cid,
        )),
        store_values_raw block cid d k values entered,
      )

  pub feed_keeps :
      (block : Block) (cid c : CreatorId) (values : List (Bytes × ℤ)) (s : State cfg)
      → cfg.set.contains s.has_dispatched c ≡ true
      → cfg.set.contains (feed cfg block cid values s).1.has_dispatched c ≡ true
  feed_keeps block cid c values s there =
      elim (Bool-cases (cfg.set.insert cid s.has_dispatched).0) [
        | inl new ↦
            let entered : State cfg = record s {
              has_dispatched = (cfg.set.insert cid s.has_dispatched).1;
            } in
            rw (feed_new block cid values s new) (
              ground (
                arith,
                store_values_dispatched block cid values entered,
                cfg.set.contains-insert cid c s.has_dispatched new,
              ))
        | inr old ↦ rw (feed_refused block cid values s old) there
      ]

  -- The end of the block forgets who has fed: if the set of feeders can hold one at all, a feed by
  -- any account right after it is accepted.
  pub feed_data-on_finalize :
      (block : Block) (who : ℕ) (values : List (Bytes × ℤ)) (s : State cfg)
      → 0 < cfg.set.max_len
      → (feed_data cfg block (signed who) values (on_finalize cfg s).1).0 ≡ ok tt
  unfolding on_finalize
  feed_data-on_finalize block who values s room =
      (feed_data_lem block who values (on_finalize cfg s).1 (account_id who) []
        (cfg.set.contains-default (account_id who)) (omega (arith, cfg.set.len-default))).0
