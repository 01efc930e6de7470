-- ===== src/ParaOracle/Provenance.antt =====
-- Where the values come from that the pallet answers: somebody has fed each of them.
use mathlib.Core.Path.{subst, ap, sym}
use paraxiom.Prelude.{
  ℕ, zero, suc, ◌+◌, ◌%◌, ◌^◌, ◌≡◌, refl, Option, none, some, List, [], ◌∷◌, All, ltb, Bool-cases,
  inl, inr, get_elem?, list_eq, nat_eq, pair_eq, ◌==◌, length, ◌||◌, nat_beq, ◌/◌,
}
use paraxiom.Prelude.Int.{ℤ, ltb_ℤ}
use paraxiom.Frame.{Bytes}
use paraxiom.Storage.{get, found-insert}
use paraxiom.ParaOracle.Combine.{
  TimestampedValue, retain, insert_sorted, sorted, select_nth, combine_fresh, combine_data,
}
use paraxiom.ParaOracle.State.{CreatorId, creator_eq, Config, Block}
use paraxiom.ParaOracle.Calls.{
  State, feed, store_values, store_raw, store_combined, combined, read_raw_values, raw_values_of,
}
use paraxiom.ParaOracle.Feeding.{feed_new, feed_refused}
use paraxiom.ParaOracle.Aggregate.{with_median}

-- The median is one of the values that are combined, or the previous one.
module _ (Q : TimestampedValue → Type 0) where
  retain-All :
      (expires_in now : ℕ) (values : List TimestampedValue)
      → All Q values
      → All Q (retain expires_in now values)
  unfolding retain
  retain-All expires_in now [] h = tt
  retain-All expires_in now (x ∷ values) h =
      elim (Bool-cases (ltb now ((x.timestamp + expires_in) % 2 ^ 128))) [
        | inl kept ↦ rw kept (h.0, retain-All expires_in now values h.1)
        | inr expired ↦ rw expired (retain-All expires_in now values h.1)
      ]

  insert_sorted-All :
      (x : TimestampedValue) (ys : List TimestampedValue)
      → Q x
      → All Q ys
      → All Q (insert_sorted x ys)
  unfolding insert_sorted
  insert_sorted-All x [] h hs = (h, tt)
  insert_sorted-All x (y ∷ ys) h hs = elim (Bool-cases (ltb_ℤ y.value x.value)) [
    | inl less ↦ rw less (hs.0, insert_sorted-All x ys h hs.1)
    | inr not_less ↦ rw not_less (h, hs)
  ]

  sorted-All : (xs : List TimestampedValue) → All Q xs → All Q (sorted xs)
  unfolding sorted
  sorted-All [] h = tt
  sorted-All (x ∷ xs) h = insert_sorted-All x (sorted xs) h.0 (sorted-All xs h.1)

  get_elem?-All :
      (xs : List TimestampedValue) (n : ℕ) (v : TimestampedValue)
      → All Q xs
      → get_elem? xs n ≡ some v
      → Q v
  get_elem?-All [] n v h e = cc
  get_elem?-All (x ∷ xs) zero v h e = let same : x ≡ v = cc in subst Q same h.0
  get_elem?-All (x ∷ xs) (suc n) v h e = get_elem?-All xs n v h.1 e

  combine_fresh-All :
      (minimum_count : ℕ) (fresh : List TimestampedValue) (prev : Option TimestampedValue)
      (v : TimestampedValue)
      → All Q fresh
      → ((p : TimestampedValue) → prev ≡ some p → Q p)
      → combine_fresh minimum_count fresh prev ≡ some v
      → Q v
  unfolding combine_fresh select_nth
  combine_fresh-All minimum_count fresh prev v h hp e =
      let count = length fresh % 2 ^ 32 in
      elim (Bool-cases (ltb count minimum_count || nat_beq count 0)) [
        | inl few ↦ hp v (rw few at e)
        | inr enough ↦
            get_elem?-All (sorted fresh) (count / 2) v (sorted-All fresh h) (rw enough at e)
      ]

-- All that is stored has the property, by its key.
pub record Vouched (cfg : Config) (P : Bytes → TimestampedValue → Type 0) (s : State cfg)
    : Type 0 where
  pub raws :
      (c : CreatorId) (key : Bytes) (v : TimestampedValue)
      → get s.raw_values (c, key) ≡ some v
      → P key v
  pub answers : (key : Bytes) (v : TimestampedValue) → get s.values key ≡ some v → P key v

-- So have the values that are fed, with the time of the block.
abbrev pub Fed : (Bytes → TimestampedValue → Type 0) → Block → List (Bytes × ℤ) → Type 0
Fed P block values = All (λ x. P x.0 (record { value = x.1; timestamp = block.now })) values

module _ (cfg : Config) (P : Bytes → TimestampedValue → Type 0) where
  store_raw-Vouched :
      (block : Block) (cid : CreatorId) (key : Bytes) (value : ℤ) (s : State cfg)
      → P key (record { value = value; timestamp = block.now })
      → Vouched cfg P s
      → Vouched cfg P (store_raw cfg block cid (key, value) s)
  store_raw-Vouched block cid key value s new q = record {
    raws = λ c k v e.
        let fresh : TimestampedValue = record { value = value; timestamp = block.now } in
        elim (found-insert s.raw_values (cid, key) (c, k) fresh v e) [
          | inl (keys, is) ↦ subst (λ w. P k w) is (subst (λ l. P l fresh) (ap (λ x. x.1) keys) new)
          | inr old ↦ q.raws c k v old
        ];
    answers = q.answers;
  }

  store_combined-Vouched :
      (key : Bytes) (o : Option TimestampedValue) (s : State cfg)
      → ((v : TimestampedValue) → o ≡ some v → P key v)
      → Vouched cfg P s
      → Vouched cfg P (store_combined cfg key o s)
  store_combined-Vouched key none s new q = q
  store_combined-Vouched key (some w) s new q = record {
    raws = q.raws;
    answers = λ k v e. elim (found-insert s.values key k w v e) [
      | inl (keys, is) ↦ subst (λ x. P k x) is (subst (λ l. P l w) keys (new w refl))
      | inr old ↦ q.answers k v old
    ];
  }

  raw_values_of-All :
      (s : State cfg) (key : Bytes) (entries : List ((CreatorId × Bytes) × TimestampedValue))
      → Vouched cfg P s
      → All (λ x. get s.raw_values x.0 ≡ some x.1) entries
      → All (P key) (raw_values_of cfg key entries)
  unfolding raw_values_of
  raw_values_of-All s key [] q h = tt
  raw_values_of-All s key (((c, k), v) ∷ entries) q h = elim (Bool-cases (key == k)) [
    | inl same ↦ rw same (
      subst (λ l. P l v) (sym ((list_eq.beq_iff key k).0 same)) (q.raws c k v h.0),
      raw_values_of-All s key entries q h.1,
    )
    | inr other ↦ rw other (raw_values_of-All s key entries q h.1)
  ]

module _ (minimum_count expires_in : ℕ) (base : Config)
    (P : Bytes → TimestampedValue → Type 0) where
  abbrev pub cfg : Config
  cfg = with_median minimum_count expires_in base

  combined-Vouched :
      (block : Block) (key : Bytes) (s : State cfg) (v : TimestampedValue)
      → Vouched cfg P s
      → combined cfg block key s ≡ some v
      → P key v
  unfolding combined combine_data read_raw_values
  combined-Vouched block key s v q e =
      let entries = cfg.iter_raw_values s.raw_values in
      combine_fresh-All (P key) minimum_count
        (retain expires_in block.now (raw_values_of cfg key entries)) (get s.values key) v
        (retain-All (P key) expires_in block.now (raw_values_of cfg key entries)
          (raw_values_of-All cfg P s key entries q (cfg.iter_raw_values-get s.raw_values)))
        (λ p there. q.answers key p there) e

  store_values-Vouched :
      (block : Block) (cid : CreatorId) (values : List (Bytes × ℤ)) (s : State cfg)
      → Fed P block values
      → Vouched cfg P s
      → Vouched cfg P (store_values cfg block cid values s)
  unfolding store_values
  store_values-Vouched block cid [] s h q = q
  store_values-Vouched block cid ((key, value) ∷ values) s h q =
      let stored = store_raw cfg block cid (key, value) s in
      let q' = store_raw-Vouched cfg P block cid key value s h.0 q in
      let v = combined cfg block key stored in
      store_values-Vouched block cid values (store_combined cfg key v stored) h.1 (
        store_combined-Vouched cfg P key v stored (λ w e. combined-Vouched block key stored w q' e)
          q')

  pub feed-Vouched :
      (block : Block) (cid : CreatorId) (values : List (Bytes × ℤ)) (s : State cfg)
      → Fed P block values
      → Vouched cfg P s
      → Vouched cfg P (feed cfg block cid values s).1
  feed-Vouched block cid values s h q = elim (Bool-cases (cfg.set.insert cid s.has_dispatched).0) [
    | inr old ↦ rw (feed_refused cfg block cid values s old) q
    | inl new ↦
        let entered = record s { has_dispatched = (cfg.set.insert cid s.has_dispatched).1 } in
        let q' =
          store_values-Vouched block cid values entered h
            (record { raws = q.raws; answers = q.answers }) in
        rw (feed_new cfg block cid values s new) (record { raws = q'.raws; answers = q'.answers })
  ]
