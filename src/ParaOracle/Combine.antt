-- ===== src/ParaOracle/Combine.antt =====
-- pallets/para-oracle/src/default_combine_data.rs: the median of the values that have not expired.
use paraxiom.Prelude.{
  ℕ, ◌+◌, ◌/◌, ◌%◌, ◌^◌, ◌||◌, Option, List, [], ◌∷◌, ltb, nat_beq, length, get_elem?,
  if◌then◌else◌,
}
use paraxiom.Prelude.Int.{ℤ, ltb_ℤ}

-- `TimestampedValue<i64, u128>`
pub record TimestampedValue : Type 0 where
  pub value : ℤ
  pub timestamp : ℕ

-- `values.retain(|x| x.timestamp + expires_in > now)`, in `u128`
unfoldable pub retain : ℕ → ℕ → List TimestampedValue → List TimestampedValue
retain expires_in now [] = []
retain expires_in now (x ∷ values) =
    let kept = retain expires_in now values in
    if ltb now ((x.timestamp + expires_in) % 2 ^ 128) then x ∷ kept else kept

unfoldable pub insert_sorted : TimestampedValue → List TimestampedValue → List TimestampedValue
insert_sorted x [] = x ∷ []
insert_sorted x (y ∷ ys) =
    let rest = insert_sorted x ys in if ltb_ℤ y.value x.value then y ∷ rest else x ∷ y ∷ ys

unfoldable pub sorted : List TimestampedValue → List TimestampedValue
unfolding insert_sorted
sorted [] = []
sorted (x ∷ xs) = insert_sorted x (sorted xs)

-- `select_nth_unstable_by`: the element that stands at `n` once the values are sorted. Which of
-- several elements with that value it is, the library leaves open.
unfoldable pub select_nth : List TimestampedValue → ℕ → Option TimestampedValue
unfolding sorted
select_nth values n = get_elem? (sorted values) n

-- The median of fresh values, or the previous value if these are too few.
unfoldable pub combine_fresh :
    ℕ → List TimestampedValue → Option TimestampedValue → Option TimestampedValue
unfolding select_nth
combine_fresh minimum_count fresh prev_value =
    let count = length fresh % 2 ^ 32 in
    if ltb count minimum_count || nat_beq count 0 then prev_value else select_nth fresh (count / 2)

-- `DefaultCombineData::combine_data`, with the constants `MinimumCount` and `ExpiresIn`.
unfoldable pub combine_data :
    ℕ → ℕ → ℕ → List TimestampedValue → Option TimestampedValue → Option TimestampedValue
unfolding retain combine_fresh
combine_data minimum_count expires_in now values prev_value =
    combine_fresh minimum_count (retain expires_in now values) prev_value
