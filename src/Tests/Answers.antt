-- ===== src/Tests/Answers.antt =====
-- What is answered after two feeds of one block.
use paraxiom.Prelude.{◌≡◌, ◌∷◌, [], ap, inl, inr, list_eq, nat_eq, pair_eq}
use paraxiom.Prelude.Int.{pos}
use paraxiom.Frame.{Bytes, signed}
use paraxiom.Storage.{found-insert, get-empty}
use paraxiom.ParaOracle.Combine.{TimestampedValue}
use paraxiom.ParaOracle.State.{CreatorId, account_id, creator_eq}
use paraxiom.ParaOracle.Aggregate.{with_median}
use paraxiom.ParaOracle.Provenance.{Vouched}
use paraxiom.ParaOracle.Answers.{Run, Run-answers}
use paraxiom.Tests.ParaOracle.{block, key, one_fed, value5, fresh_values}
use paraxiom.Tests.Feeders.{config, occurs_nil}
use paraxiom.ParaOracle.Aggregate.{feed_data-between}
use paraxiom.ParaOracle.Median.{count, outside}
use paraxiom.ParaOracle.Calls.{State, feed_data, get_value}
use paraxiom.Prelude.{some, arith, length}
use paraxiom.Prelude.Int.{◌≤ℤ◌}
use mathlib.Core.Path.{subst}

-- A value between 8 and 10.
abbrev InRange : Bytes → TimestampedValue → Type 0
InRange k v = (pos 8 ≤ℤ v.value) × (v.value ≤ℤ pos 10)

one_fed-Vouched : Vouched (with_median 2 100 config) InRange one_fed
one_fed-Vouched = record {
  raws = λ c k v e.
      elim (found-insert {K = CreatorId × Bytes} _ (account_id 5, key) (c, k) value5 v e) [
        | inl (keys, is) ↦ subst (InRange k) is (omega arith, omega arith)
        | inr old ↦ absurd (cc (get-empty {K = CreatorId × Bytes} {V = TimestampedValue} (c, k)))
      ];
  answers = λ k v e. absurd (cc (get-empty {K = Bytes} {V = TimestampedValue} k));
}

abbrev after_two : State (with_median 2 100 config)
after_two = (feed_data (with_median 2 100 config) block (signed 4) ((key, pos 10) ∷ []) one_fed).1

-- Two feeds in a range have an answer.
two-answered :
    (v : TimestampedValue) × (get_value (with_median 2 100 config) key after_two ≡ some v)
    × (pos 8 ≤ℤ v.value)
    × (v.value ≤ℤ pos 10)
unfolding count
two-answered =
    let size = ap length fresh_values in
    let out = ap (count (outside (pos 8) (pos 10))) fresh_values in
    feed_data-between 2 100 config block 4 key (pos 10) (pos 8) (pos 10) one_fed
      (occurs_nil (account_id 4)) (omega arith) (omega (arith, size)) (omega (arith, size))
      (omega (arith, size, out))

Run-answers_example : InRange key two-answered.0
Run-answers_example =
    Run-answers 2 100 config InRange key two-answered.0 one_fed-Vouched
      (Run.feeds block (signed 4) ((key, pos 10) ∷ []) ((omega arith, omega arith), tt) Run.here)
      two-answered.1
