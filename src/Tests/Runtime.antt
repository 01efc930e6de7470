-- ===== src/Tests/Runtime.antt =====
-- The barrier at a concrete message, the fee at a concrete weight, and a call that panics.
use paraxiom.Prelude.{ℕ, ◌+◌, ◌*◌, ◌/◌, ◌≡◌, refl, ◌↔◌, false, [], ◌∷◌, arith}
use paraxiom.Runtime.Constants.{Coefficient, polynomial, milliunit}
use paraxiom.Runtime.Fees.{billion, Near, rate, polynomial_lem}
use paraxiom.Attempt.{ok}
use paraxiom.Prelude.{true}
use paraxiom.Frame.{is_panic, signed}
use paraxiom.Runtime.Calls.{Call}
use paraxiom.Runtime.{dispatch, genesis}
use paraxiom.Runtime.Panics
use paraxiom.Runtime.Panics.{dispatch_panics}
use paraxiom.Tests.Codec.{codec}
use paraxiom.Tests.Oracle.{env}
use paraxiom.Runtime.Xcm.{
  deposit_reserve_asset, other, Arrival, ShouldExecute, Builder, barrier, allow,
}
use paraxiom.Runtime.Barrier.{Spares, relay_chain, logged, barrier_iff}

-- Barriers that let everything through.
abbrev permit : ShouldExecute
permit origin max_weight a = (ok tt, a)

abbrev builder : Builder
builder = record {
  take_weight_credit = permit;
  allow_top_level_paid_execution_from = λ from. permit;
  allow_unpaid_execution_from = λ from. permit;
  tuple = λ barriers. permit;
}

-- A reserve transfer to the relay chain.
abbrev transfer : Arrival
transfer = record {
  message = other 0 ∷ deposit_reserve_asset relay_chain 5 ∷ [];
  weight_credit = 10;
  log = [];
}

barrier_iff_example : ((barrier builder relay_chain 7 transfer).0 ≡ ok tt) ↔ (
    Spares transfer.message
    × ((allow builder relay_chain 7 (logged relay_chain transfer)).0 ≡ ok tt))
barrier_iff_example = barrier_iff builder relay_chain 7 transfer

-- A fraction in billionths where both numbers are first made smaller than a billion, with some loss.
abbrev reduced : ℕ → ℕ → ℕ
reduced a q = let factor = q / billion + 1 in a / factor * billion / (q / factor)

reduced-milliunit : reduced 100000000 12500000000 ≡ 7999999
reduced-milliunit = refl

polynomial_lem_example :
    (c : Coefficient) × (polynomial reduced 125000000 ≡ c ∷ [])
    × (c.degree ≡ 1)
    × (c.negative ≡ false)
    × Near 1 (rate c) milliunit (1000 * 125000000)
polynomial_lem_example = polynomial_lem reduced 125000000 1 (omega arith, omega arith)

-- Account 7 claims the name 1; then account 5 asks for the average.
dispatch_panics_example :
    is_panic
      (dispatch codec env
        (signed 5)
        Call.average
        (dispatch codec env (signed 7) (Call.claim_name 1) genesis).1).0
    ≡ true
dispatch_panics_example =
    dispatch_panics codec env (signed 5) Call.average
      (Panics.TameReach.next env (signed 7) (Call.claim_name 1) tt Panics.TameReach.start) tt
