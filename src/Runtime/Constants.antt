-- ===== src/Runtime/Constants.antt =====
-- The constants of runtime/paraxiom/src/lib.rs for time and for balances, and its fee for
-- a weight.
use paraxiom.Prelude.{ℕ, ◌*◌, ◌/◌, ◌%◌, Bool, false, List, [], ◌∷◌}

abbrev pub millisecs_per_block : ℕ
millisecs_per_block = 12000

abbrev pub slot_duration : ℕ
slot_duration = millisecs_per_block

-- Time is counted in blocks.
abbrev pub minutes : ℕ
minutes = 60000 / millisecs_per_block

abbrev pub hours : ℕ
hours = minutes * 60

abbrev pub days : ℕ
days = hours * 24

abbrev pub unit : ℕ
unit = 1000000000000

abbrev pub milliunit : ℕ
milliunit = 1000000000

abbrev pub microunit : ℕ
microunit = 1000000

abbrev pub existential_deposit : ℕ
existential_deposit = milliunit

abbrev pub millicents : ℕ
millicents = 1000000000

abbrev pub cents : ℕ
cents = 1000 * millicents

abbrev pub dollars : ℕ
dollars = 100 * cents

abbrev pub transaction_byte_fee : ℕ
transaction_byte_fee = 10 * microunit

-- `WeightToFeeCoefficient`; a `Perbill` counts billionths.
pub record Coefficient : Type 0 where
  pub degree : ℕ
  pub negative : Bool
  pub coeff_frac : ℕ
  pub coeff_integer : ℕ

-- `WEIGHT_REF_TIME_PER_NANOS` of the package is the parameter.
abbrev pub extrinsic_base_weight : ℕ → ℕ
extrinsic_base_weight per_nanos = per_nanos * 125000

-- `Perbill::from_rational` and the extrinsic base weight are parameters.
module _ (from_rational : ℕ → ℕ → ℕ) (base : ℕ) where
  -- `WeightToFee::polynomial`, of one coefficient
  unfoldable pub polynomial : List Coefficient
  polynomial =
      let p = milliunit / 10 in
      let q = 100 * base in
      record {
        degree = 1;
        negative = false;
        coeff_frac = from_rational (p % q) q;
        coeff_integer = p / q;
      }
      ∷ []
