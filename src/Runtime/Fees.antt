-- ===== src/Runtime/Fees.antt =====
-- What the runtime charges for a unit of weight.
use paraxiom.Prelude.{ℕ, ◌+◌, ◌*◌, ◌/◌, ◌%◌, ◌≤◌, ◌≡◌, refl, false, [], ◌∷◌, arith}
use native.Mathlib.Nat.{div-add-mod}
use paraxiom.Runtime.Constants.{Coefficient, polynomial, milliunit}

abbrev pub billion : ℕ
billion = 1000000000

-- `r` is the fraction `a / q` in billionths, but for at most `k` of them.
abbrev pub Near : (k r a q : ℕ) → Type 0
Near k r a q = (r * q ≤ a * billion + k * q) × (a * billion ≤ (r + k) * q)

-- The fee for a unit of weight, in billionths of a unit of the balance.
abbrev pub rate : Coefficient → ℕ
rate c = c.coeff_integer * billion + c.coeff_frac

-- A fraction `d + m / q` in billionths, with the integer part and the rest taken apart.
rate-Near : (p q d m r k : ℕ) → q * d + m ≡ p → Near k r m q → Near k (d * billion + r) p q
rate-Near p q d m r k e (lo, hi) = (omega (arith, e, lo, hi), omega (arith, e, lo, hi))

-- Where the package turns the fraction that the runtime hands it into billionths, but for at most `k`
-- of them: the fee is linear in the weight, never negative, and at a thousand times the extrinsic base
-- weight it is a MILLIUNIT, but for at most `k` billionths for each unit of the weight.
pub polynomial_lem :
    (from_rational : ℕ → ℕ → ℕ) (base k : ℕ)
    → Near k
        (from_rational (milliunit / 10 % (100 * base)) (100 * base))
        (milliunit / 10 % (100 * base))
        (100 * base)
    → (c : Coefficient) × (polynomial from_rational base ≡ c ∷ [])
      × (c.degree ≡ 1)
      × (c.negative ≡ false)
      × Near k (rate c) milliunit (1000 * base)
unfolding polynomial
polynomial_lem from_rational base k near =
    let q = 100 * base in
    let p = milliunit / 10 in
    let (lo, hi) =
      rate-Near p q (p / q) (p % q) (from_rational (p % q) q) k (div-add-mod p q) near in
    (_, refl, refl, refl, (omega (arith, lo), omega (arith, hi)))
