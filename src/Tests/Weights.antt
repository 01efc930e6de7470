-- ===== src/Tests/Weights.antt =====
-- Limits on weight where a builder is the limits set so far, and a share is rounded down.
use paraxiom.Prelude.{
  ℕ, ◌+◌, ◌<◌, ◌%◌, ◌*◌, ◌/◌, ◌-◌, ◌≡◌, ◌≢◌, ◌≤◌, ap, sym, Bool-cases, inl, inr, none, some, List,
  [], ◌∷◌, refl, arith, Bool, true, false, if◌then◌else◌, ◌≤◌,
}
use native.Mathlib.Nat.{div-add-mod, mod-lt, mul-le-mul_right}
use paraxiom.Attempt.{Attempt, ok}
use paraxiom.Runtime.Weights.{
  Weight, DispatchClass, WeightsPerClass, Packages, Documented, Percent, Share,
  runtime_block_weights, runtime_block_weights_lem, sum, Below, deletion_weight_limit,
}

abbrev Limits : Type 0
Limits = DispatchClass → WeightsPerClass

abbrev nothing : Weight
nothing = record { ref_time = 0; proof_size = 0 }

abbrev same : DispatchClass → DispatchClass → Bool
same DispatchClass.normal DispatchClass.normal = true
same DispatchClass.operational DispatchClass.operational = true
same DispatchClass.mandatory DispatchClass.mandatory = true
same _ _ = false

abbrev for_class : List DispatchClass → (WeightsPerClass → WeightsPerClass) → Limits → Limits
for_class [] f limits = limits
for_class (c ∷ cs) f limits =
    let rest = for_class cs f limits in λ d. if same c d then f (rest d) else rest d

abbrev packages : Packages Limits Limits
packages = record {
  weight_ref_time_per_second = 1000000000000;
  max_pov_size = 5242880;
  block_execution_weight = nothing;
  extrinsic_base_weight = nothing;
  all = DispatchClass.normal ∷ DispatchClass.operational ∷ DispatchClass.mandatory ∷ [];
  from_percent = λ n. n * 10000000;
  times = λ ratio w. record {
    ref_time = ratio * w.ref_time / 1000000000;
    proof_size = ratio * w.proof_size / 1000000000;
  };
  minus = λ w v. record {
    ref_time = w.ref_time - v.ref_time;
    proof_size = w.proof_size - v.proof_size;
  };
  saturating_div = λ a b. a / b;
  weight_div = λ w n. record { ref_time = w.ref_time / n; proof_size = w.proof_size / n };
  builder = λ c. record { base_extrinsic = nothing; max_total = none; reserved = none };
  base_block = λ w limits. limits;
  for_class = for_class;
  avg_block_initialization = λ ratio limits. limits;
  build_or_panic = λ limits. ok limits;
  per_class = λ limits. limits;
  max_block = λ limits. nothing;
}

share_of : (percent a : ℕ) → percent ≤ 100 → percent * 10000000 * a / 1000000000 ≤ a
share_of percent a small =
    let le : percent * a ≤ 100 * a = mul-le-mul_right a small in
    let e = div-add-mod (percent * 10000000 * a) 1000000000 in omega (arith, e, le)

times-Percent : (percent a : ℕ) → Percent percent (percent * 10000000 * a / 1000000000) a
times-Percent percent a =
    let e = div-add-mod (percent * 10000000 * a) 1000000000 in
    let rest : percent * 10000000 * a % 1000000000 < 1000000000 =
      mod-lt (percent * 10000000 * a) (omega arith) in
    (omega (arith, e, rest), omega (arith, e, rest))

quotient : (a n : ℕ) → 0 < n → (n * (a / n) ≤ a) × (a < n * (a / n) + n)
quotient a n positive =
    let e = div-add-mod a n in
    let rest : a % n < n = mod-lt a positive in (omega (arith, e), omega (arith, e, rest))

same_refl : (c : DispatchClass) → same c c ≡ true
same_refl DispatchClass.normal = refl
same_refl DispatchClass.operational = refl
same_refl DispatchClass.mandatory = refl

same_sound : (c d : DispatchClass) → same c d ≡ true → c ≡ d
same_sound DispatchClass.normal DispatchClass.normal e = refl
same_sound DispatchClass.operational DispatchClass.operational e = refl
same_sound DispatchClass.mandatory DispatchClass.mandatory e = refl
same_sound DispatchClass.normal DispatchClass.operational e = cc
same_sound DispatchClass.normal DispatchClass.mandatory e = cc
same_sound DispatchClass.operational DispatchClass.normal e = cc
same_sound DispatchClass.operational DispatchClass.mandatory e = cc
same_sound DispatchClass.mandatory DispatchClass.normal e = cc
same_sound DispatchClass.mandatory DispatchClass.operational e = cc

kept :
    (c d : DispatchClass) (f : WeightsPerClass → WeightsPerClass) (w : WeightsPerClass)
    → c ≢ d
    → (if same c d then f w else w) ≡ w
kept c d f w apart = elim (Bool-cases (same c d)) [
  | inl equal ↦ absurd (apart (same_sound c d equal))
  | inr differ ↦ rw differ refl
]

difference : (w v : Weight) → Below v w → sum v (packages.minus w v) ≡ w
difference w v (time, size) =
    let t : v.ref_time + (w.ref_time - v.ref_time) ≡ w.ref_time = omega (arith, time) in
    let s : v.proof_size + (w.proof_size - v.proof_size) ≡ w.proof_size = omega (arith, size) in
    λ i. record { ref_time = t i; proof_size = s i }

documented : Documented packages
documented = record {
  view = λ limits. limits;
  on_class = λ c f limits. rw (same_refl c) refl;
  off_class = λ c d f limits apart. kept c d f (limits d) apart;
  on_average = λ ratio limits c. refl;
  on_build = λ b w built c.
      let e : b ≡ w = cc in (ap (λ l. (l c).max_total) (sym e), ap (λ l. (l c).reserved) (sym e));
  minus_sum = difference;
  share_below =
      λ percent w small. (share_of percent w.ref_time small, share_of percent w.proof_size small);
  share = λ percent w small. (times-Percent percent w.ref_time, times-Percent percent w.proof_size);
  divides = quotient;
}

abbrev limits_of : Attempt Unit Limits → Limits
limits_of (ok limits) = limits
limits_of _ = packages.builder

abbrev limits : Limits
limits = limits_of (runtime_block_weights packages)

limits-runtime_block_weights : runtime_block_weights packages ≡ ok limits
unfolding runtime_block_weights
limits-runtime_block_weights = refl

runtime_block_weights_lem_example :
    (block normal_total reserve : Weight) × ((limits DispatchClass.operational).max_total
      ≡ some block)
    × ((limits DispatchClass.normal).max_total ≡ some normal_total)
    × ((limits DispatchClass.operational).reserved ≡ some reserve)
    × (deletion_weight_limit packages ≡ ok normal_total)
    × (2 * block.ref_time ≤ 1000000000000)
    × (1000000000000 < 2 * block.ref_time + 2)
    × (block.proof_size ≡ 5242880)
    × Share 75 normal_total block
    × (sum normal_total reserve ≡ block)
runtime_block_weights_lem_example =
    runtime_block_weights_lem packages documented limits limits-runtime_block_weights
