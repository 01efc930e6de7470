-- ===== src/Runtime/Weights.antt =====
-- runtime/paraxiom/src/lib.rs: the limits that the runtime sets on the weight of a block. FRAME's
-- weights, its `Perbill` and its `BlockWeightsBuilder` are parameters.
use paraxiom.Prelude.{
  ℕ, ◌+◌, ◌≤◌, ◌≡◌, ◌≢◌, ap, refl, ◌∙◌, Option, none, some, List, [], ◌∷◌, arith, ◌*◌, ◌<◌,
}
use paraxiom.Attempt.{Attempt, ok, and_then}

pub record Weight : Type 0 where
  pub ref_time : ℕ
  pub proof_size : ℕ

pub data DispatchClass : Type 0 where
  normal operational mandatory : DispatchClass

pub record WeightsPerClass : Type 0 where
  pub base_extrinsic : Weight
  pub max_total : Option Weight
  pub reserved : Option Weight

-- What FRAME gives: a builder is a `B`, and the limits that it builds are a `W`.
pub record Packages (B W : Type 0) : Type 0 where
  pub weight_ref_time_per_second : ℕ
  pub max_pov_size : ℕ
  pub block_execution_weight : Weight
  pub extrinsic_base_weight : Weight
  pub all : List DispatchClass
  pub from_percent : ℕ → ℕ
  pub times : ℕ → Weight → Weight
  pub minus : Weight → Weight → Weight
  pub saturating_div : ℕ → ℕ → ℕ
  pub weight_div : Weight → ℕ → Weight
  pub builder : B
  pub base_block : Weight → B → B
  pub for_class : List DispatchClass → (WeightsPerClass → WeightsPerClass) → B → B
  pub avg_block_initialization : ℕ → B → B
  pub build_or_panic : B → Attempt Unit W
  pub per_class : W → DispatchClass → WeightsPerClass
  pub max_block : W → Weight

abbrev pub sum : Weight → Weight → Weight
sum w v = record { ref_time = w.ref_time + v.ref_time; proof_size = w.proof_size + v.proof_size }

abbrev pub Below : Weight → Weight → Type 0
Below w v = (w.ref_time ≤ v.ref_time) × (w.proof_size ≤ v.proof_size)

-- `n` is `percent` of `a`, rounded to a whole number in some way.
abbrev pub Percent : (percent n a : ℕ) → Type 0
Percent percent n a = (100 * n < percent * a + 100) × (percent * a < 100 * n + 100)

-- The same of both parts of a weight.
abbrev pub Share : ℕ → Weight → Weight → Type 0
Share percent w v =
    Percent percent w.ref_time v.ref_time × Percent percent w.proof_size v.proof_size

module _ {B W : Type 0} (p : Packages B W) where
  abbrev pub average_on_initialize_ratio : ℕ
  average_on_initialize_ratio = p.from_percent 5

  abbrev pub normal_dispatch_ratio : ℕ
  normal_dispatch_ratio = p.from_percent 75

  abbrev pub maximum_block_weight : Weight
  maximum_block_weight = record {
    ref_time = p.saturating_div p.weight_ref_time_per_second 2;
    proof_size = p.max_pov_size;
  }

  abbrev normal_share : Weight
  normal_share = p.times normal_dispatch_ratio maximum_block_weight

  abbrev limited : B
  limited =
      p.for_class (DispatchClass.operational ∷ [])
        (λ weights. record weights {
          max_total = some maximum_block_weight;
          reserved = some (p.minus maximum_block_weight normal_share);
        })
        (p.for_class (DispatchClass.normal ∷ [])
          (λ weights. record weights { max_total = some normal_share })
          (p.for_class p.all
            (λ weights. record weights { base_extrinsic = p.extrinsic_base_weight })
            (p.base_block p.block_execution_weight p.builder)))

  unfoldable pub runtime_block_weights : Attempt Unit W
  runtime_block_weights =
      p.build_or_panic (p.avg_block_initialization average_on_initialize_ratio limited)

  abbrev unwrap_or : Option Weight → Weight → Weight
  unwrap_or none w = w
  unwrap_or (some v) w = v

  unfoldable pub deletion_weight_limit : Attempt Unit Weight
  deletion_weight_limit =
      and_then runtime_block_weights
        λ w. ok (unwrap_or (p.per_class w DispatchClass.normal).max_total (p.max_block w))

  abbrev pub reserved_xcmp_weight : Weight
  reserved_xcmp_weight = p.weight_div maximum_block_weight 4

  abbrev pub reserved_dmp_weight : Weight
  reserved_dmp_weight = p.weight_div maximum_block_weight 4

  unfoldable pub maximum_scheduler_weight : Attempt Unit Weight
  maximum_scheduler_weight =
      and_then runtime_block_weights λ w. ok (p.times normal_dispatch_ratio (p.max_block w))

  -- What FRAME documents of the builder and of its arithmetic: `view` is the limits set so far.
  pub record Documented : Type 0 where
    pub view : B → DispatchClass → WeightsPerClass
    pub on_class :
        (c : DispatchClass) (f : WeightsPerClass → WeightsPerClass) (b : B)
        → view (p.for_class (c ∷ []) f b) c ≡ f (view b c)
    pub off_class :
        (c d : DispatchClass) (f : WeightsPerClass → WeightsPerClass) (b : B)
        → c ≢ d
        → view (p.for_class (c ∷ []) f b) d ≡ view b d
    pub on_average :
        (ratio : ℕ) (b : B) (c : DispatchClass)
        → view (p.avg_block_initialization ratio b) c ≡ view b c
    pub on_build :
        (b : B) (w : W)
        → p.build_or_panic b ≡ ok w
        → (c : DispatchClass)
        → ((p.per_class w c).max_total ≡ (view b c).max_total)
          × ((p.per_class w c).reserved ≡ (view b c).reserved)
    pub minus_sum : (w v : Weight) → Below v w → sum v (p.minus w v) ≡ w
    pub share_below :
        (percent : ℕ) (w : Weight) → percent ≤ 100 → Below (p.times (p.from_percent percent) w) w
    pub share :
        (percent : ℕ) (w : Weight)
        → percent ≤ 100
        → Share percent (p.times (p.from_percent percent) w) w
    pub divides :
        (a n : ℕ) → 0 < n → (n * p.saturating_div a n ≤ a) × (a < n * p.saturating_div a n + n)

  module _ (doc : Documented) where
    normal_limit : (doc.view limited DispatchClass.normal).max_total ≡ some normal_share
    normal_limit =
        ap (λ v. v.max_total)
          (doc.off_class DispatchClass.operational DispatchClass.normal _ _ (λ e. cc)
            ∙ doc.on_class DispatchClass.normal _ _)

    operational_limit :
        ((doc.view limited DispatchClass.operational).max_total ≡ some maximum_block_weight)
        × ((doc.view limited DispatchClass.operational).reserved
            ≡ some (p.minus maximum_block_weight normal_share))
    operational_limit =
        let e = doc.on_class DispatchClass.operational _ _ in
        (ap (λ v. v.max_total) e, ap (λ v. v.reserved) e)

  limit_of :
      (w : W) (n : Weight)
      → runtime_block_weights ≡ ok w
      → (p.per_class w DispatchClass.normal).max_total ≡ some n
      → deletion_weight_limit ≡ ok n
  unfolding deletion_weight_limit
  limit_of w n built limit = rw (built, limit) refl

  -- Where FRAME's builder accepts the limits: operational extrinsics may fill the block, which is half a
  -- second of computing, rounded down, and `max_pov_size` of proof; normal ones may fill 75% of it,
  -- rounded, which is the limit on a lazy deletion too; and that share and what is reserved for
  -- operational extrinsics are the whole block.
  pub runtime_block_weights_lem :
      (doc : Documented) (w : W)
      → runtime_block_weights ≡ ok w
      → (block normal_total reserve : Weight) × ((p.per_class w DispatchClass.operational).max_total
          ≡ some block)
        × ((p.per_class w DispatchClass.normal).max_total ≡ some normal_total)
        × ((p.per_class w DispatchClass.operational).reserved ≡ some reserve)
        × (deletion_weight_limit ≡ ok normal_total)
        × (2 * block.ref_time ≤ p.weight_ref_time_per_second)
        × (p.weight_ref_time_per_second < 2 * block.ref_time + 2)
        × (block.proof_size ≡ p.max_pov_size)
        × Share 75 normal_total block
        × (sum normal_total reserve ≡ block)
  unfolding runtime_block_weights
  runtime_block_weights_lem doc w built =
      let b = p.avg_block_initialization average_on_initialize_ratio limited in
      let (total, _) = doc.on_build b w built DispatchClass.normal in
      let (total', reserve) = doc.on_build b w built DispatchClass.operational in
      let average = doc.on_average average_on_initialize_ratio limited in
      let n_limit : (p.per_class w DispatchClass.normal).max_total ≡ some normal_share =
        total ∙ ap (λ v. v.max_total) (average DispatchClass.normal) ∙ normal_limit doc in
      let (o_limit, o_reserve) = operational_limit doc in
      let (half_below, half_above) = doc.divides p.weight_ref_time_per_second 2 (omega arith) in
      (
        maximum_block_weight,
        normal_share,
        p.minus maximum_block_weight normal_share,
        total' ∙ ap (λ v. v.max_total) (average DispatchClass.operational) ∙ o_limit,
        n_limit,
        reserve ∙ ap (λ v. v.reserved) (average DispatchClass.operational) ∙ o_reserve,
        limit_of w normal_share built n_limit,
        half_below,
        half_above,
        refl,
        doc.share 75 maximum_block_weight (omega arith),
        doc.minus_sum maximum_block_weight normal_share
            (doc.share_below 75 maximum_block_weight (omega arith)),
      )
