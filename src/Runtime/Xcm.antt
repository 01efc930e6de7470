-- ===== src/Runtime/Xcm.antt =====
-- The barrier of runtime/paraxiom/src/xcm_config.rs, which decides whether an XCM message is executed.
-- The barriers of the packages are parameters.
use paraxiom.Prelude.{ℕ, Bool, true, false, List, [], ◌∷◌, ◌++◌, ◌&&◌, ◌||◌, nat_beq, if◌then◌else◌}
use paraxiom.Attempt.{Attempt, ok, err, panic}

-- Of the bodies and junctions the patterns tell these from the others.
pub data BodyId : Type 0 where
  executive : BodyId
  other : ℕ → BodyId

pub data Junction : Type 0 where
  plurality : BodyId → ℕ → Junction
  other : ℕ → Junction

pub data Junctions : Type 0 where
  here : Junctions
  x1 : Junction → Junctions
  more : List Junction → Junctions

pub record MultiLocation : Type 0 where
  pub parents : ℕ
  pub interior : Junctions

-- The instructions that the patterns name, each with its location and the rest of its fields.
pub data Instruction : Type 0 where
  initiate_reserve_withdraw deposit_reserve_asset transfer_reserve_asset :
      MultiLocation → ℕ → Instruction
  reserve_asset_deposited other : ℕ → Instruction

pub data Warning : Type 0 where
  unexpected_reserve_asset_deposited : Warning

-- What a barrier may change: the message and the weight credit; and what it logs.
pub record Arrival : Type 0 where
  pub message : List Instruction
  pub weight_credit : ℕ
  pub log : List Warning

-- `should_execute`, on the origin and the maximal weight
abbrev pub ShouldExecute : Type 0
ShouldExecute = MultiLocation → ℕ → Arrival → Attempt Unit Unit × Arrival

-- `DenyThenTry`
unfoldable pub deny_then_try : ShouldExecute → ShouldExecute → ShouldExecute
deny_then_try deny allow origin max_weight a =
    let (r, a') = deny origin max_weight a in
    elim r [ ok _ ↦ allow origin max_weight a' | err e ↦ (err e, a') | panic ↦ (panic, a') ]

abbrev pub is_here : Junctions → Bool
is_here here = true
is_here _ = false

-- `MultiLocation { parents: 1, interior: Here }`
abbrev pub is_parent : MultiLocation → Bool
is_parent l = nat_beq l.parents 1 && is_here l.interior

abbrev is_executive : Junctions → Bool
is_executive (x1 (plurality executive part)) = true
is_executive _ = false

unfoldable pub parent_or_parents_executive_plurality : MultiLocation → Bool
parent_or_parents_executive_plurality l =
    is_parent l || (nat_beq l.parents 1 && is_executive l.interior)

abbrev pub transfers_to_parent : Instruction → Bool
transfers_to_parent (initiate_reserve_withdraw reserve _) = is_parent reserve
transfers_to_parent (deposit_reserve_asset dest _) = is_parent dest
transfers_to_parent (transfer_reserve_asset dest _) = is_parent dest
transfers_to_parent _ = false

abbrev pub is_reserve_asset_deposited : Instruction → Bool
is_reserve_asset_deposited (reserve_asset_deposited _) = true
is_reserve_asset_deposited _ = false

-- `iter().any(..)`
unfoldable pub any : (Instruction → Bool) → List Instruction → Bool
any test [] = false
any test (inst ∷ message) = test inst || any test message

-- `DenyReserveTransferToRelayChain`
unfoldable pub deny_reserve_transfer_to_relay_chain : ShouldExecute
unfolding any
deny_reserve_transfer_to_relay_chain origin max_weight a =
    if any transfers_to_parent a.message
    then (err tt, a)
    else if is_parent origin && any is_reserve_asset_deposited a.message
    then (ok tt, record a { log = a.log ++ unexpected_reserve_asset_deposited ∷ [] })
    else (ok tt, a)

-- `Everything`
abbrev everything : MultiLocation → Bool
everything _ = true

-- The barriers of xcm_builder, under their names, and the tuple of barriers.
pub record Builder : Type 0 where
  pub take_weight_credit : ShouldExecute
  pub allow_top_level_paid_execution_from : (MultiLocation → Bool) → ShouldExecute
  pub allow_unpaid_execution_from : (MultiLocation → Bool) → ShouldExecute
  pub tuple : List ShouldExecute → ShouldExecute

module _ (builder : Builder) where
  abbrev pub allow : ShouldExecute
  allow = builder.tuple (
      builder.take_weight_credit
      ∷ builder.allow_top_level_paid_execution_from everything
      ∷ builder.allow_unpaid_execution_from parent_or_parents_executive_plurality
      ∷ [])

  -- `Barrier`
  unfoldable pub barrier : ShouldExecute
  unfolding deny_then_try deny_reserve_transfer_to_relay_chain
  barrier = deny_then_try deny_reserve_transfer_to_relay_chain allow
