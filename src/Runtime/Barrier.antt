-- ===== src/Runtime/Barrier.antt =====
-- What the barrier lets through.
use paraxiom.Prelude.{
  nat_beq_iff, ℕ, ◌≡◌, ◌≢◌, ◌↔◌, true, false, Option, none, some, List, [], ◌∷◌, ◌++◌, ◌&&◌, All,
  arith, if◌then◌else◌,
}
use paraxiom.Attempt.{ok}
use paraxiom.Runtime.Xcm.{
  Junctions, x1, more, is_here, MultiLocation, here, Instruction, initiate_reserve_withdraw,
  deposit_reserve_asset, transfer_reserve_asset, reserve_asset_deposited, other,
  unexpected_reserve_asset_deposited, Arrival, deny_then_try, deny_reserve_transfer_to_relay_chain,
  transfers_to_parent, any, is_parent, is_reserve_asset_deposited, Builder, allow, barrier,
}

-- Where an instruction sends a reserve.
abbrev pub reserve_goes_to : Instruction → Option MultiLocation
reserve_goes_to (initiate_reserve_withdraw reserve _) = some reserve
reserve_goes_to (deposit_reserve_asset dest _) = some dest
reserve_goes_to (transfer_reserve_asset dest _) = some dest
reserve_goes_to _ = none

abbrev pub relay_chain : MultiLocation
relay_chain = record { parents = 1; interior = here }

-- No instruction sends a reserve to the relay chain.
abbrev pub Spares : List Instruction → Type 0
Spares = All (λ inst. reserve_goes_to inst ≢ some relay_chain)

-- The arrival with what the barrier logs about it.
unfoldable pub logged : MultiLocation → Arrival → Arrival
logged origin a =
    if is_parent origin && any is_reserve_asset_deposited a.message
    then record a { log = a.log ++ unexpected_reserve_asset_deposited ∷ [] }
    else a

is_here_iff : (j : Junctions) → (is_here j ≡ true) ↔ (j ≡ here)
is_here_iff here = ground arith
is_here_iff (x1 j) = ground arith
is_here_iff (more js) = ground arith

is_parent_iff : (l : MultiLocation) → (is_parent l ≡ true) ↔ (l ≡ relay_chain)
is_parent_iff l = ground (arith, nat_beq_iff l.parents 1, is_here_iff l.interior)

transfers_iff :
    (inst : Instruction)
    → (transfers_to_parent inst ≡ true) ↔ (reserve_goes_to inst ≡ some relay_chain)
transfers_iff (initiate_reserve_withdraw l n) = ground (arith, is_parent_iff l)
transfers_iff (deposit_reserve_asset l n) = ground (arith, is_parent_iff l)
transfers_iff (transfer_reserve_asset l n) = ground (arith, is_parent_iff l)
transfers_iff (reserve_asset_deposited n) = ground arith
transfers_iff (other n) = ground arith

any-Spares :
    (message : List Instruction) → (any transfers_to_parent message ≡ false) ↔ Spares message
unfolding any
any-Spares [] = ground arith
any-Spares (inst ∷ message) = ground (arith, transfers_iff inst, any-Spares message)

module _ (builder : Builder) (origin : MultiLocation) (max_weight : ℕ) (a : Arrival) where
  -- The barrier lets a message through if and only if no instruction of it sends a reserve to the
  -- relay chain and the allowing barriers let it through.
  pub barrier_iff :
      ((barrier builder origin max_weight a).0 ≡ ok tt)
      ↔ (Spares a.message × ((allow builder origin max_weight (logged origin a)).0 ≡ ok tt))
  unfolding barrier deny_then_try deny_reserve_transfer_to_relay_chain logged
  barrier_iff = ground (arith, any-Spares a.message)
