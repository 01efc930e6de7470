-- ===== src/Anchor/Transactions.antt =====
-- `rollup` as a transaction: who may submit it, when it is refused, and what it changes.
use paraxiom.Prelude.{
  ℕ, ◌≡◌, ◌≢◌, some, [], ◌∷◌, ◌++◌, arith, nat_beq_iff, All, Option-cases, option_eq, list_eq,
  nat_eq, pair_eq, inl, inr,
}
use paraxiom.Frame.{Bytes, H256, AccountId, signed, Exec, ok, err, panic}
use paraxiom.Errors.{DispatchError, anchor, cond_not_met, not_owner, name_not_exist}
use paraxiom.Storage.{get}
use paraxiom.Anchor.State.{Config, RollupTx, rollup_executed}
use paraxiom.Anchor.Rollup.{Node, rollup, exec_actions, ensure_name_owner, apply_updates}
use paraxiom.Anchor.Updates.{Meets, check_conds-met, check_conds-unmet}

module _ (cfg : Config) {S : Type 0} (on_response : H256 → AccountId → Bytes → Exec S Unit) where
  abbrev pub updated : H256 → RollupTx → Node S → Node S
  updated name tx n = record n { pallet = apply_updates name tx.updates n.pallet }

  abbrev pub noted : AccountId → H256 → ℕ → Node S → Node S
  noted who name nonce n = record n {
    pallet = record n.pallet { events = n.pallet.events ++ rollup_executed who name nonce ∷ [] };
  }

  module _ (who : AccountId) (name : H256) (tx : RollupTx) (nonce : ℕ) (n : Node S) where
    -- A rollup by anyone but the owner of the name is refused and changes nothing.
    pub rollup_not_owner :
        get n.pallet.submitter_by_names name ≢ some who
        → (e : DispatchError) × (rollup cfg on_response (signed who) name tx nonce n ≡ (err e, n))
    unfolding rollup ensure_name_owner
    rollup_not_owner other = elim (Option-cases (get n.pallet.submitter_by_names name)) [
      | inl absent ↦ (anchor name_not_exist, ground arith)
      | inr (owner, e) ↦ (anchor not_owner, ground (arith, nat_beq_iff owner who))
    ]

    -- A rollup of the owner one of whose conditions does not hold is refused and changes nothing.
    pub rollup_conflict :
        get n.pallet.submitter_by_names name ≡ some who
        → ¬ All (Meets n.pallet name) tx.conds
        → rollup cfg on_response (signed who) name tx nonce n ≡ (err (anchor cond_not_met), n)
    unfolding rollup ensure_name_owner
    rollup_conflict owner unmet =
        ground (arith, check_conds-unmet n.pallet name tx.conds unmet, nat_beq_iff who who)

    -- The owner's rollup whose conditions hold runs the actions on the updated store; it keeps what
    -- they did and notes the event if they succeed, and changes nothing otherwise.
    pub rollup_met :
        get n.pallet.submitter_by_names name ≡ some who
        → All (Meets n.pallet name) tx.conds
        → rollup cfg on_response (signed who) name tx nonce n ≡ (
            let (r, n') = exec_actions cfg on_response name who tx.actions (updated name tx n) in
            elim r [
              | ok _ ↦ (ok tt, noted who name nonce n')
              | err e ↦ (err e, n)
              | panic ↦ (panic, n)
            ])
    unfolding rollup ensure_name_owner
    rollup_met owner met =
        ground (arith, check_conds-met n.pallet name tx.conds met, nat_beq_iff who who)
