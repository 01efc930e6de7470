-- ===== src/Anchor/Ownership.antt =====
-- Rollups leave other names alone, and a claimed name keeps its owner for ever.
use paraxiom.Prelude.{
  ℕ, ◌≡◌, ◌≢◌, refl, some, Option, List, arith, nat_beq_iff, nat_eq, list_eq, pair_eq,
}
use paraxiom.Frame.{Bytes, H256, AccountId, Origin, signed, Exec}
use paraxiom.Storage.{get, get-insert, contains_key_lem}
use paraxiom.Frame.Within.{Within}
use paraxiom.Anchor.State.{Anchor, Config, RollupTx}
use paraxiom.Anchor.Queue.{push_message}
use paraxiom.Anchor.Rollup.{Node, on_anchor, rollup, apply_updates, claim_name}
use paraxiom.Anchor.Updates.{get-apply_updates, submitter_by_names-apply_updates}
use paraxiom.Anchor.Through.{Kept, rollup-On}
use paraxiom.Anchor.Isolation.{
  SameElsewhere, SameElsewhere-refl, SameElsewhere-trans, queue_head_set-Stays, push_message-Stays,
}

module _ (cfg : Config) {S : Type 0} (on_response : H256 → AccountId → Bytes → Exec S Unit) where
  abbrev Near : H256 → Node S → Node S → Type 0
  Near name n n' = SameElsewhere name n.pallet n'.pallet

  SameElsewhere-Kept : (name : H256) → Kept cfg (SameElsewhere name) name
  SameElsewhere-Kept name = record {
    same = SameElsewhere-refl name;
    then = SameElsewhere-trans name;
    deposited = λ s events. record { owners = refl; elsewhere = λ other key ne. refl };
    head_set = queue_head_set-Stays name cfg;
  }

  update-Near :
      (name : H256) (updates : List (Bytes × Option Bytes)) (s : Anchor)
      → SameElsewhere name s (apply_updates name updates s)
  update-Near name updates s = record {
    owners = submitter_by_names-apply_updates name updates s;
    elsewhere = λ other key ne.
        ground (arith, get-apply_updates name other key updates s, nat_beq_iff name other);
  }

  rollup-Near :
      (name : H256) (origin : Origin) (tx : RollupTx) (nonce : ℕ)
      → Within (Near name) (rollup cfg on_response origin name tx nonce)
  rollup-Near name origin tx nonce =
      rollup-On cfg on_response (SameElsewhere name) name (SameElsewhere-Kept name) origin tx nonce
        (update-Near name tx.updates)

  -- A rollup on one name, whatever its transaction and however it ends, leaves the store of every
  -- other name and the owners of all names as they are.
  pub rollup_isolated :
      (origin : Origin) (name other : H256) (tx : RollupTx) (nonce : ℕ) (n : Node S) (key : Bytes)
      → name ≢ other
      → let n' = (rollup cfg on_response origin name tx nonce n).1 in
        (get n'.pallet.states (other, key) ≡ get n.pallet.states (other, key))
        × (n'.pallet.submitter_by_names ≡ n.pallet.submitter_by_names)
  rollup_isolated origin name other tx nonce n key ne =
      let same = (rollup-Near name origin tx nonce).moves n in
      (same.elsewhere other key ne, same.owners)

  -- What can happen to the anchor: its extrinsics, by anyone; messages that other pallets push; and
  -- any change of those pallets' own state.
  pub data Step : Node S → Node S → Type 0 where
    claims :
        (n : Node S) (origin : Origin) (name : H256)
        → Step n (on_anchor (claim_name origin name) n).1
    rolls :
        (n : Node S) (origin : Origin) (name : H256) (tx : RollupTx) (nonce : ℕ)
        → Step n (rollup cfg on_response origin name tx nonce n).1
    pushes :
        (n : Node S) (name : H256) (message : Bytes)
        → Step n (on_anchor (push_message cfg name message) n).1
    elsewhere : (n : Node S) (app : S) → Step n (record n { app = app })

  pub data Reach (n : Node S) : Node S → Type 0 where
    here : Reach n n
    next : {t u : Node S} → Reach n t → Step t u → Reach n u

  Step-owner :
      {n n' : Node S} (name : H256) (who : AccountId)
      → Step n n'
      → get n.pallet.submitter_by_names name ≡ some who
      → get n'.pallet.submitter_by_names name ≡ some who
  unfolding claim_name
  Step-owner name who (claims n (signed other) claimed) h = ground (
    arith,
    contains_key_lem n.pallet.submitter_by_names claimed,
    get-insert n.pallet.submitter_by_names claimed name other,
    nat_beq_iff claimed name,
  )
  Step-owner name who (claims n origin claimed) h = h
  Step-owner name who (rolls n origin rolled tx nonce) h =
      rw ((rollup-Near rolled origin tx nonce).moves n).owners h
  Step-owner name who (pushes n pushed message) h =
      rw ((push_message-Stays pushed cfg message).moves n.pallet).owners h
  Step-owner name who (elsewhere n app) h = h

  -- Once a name is claimed it keeps its owner, whatever claims, rollups and pushes follow, by
  -- whomever, and whatever happens to the state of the other pallets.
  pub Reach-owner :
      {n n' : Node S} (name : H256) (who : AccountId)
      → Reach n n'
      → get n.pallet.submitter_by_names name ≡ some who
      → get n'.pallet.submitter_by_names name ≡ some who
  Reach-owner name who here h = h
  Reach-owner name who (next r st) h = Step-owner name who st (Reach-owner name who r h)
