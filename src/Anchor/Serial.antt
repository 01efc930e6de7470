-- ===== src/Anchor/Serial.antt =====
-- Rollups on one name are serialised: what a successful one has overwritten cannot be the ground of
-- another.
use mathlib.Core.Path.{subst}
use paraxiom.Prelude.{
  ℕ, ◌≡◌, ◌≢◌, refl, some, Option, List, [], ◌∷◌, ◌++◌, arith, if◌then◌else◌, nat_beq, nat_beq_iff,
  All, option_eq, list_eq, nat_eq, pair_eq, option_ℕ_discrete,
}
use paraxiom.Frame.{Bytes, H256, AccountId, Origin, signed, Exec, ok, err}
use paraxiom.Errors.{anchor, cond_not_met}
use paraxiom.Storage.{get}
use paraxiom.Anchor.State.{Config, Cond, eq, RollupTx, rollup_executed}
use paraxiom.Anchor.Rollup.{Node, rollup, exec_actions, apply_updates}
use paraxiom.Anchor.Updates.{
  Meets, last_update, get-apply_updates, dec_Meets, submitter_by_names-apply_updates,
  All-append_right, or_else,
}
use paraxiom.Anchor.Transactions.{rollup_not_owner, rollup_conflict, rollup_met}

overwritten :
    (name : H256) (old : Option Bytes) {o : Option (Option Bytes)} {now v w : Option Bytes}
    → now ≡ (if nat_beq name name then or_else o old else old)
    → o ≡ some w
    → now ≡ v
    → w ≡ v
overwritten name old p q r = ground (arith, nat_beq_iff name name)

module _ (cfg : Config) {S : Type 0} (on_response : H256 → AccountId → Bytes → Exec S Unit) where
  -- Whatever the origin, a rollup that does not succeed changes nothing.
  pub rollup_atomic :
      (origin : Origin) (name : H256) (tx : RollupTx) (nonce : ℕ) (n : Node S)
      → (rollup cfg on_response origin name tx nonce n).0 ≢ ok tt
      → (rollup cfg on_response origin name tx nonce n).1 ≡ n
  unfolding rollup
  rollup_atomic origin name tx nonce n failed = ground arith

  exec_actions_quiet :
      (who : AccountId) (name : H256) (actions : List Bytes) (n : Node S)
      → actions ≡ []
      → exec_actions cfg on_response name who actions n ≡ (ok tt, n)
  unfolding exec_actions
  exec_actions_quiet who name [] n e = refl
  exec_actions_quiet who name (a ∷ actions) n e = cc

  module _ (who : AccountId) (name : H256) (tx : RollupTx) (nonce : ℕ) (n : Node S) where
    -- A signed rollup succeeds only if its sender owns the name and all its conditions hold.
    pub rollup_ok_only :
        (rollup cfg on_response (signed who) name tx nonce n).0 ≡ ok tt
        → (get n.pallet.submitter_by_names name ≡ some who) × All (Meets n.pallet name) tx.conds
    rollup_ok_only succeeded =
        elim (option_ℕ_discrete (get n.pallet.submitter_by_names name) (some who)) [
          | yes owner ↦ elim (dec_Meets n.pallet name tx.conds) [
            | yes met ↦ (owner, met)
            | no unmet ↦
                absurd (cc (rollup_conflict cfg on_response who name tx nonce n owner unmet))
          ]
          | no other ↦ absurd (cc ((rollup_not_owner cfg on_response who name tx nonce n other).1))
        ]

    -- The state after the owner's rollup without actions.
    abbrev pub settled : Node S
    settled = record n {
      pallet = record (apply_updates name tx.updates n.pallet) {
        events =
            (apply_updates name tx.updates n.pallet).events ++ rollup_executed who name nonce ∷ [];
      };
    }

    pub rollup_quiet :
        (rollup cfg on_response (signed who) name tx nonce n).0 ≡ ok tt
        → tx.actions ≡ []
        → rollup cfg on_response (signed who) name tx nonce n ≡ (ok tt, settled)
    rollup_quiet succeeded quiet =
        let (owner, met) = rollup_ok_only succeeded in
        ground (
          arith,
          rollup_met cfg on_response who name tx nonce n owner met,
          exec_actions_quiet who name tx.actions
              (record n { pallet = apply_updates name tx.updates n.pallet }) quiet,
        )

    -- After the owner's rollup without actions has written to a key another value than `v`, a
    -- rollup that rests on the key's being `v` is refused, and changes nothing.
    pub rollup_serial :
        (key : Bytes) (v w : Option Bytes) (later : RollupTx) (before behind : List Cond)
        (nonce' : ℕ)
        → (rollup cfg on_response (signed who) name tx nonce n).0 ≡ ok tt
        → tx.actions ≡ []
        → last_update key tx.updates ≡ some w
        → w ≢ v
        → later.conds ≡ before ++ eq key v ∷ behind
        → let n' = (rollup cfg on_response (signed who) name tx nonce n).1 in
          rollup cfg on_response (signed who) name later nonce' n' ≡ (err (anchor cond_not_met), n')
    rollup_serial key v w later before behind nonce' succeeded quiet written differs rests =
        let (owner, met) = rollup_ok_only succeeded in
        let value = get-apply_updates name name key tx.updates n.pallet in
        rw (rollup_quiet succeeded quiet) (
          rollup_conflict cfg on_response who name later nonce' settled
            (rw (submitter_by_names-apply_updates name tx.updates n.pallet) owner)
            λ all. differs (
              overwritten name (get n.pallet.states (name, key)) value written
                (All-append_right (Meets settled.pallet name) before (eq key v ∷ behind)
                  (subst (All (Meets settled.pallet name)) rests all)).0))
