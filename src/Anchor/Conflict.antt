-- ===== src/Anchor/Conflict.antt =====
-- Rollups on one name are serialised, whatever their actions do to the queue.
use mathlib.Core.Path.{subst, sym}
use paraxiom.Prelude.{
  ℕ, ◌≡◌, ◌≢◌, refl, ◌∙◌, some, Option, List, ◌∷◌, ◌++◌, arith, All, nat_beq_iff, option_eq,
  list_eq, nat_eq, pair_eq,
}
use paraxiom.Frame.{Bytes, H256, AccountId, signed, Exec, ok, err, bytes_beq_iff}
use paraxiom.Errors.{anchor, cond_not_met}
use paraxiom.Storage.{get, get-insert, get-remove}
use paraxiom.Frame.Within.{Within}
use paraxiom.Anchor.State.{Anchor, Config, Cond, eq, RollupTx, Index}
use paraxiom.Anchor.Queue.{queue_set, queue_remove, queue_key, encode_index, push_message}
use paraxiom.Anchor.Cells.{Cells, queue_head_set-keeps, push_message-keeps}
use paraxiom.Anchor.Through.{Kept, exec_actions-On}
use paraxiom.Anchor.Rollup.{Node, rollup}
use paraxiom.Anchor.Updates.{
  Meets, last_update, get-apply_updates, submitter_by_names-apply_updates, All-append_right,
}
use paraxiom.Anchor.Transactions.{rollup_conflict, rollup_met, updated}
use paraxiom.Anchor.Serial.{rollup_ok_only}

-- A key that is no key of the queue.
abbrev pub Apart : Config → Bytes → Type 0
Apart cfg key = (x : Index) → cfg.queue_prefix ++ encode_index cfg x ≢ key

-- The owners, and what is stored for the name under the key, stay.
pub record SameCell (name : H256) (key : Bytes) (s t : Anchor) : Type 0 where
  pub owners : t.submitter_by_names ≡ s.submitter_by_names
  pub cell : get t.states (name, key) ≡ get s.states (name, key)

module _ (cfg : Config) (name : H256) (key : Bytes) (apart : Apart cfg key) where
  same : (s : Anchor) → SameCell name key s s
  same s = record { owners = refl; cell = refl }

  then : (x y z : Anchor) → SameCell name key x y → SameCell name key y z → SameCell name key x z
  then x y z p q = record { owners = q.owners ∙ p.owners; cell = q.cell ∙ p.cell }

  queue_set-SameCell : (x : Index) (v : Bytes) → Within (SameCell name key) (queue_set cfg name x v)
  unfolding queue_set queue_key
  queue_set-SameCell x v = record {
    moves = λ s. record {
      owners = ground arith;
      cell = ground (
        arith,
        get-insert s.states (name, cfg.queue_prefix ++ encode_index cfg x) (name, key) v,
        bytes_beq_iff (cfg.queue_prefix ++ encode_index cfg x) key,
        apart x,
      );
    };
  }

  queue_remove-SameCell : (x : Index) → Within (SameCell name key) (queue_remove cfg name x)
  unfolding queue_remove queue_key
  queue_remove-SameCell x = record {
    moves = λ s. record {
      owners = ground arith;
      cell = ground (
        arith,
        get-remove s.states (name, cfg.queue_prefix ++ encode_index cfg x) (name, key),
        bytes_beq_iff (cfg.queue_prefix ++ encode_index cfg x) key,
        apart x,
      );
    };
  }

  SameCell-Cells : Cells cfg (SameCell name key) name (λ v. Unit)
  SameCell-Cells = record {
    same = same;
    then = then;
    writes = λ x v h. queue_set-SameCell x v;
    frees = queue_remove-SameCell;
    numbers = λ n. tt;
  }

  pub push_message-SameCell : (v : Bytes) → Within (SameCell name key) (push_message cfg name v)
  push_message-SameCell v =
      push_message-keeps cfg (SameCell name key) name (λ v. Unit) SameCell-Cells v tt

  pub SameCell-Kept : Kept cfg (SameCell name key) name
  SameCell-Kept = record {
    same = same;
    then = then;
    deposited = λ s events. record { owners = refl; cell = refl };
    head_set = queue_head_set-keeps cfg (SameCell name key) name (λ v. Unit) SameCell-Cells;
  }

module _ (cfg : Config) {S : Type 0} (on_response : H256 → AccountId → Bytes → Exec S Unit)
    (who : AccountId) (name : H256) (tx : RollupTx) (nonce : ℕ) (n : Node S) (key : Bytes) where
  -- What a rollup has written to a key apart from the queue's stays there through its actions.
  pub rollup_writes :
      (w : Option Bytes)
      → Apart cfg key
      → (rollup cfg on_response (signed who) name tx nonce n).0 ≡ ok tt
      → last_update key tx.updates ≡ some w
      → let n' = (rollup cfg on_response (signed who) name tx nonce n).1 in
        (n'.pallet.submitter_by_names ≡ n.pallet.submitter_by_names)
        × (get n'.pallet.states (name, key) ≡ w)
  rollup_writes w apart succeeded written =
      let (owner, met) = rollup_ok_only cfg on_response who name tx nonce n succeeded in
      let kept =
        (exec_actions-On cfg on_response (SameCell name key) name (SameCell-Kept cfg name key apart)
            who tx.actions).moves
          (updated cfg on_response name tx n) in
      (
        ground (
          arith,
          rollup_met cfg on_response who name tx nonce n owner met,
          kept.owners,
          submitter_by_names-apply_updates name tx.updates n.pallet,
        ),
        ground (
          arith,
          rollup_met cfg on_response who name tx nonce n owner met,
          kept.cell,
          get-apply_updates name name key tx.updates n.pallet,
          nat_beq_iff name name,
        ),
      )

  -- After the owner's rollup, with whatever actions, has written to a key apart from the queue's
  -- another value than `v`, a rollup that rests on the key's being `v` is refused, and changes
  -- nothing.
  pub rollup_conflicts :
      (v w : Option Bytes) (later : RollupTx) (before behind : List Cond) (nonce' : ℕ)
      → Apart cfg key
      → (rollup cfg on_response (signed who) name tx nonce n).0 ≡ ok tt
      → last_update key tx.updates ≡ some w
      → w ≢ v
      → later.conds ≡ before ++ eq key v ∷ behind
      → let n' = (rollup cfg on_response (signed who) name tx nonce n).1 in
        rollup cfg on_response (signed who) name later nonce' n' ≡ (err (anchor cond_not_met), n')
  rollup_conflicts v w later before behind nonce' apart succeeded written differs rests =
      let (owner, met) = rollup_ok_only cfg on_response who name tx nonce n succeeded in
      let (owners, value) = rollup_writes w apart succeeded written in
      let n' = (rollup cfg on_response (signed who) name tx nonce n).1 in
      rollup_conflict cfg on_response who name later nonce' n' (rw owners owner) λ all.
        let here =
          All-append_right (Meets n'.pallet name) before (eq key v ∷ behind)
            (subst (All (Meets n'.pallet name)) rests all) in
        differs (sym value ∙ here.0)
