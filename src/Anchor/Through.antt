-- ===== src/Anchor/Through.antt =====
-- A relation between the states before and after a rollup, from what its parts keep.
use paraxiom.Prelude.{◌≡◌, refl, List, [], ◌∷◌, arith, ℕ}
use paraxiom.Frame.{Bytes, H256, AccountId, Origin, Exec, ok_or, ensure_signed, ◌>>=◌, modify}
use paraxiom.Frame.Within.{
  Within, Within-same, Within-bind, Within-pure, Within-transactional, Within-ok_or,
  Within-ensure_signed,
}
use paraxiom.Errors.{anchor, failed_to_decode_action}
use paraxiom.Anchor.State.{
  Anchor, Config, RollupTx, Action, reply, set_queue_head, rollup_executed, Event,
}
use paraxiom.Anchor.Queue.{queue_head_set}
use paraxiom.Anchor.Rollup.{
  Node, on_anchor, rollup, exec_action, exec_actions, check_conds, ensure_name_owner, apply_updates,
  deposit_event, claim_name,
}
use paraxiom.Anchor.Updates.{check_conds_same}

-- A claim leaves the store alone.
pub claim_name-states :
    (origin : Origin) (name : H256) (s : Anchor) → (claim_name origin name s).1.states ≡ s.states
unfolding claim_name
claim_name-states origin name s = ground arith

-- The parts of a rollup on a name, with their updates of the store, keep a relation.
pub record Kept (cfg : Config) (R : Anchor → Anchor → Type 0) (name : H256) : Type 0 where
  pub same : (s : Anchor) → R s s
  pub then : (x y z : Anchor) → R x y → R y z → R x z
  pub deposited : (s : Anchor) (events : List Event) → R s (record s { events = events })
  pub head_set : (k : ℕ) → Within R (queue_head_set cfg name k)

module _ (cfg : Config) {S : Type 0} (on_response : H256 → AccountId → Bytes → Exec S Unit)
    (R : Anchor → Anchor → Type 0) (name : H256) (kept : Kept cfg R name) where
  abbrev pub On : Node S → Node S → Type 0
  On n n' = R n.pallet n'.pallet

  On-refl : (n : Node S) → On n n
  On-refl n = kept.same n.pallet

  and_then :
      {A B : Type 0} (m : Exec (Node S) A) (f : A → Exec (Node S) B)
      → Within On m
      → ((a : A) → Within On (f a))
      → Within On (m >>= f)
  and_then = Within-bind On (λ x y z. kept.then x.pallet y.pallet z.pallet)

  exec_action-On :
      (who : AccountId) (act : Action) → Within On (exec_action cfg on_response name who act)
  exec_action-On who (reply bytes) = record { moves = λ n. On-refl n }
  exec_action-On who (set_queue_head head) = record {
    moves = λ n. (kept.head_set head).moves n.pallet;
  }

  pub exec_actions-On :
      (who : AccountId) (actions : List Bytes)
      → Within On (exec_actions cfg on_response name who actions)
  unfolding exec_actions
  exec_actions-On who [] = Within-pure On On-refl tt
  exec_actions-On who (raw ∷ actions) =
      and_then
        (ok_or (cfg.codec.decode_action raw) (anchor failed_to_decode_action)
          >>= exec_action cfg on_response name who)
        _
        (and_then (ok_or (cfg.codec.decode_action raw) (anchor failed_to_decode_action)) _
          (Within-ok_or On On-refl (cfg.codec.decode_action raw) (anchor failed_to_decode_action))
          (exec_action-On who))
        λ _. exec_actions-On who actions

  pub rollup-On :
      (origin : Origin) (tx : RollupTx) (nonce : ℕ)
      → ((s : Anchor) → R s (apply_updates name tx.updates s))
      → Within On (rollup cfg on_response origin name tx nonce)
  unfolding rollup ensure_name_owner deposit_event
  rollup-On origin tx nonce updated = Within-transactional On On-refl _ (
      and_then (ensure_signed origin) _ (Within-ensure_signed On On-refl origin) λ who.
        and_then (on_anchor (ensure_name_owner name who)) _
          (Within-same On On-refl _ (λ n. ground arith))
          λ _.
            and_then (on_anchor (check_conds name tx.conds)) _
              (Within-same On On-refl _ (λ n. rw check_conds_same refl))
              λ _.
                and_then (on_anchor (modify (apply_updates name tx.updates))) _
                  (record { moves = λ n. updated n.pallet })
                  λ _.
                    and_then (exec_actions cfg on_response name who tx.actions)
                      (λ _. on_anchor (deposit_event (rollup_executed who name nonce)))
                      (exec_actions-On who tx.actions)
                      λ _. record { moves = λ n. kept.deposited n.pallet _ })
