-- ===== src/Anchor/Totality.antt =====
-- Where no rollup writes over a queue's labels, the queues can always be read, and no call of them
-- panics.
use paraxiom.Frame.{is_panic}
use paraxiom.Prelude.{ℕ, ◌≡◌, false, arith, nat_eq, list_eq, pair_eq, option_eq}
use paraxiom.Frame.{Bytes, H256, AccountId, Exec}
use paraxiom.Anchor.State.{Anchor, Config, label, RollupTx}
use paraxiom.Anchor.Queue.{push_message, queue_head_set, head_label, tail_label}
use paraxiom.Anchor.Keys.{HasRoom, key_of}
use paraxiom.Anchor.Slots.{slot}
use paraxiom.Anchor.Rollup.{Node, apply_updates}
use paraxiom.Anchor.Updates.{get-apply_updates}
use paraxiom.Anchor.Through.{claim_name-states, Kept}
use paraxiom.Anchor.Tame.{Tame, TameReach, TameReach-carries, Carried}
use paraxiom.Anchor.Readable.{Readable, push_message-Readable, queue_head_set-Readable}

module _ (cfg : Config) where
  abbrev pub Keeps : Anchor → Anchor → Type 0
  Keeps s s' = Readable cfg s → Readable cfg s'

  apply_updates-Readable :
      (name : H256) (tx : RollupTx) (s : Anchor)
      → Tame cfg tx
      → Readable cfg s
      → Readable cfg (apply_updates name tx.updates s)
  unfolding slot
  apply_updates-Readable name tx s tame q = record {
    head = λ other.
        let (h, e, b) = q.head other in
        (
          h,
          ground (
            arith,
            get-apply_updates name other (key_of cfg (label head_label)) tx.updates s,
            tame.head,
          ),
          b,
        );
    tail = λ other.
        let (t, e, b) = q.tail other in
        (
          t,
          ground (
            arith,
            get-apply_updates name other (key_of cfg (label tail_label)) tx.updates s,
            tame.tail,
          ),
          b,
        );
  }

  Keeps-Kept : (name : H256) → HasRoom cfg → Kept cfg Keeps name
  unfolding slot
  Keeps-Kept name fits = record {
    same = λ s q. q;
    then = λ x y z f g q. g (f q);
    deposited = λ s events q. record { head = q.head; tail = q.tail };
    head_set = λ k. record { moves = λ s q. (queue_head_set-Readable cfg fits name k s q).1 };
  }

  pub Readable-Carried : HasRoom cfg → Carried cfg (Readable cfg)
  unfolding slot
  Readable-Carried fits = record {
    kept = λ name. Keeps-Kept name fits;
    claimed = λ origin name s q.
        let e = claim_name-states origin name s in
        record { head = λ other. rw e (q.head other); tail = λ other. rw e (q.tail other) };
    updated = apply_updates-Readable;
    pushed = λ name message s q. (push_message-Readable cfg fits name message s q).1;
  }

module _ (cfg : Config) {S : Type 0} (on_response : H256 → AccountId → Bytes → Exec S Unit) where
  -- Where the queue's keys fit their bound: from queues that can be read, whatever claims, pushes
  -- and rollups follow, by whomever, as long as no rollup's updates touch the keys of `_head` and
  -- `_tail`, no push and no new head for any name panics: each returns or fails with an error.
  pub TameReach-total :
      {n n' : Node S} (name : H256) (message : Bytes) (k : ℕ)
      → HasRoom cfg
      → Readable cfg n.pallet
      → TameReach cfg on_response n n'
      → (is_panic (push_message cfg name message n'.pallet).0 ≡ false)
        × (is_panic (queue_head_set cfg name k n'.pallet).0 ≡ false)
  TameReach-total {n' = n'} name message k fits q r =
      let now = TameReach-carries cfg on_response (Readable cfg) (Readable-Carried cfg fits) q r in
      (
        (push_message-Readable cfg fits name message n'.pallet now).0,
        (queue_head_set-Readable cfg fits name k n'.pallet now).0,
      )
