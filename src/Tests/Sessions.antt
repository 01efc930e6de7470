-- ===== src/Tests/Sessions.antt =====
-- Two clients on one snapshot, which holds a message in the queue of a name.
use paraxiom.Prelude.{ℕ, ◌≡◌, refl, some, none, [], ◌∷◌, true, arith, ◌∙◌, nat_eq, list_eq, pair_eq}
use paraxiom.Frame.{Bytes, H256, signed}
use paraxiom.Frame as Frame
use paraxiom.Errors.{anchor, cond_not_met}
use paraxiom.Attempt.{ok, and_then}
use paraxiom.Storage.{get, get-empty}
use paraxiom.Anchor.State.{Action, reply, set_queue_head}
use paraxiom.Anchor.Queue.{push_message, queue_len}
use paraxiom.Anchor.Rollup.{Node, rollup}
use paraxiom.Anchor.Tame.{Tame}
use paraxiom.Anchor.Takes.{rollup_takes}
use paraxiom.Anchor.Keys.{key_of}
use paraxiom.Prelude.{list_beq}
use paraxiom.Anchor.Updates.{last_update}
use paraxiom.Anchor.Conflict.{Apart, push_message-SameCell, rollup_conflicts}
use paraxiom.Anchor.Client.{KvRollup, Sessions, snapshot_get, bump_version, rolled_at, rollup_tx}
use paraxiom.Anchor.Sessions.{Session, Bumps, tx_of, sessions_conflict}
use paraxiom.Tests.Codec.{config, codec, encode_u32}
use paraxiom.Tests.Anchor.{claimed, handler, claimed-owner, one-Refines}

abbrev key : Bytes
key = 9 ∷ []

key-Apart : Apart config key
key-Apart x e = cc

abbrev waiting : Node ℕ
waiting = record { pallet = (push_message config 1 (5 ∷ []) claimed).1; app = 0 }

waiting-owner : get waiting.pallet.submitter_by_names 1 ≡ some 7
waiting-owner =
    rw ((push_message-SameCell config 1 key key-Apart (5 ∷ [])).moves claimed).owners claimed-owner

waiting-cell : get waiting.pallet.states (1, key) ≡ none
waiting-cell =
    ((push_message-SameCell config 1 key key-Apart (5 ∷ [])).moves claimed).cell
    ∙ get-empty (1, key)

abbrev encode_action : Action → Bytes
encode_action (reply bytes) = 0 ∷ bytes
encode_action (set_queue_head head) = 1 ∷ encode_u32 head

-- A session that takes one message and bumps the version under the key.
abbrev sessions : Sessions ℕ Unit
sessions = record {
  failed_to_decode = 1;
  encode_action = encode_action;
  has_updates = λ r. true;
  rolled = λ read bump tx. and_then (read key) λ old. and_then (bump old) λ new. ok (record {
    conditions = (key, old) ∷ [];
    updates = (key, some new) ∷ [];
    queue_head = some 1;
  });
}

abbrev rolled_up : KvRollup
rolled_up = record {
  conditions = (key, none) ∷ [];
  updates = (key, some (encode_u32 1)) ∷ [];
  queue_head = some 1;
}

rolled_up-eq : rolled_at sessions codec 1 waiting.pallet tt ≡ ok rolled_up
unfolding snapshot_get bump_version
rolled_up-eq = ground (arith, waiting-cell)

rolled_up-Session : Session waiting.pallet 1 rolled_up
rolled_up-Session = record {
  conditions_fit = (omega arith, tt);
  updates_fit = ((omega arith, omega arith), tt);
  read = (waiting-cell, tt);
}

rolled_up-Tame : Tame config (tx_of encode_action rolled_up)
unfolding last_update key_of list_beq
rolled_up-Tame = record { head = refl; tail = refl }

rolled_up-Bumps : Bumps {E = ℕ} codec 1 rolled_up key (get waiting.pallet.states (1, key))
unfolding last_update bump_version list_beq
rolled_up-Bumps = record { new = encode_u32 1; bumped = rw waiting-cell refl; written = refl }

sessions_conflict_example :
    let tx = tx_of encode_action rolled_up in
    let (o, n') = rollup config handler (signed 7) 1 tx 0 waiting in
    (rollup_tx sessions codec 1 waiting.pallet tt ≡ ok (some tx))
    × (rollup_tx sessions codec 1 waiting.pallet tt ≡ ok (some tx))
    × (o ≡ Frame.ok tt)
    × (queue_len config 1 n'.pallet ≡ (Frame.ok 0, n'.pallet))
    × (rollup config handler (signed 7) 1 tx 1 n' ≡ (Frame.err (anchor cond_not_met), n'))
sessions_conflict_example =
    sessions_conflict config handler sessions 7 1 tt tt rolled_up rolled_up key [] [] 0 1 1 0 1
      waiting (omega arith) waiting-owner rolled_up-eq rolled_up-eq refl refl rolled_up-Session
      rolled_up-Session rolled_up-Tame refl refl one-Refines.head_read one-Refines.tail_read
      (omega arith) (omega arith) (omega arith) key-Apart rolled_up-Bumps (rw waiting-cell refl)

rolled_up-accepted :
    (rollup config handler (signed 7) 1 (tx_of encode_action rolled_up) 0 waiting).0 ≡ Frame.ok tt
rolled_up-accepted =
    (rollup_takes config handler (omega arith) 7 1 (tx_of encode_action rolled_up) 0 waiting
      (encode_action (set_queue_head 1)) 0 1 1 waiting-owner (waiting-cell, tt) rolled_up-Tame refl
      refl one-Refines.head_read one-Refines.tail_read (omega arith) (omega arith) (omega arith)).0

rollup_conflicts_example :
    let tx = tx_of encode_action rolled_up in
    let n' = (rollup config handler (signed 7) 1 tx 0 waiting).1 in
    rollup config handler (signed 7) 1 tx 1 n' ≡ (Frame.err (anchor cond_not_met), n')
unfolding last_update list_beq
rollup_conflicts_example =
    rollup_conflicts config handler 7 1 (tx_of encode_action rolled_up) 0 waiting key none
      (some (encode_u32 1)) (tx_of encode_action rolled_up) [] [] 1 key-Apart rolled_up-accepted
      refl (cc) refl
