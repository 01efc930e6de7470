-- ===== src/Tests/Anchor.antt =====
-- The anchor at concrete stores.
use paraxiom.Prelude.{
  ℕ, ◌+◌, ◌≡◌, refl, none, some, [], ◌∷◌, arith, All, nat_eq, list_eq, pair_eq, true,
}
use paraxiom.Frame.{Bytes, H256, AccountId, Exec, signed, ok, err, panic}
use paraxiom.Errors.{anchor}
use paraxiom.Storage.{get, insert, empty, get-insert, get-empty, contains_key, contains_key_lem}
use paraxiom.Anchor.State.{Anchor, RollupTx, eq, at, label}
use paraxiom.Anchor.Queue.{push_message, queue_head_set, head_label}
use paraxiom.Anchor.Keys.{key_of}
use paraxiom.Anchor.Slots.{slot}
use paraxiom.Anchor.Rollup.{Node, rollup}
use paraxiom.Anchor.Fifo.{Refines, Refines-empty, push_message-Refines}
use paraxiom.Anchor.Pop.{queue_head_set-Refines}
use paraxiom.Anchor.Drain.{take_messages, take_messages-Refines}
use paraxiom.Anchor.Serial.{rollup_ok_only}
use paraxiom.Anchor.Transactions.{rollup_met}
use paraxiom.Anchor.Ownership.{rollup_isolated, here, next, Reach-owner}
use paraxiom.Anchor.Corruption.{corrupted_head_panics}
use paraxiom.Frame.{bytes_beq_refl}
use paraxiom.Anchor.Updates.{Meets, last_update}
use paraxiom.Anchor.Rollup.{exec_actions}
use paraxiom.Anchor.Ownership.{rolls}
use paraxiom.Prelude.{List, nat_beq}
use paraxiom.Errors.{invalid_queue_head, name_not_exist}
use paraxiom.Anchor.Promises.{Model, Op, push, set_head, promises, promise, set_queue}
use paraxiom.Anchor.History.{execs, Simulates, execs-Simulates}
use paraxiom.Tests.Codec.{config}

-- Account 7 owns the name 1, and nothing is stored.
abbrev pub claimed : Anchor
claimed = record { submitter_by_names = insert empty 1 7; states = empty; events = [] }

abbrev pub handler : H256 → AccountId → Bytes → Exec ℕ Unit
handler name who bytes n = (ok tt, n + 1)

abbrev pub node : Node ℕ
node = record { pallet = claimed; app = 0 }

pub claimed-owner : get claimed.submitter_by_names 1 ≡ some 7
claimed-owner = get-insert {K = ℕ} empty 1 1 7

pub claimed-contains : contains_key claimed.submitter_by_names 1 ≡ true
claimed-contains = rw (contains_key_lem claimed.submitter_by_names 1, claimed-owner) refl

pub claimed-Refines : Refines config claimed 1 0 []
unfolding slot
claimed-Refines = Refines-empty config claimed 1 (get-empty _) (get-empty _)

push_message-Refines_example :
    let (r, s') = push_message config 1 (5 ∷ []) claimed in
    (r ≡ ok 0) × Refines config s' 1 0 ((5 ∷ []) ∷ [])
push_message-Refines_example =
    push_message-Refines config claimed 1 0 [] (5 ∷ []) (omega arith) claimed-Refines
      claimed-contains (omega arith) (omega arith)

-- One message waits.
pub one-Refines : Refines config (push_message config 1 (5 ∷ []) claimed).1 1 0 ((5 ∷ []) ∷ [])
one-Refines =
    (push_message-Refines config claimed 1 0 [] (5 ∷ []) (omega arith) claimed-Refines
      claimed-contains (omega arith) (omega arith)).1

queue_head_set-Refines_example :
    let s = (push_message config 1 (5 ∷ []) claimed).1 in
    let (r, s') = queue_head_set config 1 1 s in
    (r ≡ ok tt) × Refines config s' 1 1 [] × (slot config s' 1 (at 0) ≡ none)
queue_head_set-Refines_example =
    queue_head_set-Refines config (push_message config 1 (5 ∷ []) claimed).1 1 0 1 0 ((5 ∷ []) ∷ [])
      (omega arith) one-Refines (omega arith) (omega arith)

take_messages-Refines_example :
    let s = (push_message config 1 (5 ∷ []) claimed).1 in
    let (r, s') = take_messages config 1 0 1 s in
    (r ≡ ok (some (5 ∷ []) ∷ [])) × Refines config s' 1 1 []
take_messages-Refines_example =
    take_messages-Refines config (push_message config 1 (5 ∷ []) claimed).1 1 0 ((5 ∷ []) ∷ [])
      (omega arith) one-Refines

-- A write that rests on the key's being free, and one that repeats it.
abbrev key : Bytes
key = 9 ∷ []

abbrev write : Bytes → RollupTx
write v = record { conds = eq key none ∷ []; actions = []; updates = (key, some v) ∷ [] }

write-accepted : (rollup config handler (signed 7) 1 (write (3 ∷ [])) 0 node).0 ≡ ok tt
unfolding exec_actions
write-accepted = ground (
  arith,
  rollup_met config handler 7 1 (write (3 ∷ [])) 0 node claimed-owner (get-empty (1, key), tt),
)

rollup_ok_only_example :
    (get claimed.submitter_by_names 1 ≡ some 7) × All (Meets claimed 1) (eq key none ∷ [])
rollup_ok_only_example = rollup_ok_only config handler 7 1 (write (3 ∷ [])) 0 node write-accepted

rollup_isolated_example :
    let n' = (rollup config handler (signed 7) 1 (write (3 ∷ [])) 0 node).1 in
    (get n'.pallet.states (2, key) ≡ get node.pallet.states (2, key))
    × (n'.pallet.submitter_by_names ≡ node.pallet.submitter_by_names)
rollup_isolated_example =
    rollup_isolated config handler (signed 7) 1 2 (write (3 ∷ [])) 0 node key (omega arith)

Reach-owner_example :
    let n' = (rollup config handler (signed 8) 1 (write (3 ∷ [])) 0 node).1 in
    get n'.pallet.submitter_by_names 1 ≡ some 7
Reach-owner_example =
    Reach-owner config handler 1 7 (next here (rolls node (signed 8) 1 (write (3 ∷ [])) 0))
      claimed-owner

-- A rollup that writes three bytes to the key of the queue's head.
abbrev corrupting : RollupTx
corrupting = record {
  conds = [];
  actions = [];
  updates = (key_of config (label head_label), some (1 ∷ 2 ∷ 3 ∷ [])) ∷ [];
}

corrupting-accepted : (rollup config handler (signed 7) 1 corrupting 0 node).0 ≡ ok tt
unfolding exec_actions
corrupting-accepted =
    ground (arith, rollup_met config handler 7 1 corrupting 0 node claimed-owner tt)

corrupted_head_panics_example :
    (push_message config 1
      (5 ∷ [])
      (rollup config handler (signed 7) 1 corrupting 0 node).1.pallet).0
    ≡ panic
unfolding last_update
corrupted_head_panics_example =
    corrupted_head_panics config handler 7 1 corrupting 0 node (1 ∷ 2 ∷ 3 ∷ []) (5 ∷ [])
      (omega arith) corrupting-accepted refl
      (rw (bytes_beq_refl (key_of config (label head_label))) refl) refl

-- Nobody has written anything yet: all queues are empty, and name 1 is claimed.
abbrev empty_queues : Model
empty_queues = record {
  claimed = λ name. nat_beq 1 name;
  queue = λ name. record { head = 0; msgs = [] };
}

empty-Simulates : Simulates config claimed empty_queues
unfolding slot
empty-Simulates = record {
  claims = λ name. ground (
    arith,
    contains_key_lem claimed.submitter_by_names name,
    get-insert {K = ℕ} {V = ℕ} empty 1 name 7,
    get-empty {K = ℕ} {V = ℕ} name,
  );
  holds = λ name. Refines-empty config claimed name (get-empty _) (get-empty _);
}

-- A message, a head behind it, a head out of range, and a message for a name that nobody owns.
abbrev operations : List Op
operations = push 1 (5 ∷ []) ∷ set_head 1 1 ∷ set_head 1 3 ∷ push 2 [] ∷ []

execs-Simulates_example :
    let (rs, s') = execs config operations claimed in
    let (rs', m') = promises 128 operations empty_queues in (rs ≡ rs') × Simulates config s' m'
execs-Simulates_example =
    execs-Simulates config operations claimed empty_queues (omega arith) empty-Simulates
      (λ name. omega arith)

-- A test of what was promised.
operations-promises :
    (promises 128 operations empty_queues).0
    ≡ ok 0 ∷ ok 1 ∷ err (anchor invalid_queue_head) ∷ err (anchor name_not_exist) ∷ []
unfolding promises promise set_queue
operations-promises = refl
