-- ===== src/Anchor/Promises.antt =====
-- What the queues promise: a list of messages for each name, under pushes and new heads.
use paraxiom.Prelude.{
  ℕ, ◌+◌, ◌-◌, Bool, List, [], ◌∷◌, ◌++◌, length, drop, leb, ltb, ◌&&◌, if◌then◌else◌, nat_beq,
  nat_eq, list_eq, pair_eq, option_eq,
}
use paraxiom.Frame.{Bytes, H256, Outcome, ok, err}
use paraxiom.Errors.{anchor, name_not_exist, queue_is_full, invalid_queue_head}

-- What is asked of the queues: a message for a name, or a new head for a name's queue.
pub data Op : Type 0 where
  push : H256 → Bytes → Op
  set_head : H256 → ℕ → Op

-- A queue as it is promised: a list, and the position of its first message.
pub record Queue : Type 0 where
  pub head : ℕ
  pub msgs : List Bytes

pub record Model : Type 0 where
  pub claimed : H256 → Bool
  pub queue : H256 → Queue

unfoldable pub set_queue : Model → H256 → Queue → Model
set_queue m name q = record m { queue = λ other. if nat_beq name other then q else m.queue other }

-- What the operations promise, on lists.
unfoldable pub promise : ℕ → Op → Model → Outcome ℕ × Model
promise capacity (push name v) m =
    let q = m.queue name in
    if m.claimed name
    then if ltb (length q.msgs) capacity
      then (ok (q.head + length q.msgs), set_queue m name (record q { msgs = q.msgs ++ v ∷ [] }))
      else (err (anchor queue_is_full), m)
    else (err (anchor name_not_exist), m)
promise capacity (set_head name k) m =
    let q = m.queue name in
    if leb q.head k && leb k (q.head + length q.msgs)
    then (ok k, set_queue m name (record { head = k; msgs = drop (k - q.head) q.msgs }))
    else (err (anchor invalid_queue_head), m)

-- The answers to a sequence of operations, and the state that it leaves.
unfoldable pub promises : ℕ → List Op → Model → List (Outcome ℕ) × Model
promises capacity [] m = ([], m)
promises capacity (op ∷ ops) m =
    let (r, m') = promise capacity op m in let (rs, m'') = promises capacity ops m' in (r ∷ rs, m'')
