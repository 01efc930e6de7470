-- ===== src/Anchor/History.antt =====
-- The queues of all names together refine a list for each name, over any sequence of operations.
use paraxiom.Prelude.{
  ℕ, ◌+◌, ◌-◌, ◌<◌, ◌≤◌, ◌≡◌, ◌≢◌, refl, false, List, [], ◌∷◌, ◌++◌, length, drop, arith, leb, ltb,
  ◌&&◌, nat_beq, nat_beq_iff, Bool-cases, inl, inr, length-append, ◌∙◌, nat_eq, list_eq, pair_eq,
  option_eq, some,
}
use mathlib.Core.Path.{subst}
use paraxiom.Frame.{Bytes, H256, Outcome, ok, err, Exec, pure, ◌>>=◌}
use paraxiom.Errors.{anchor, invalid_queue_head}
use paraxiom.Storage.{contains_key}
use paraxiom.Anchor.State.{Anchor, Config, u32_mod, label}
use paraxiom.Anchor.Slots.{slot}
use paraxiom.Anchor.Keys.{HasRoom}
use paraxiom.Anchor.Queue.{push_message, queue_head_set, decoded, head_label, tail_label}
use paraxiom.Anchor.Fifo.{
  Refines, pushed, push_message_ok, push_message_full, pushed-Refines, pushed-Refines_ne,
  pushed-owners, push_unclaimed,
}
use paraxiom.Anchor.Pop.{popped-Refines_ne, popped-Refines, length-drop}
use paraxiom.Anchor.Popped.{popped, queue_head_set_ok, queue_head_set_invalid, popped-owners}
use paraxiom.Anchor.Promises.{Model, Op, Queue, promise, promises, push, set_head, set_queue}

module _ (cfg : Config) where
  unfoldable pub exec : Op → Exec Anchor ℕ
  exec (push name v) = push_message cfg name v
  exec (set_head name k) = queue_head_set cfg name k >>= λ _. pure k

  unfoldable pub execs : List Op → Anchor → List (Outcome ℕ) × Anchor
  execs [] s = ([], s)
  execs (op ∷ ops) s = let (r, s') = exec op s in let (rs, s'') = execs ops s' in (r ∷ rs, s'')

  pub record Simulates (s : Anchor) (m : Model) : Type 0 where
    pub claims : (name : H256) → contains_key s.submitter_by_names name ≡ m.claimed name
    pub holds : (name : H256) → Refines cfg s name (m.queue name).head (m.queue name).msgs

  -- A new queue for one name, over states that agree on the owners.
  Simulates-set_queue :
      (s s' : Anchor) (m : Model) (name : H256) (q : Queue)
      → Simulates s m
      → s'.submitter_by_names ≡ s.submitter_by_names
      → Refines cfg s' name q.head q.msgs
      → ((other : H256)
          → name ≢ other
          → Refines cfg s' other (m.queue other).head (m.queue other).msgs)
      → Simulates s' (set_queue m name q)
  unfolding set_queue
  Simulates-set_queue s s' m name q sim owners own others = record {
    claims = λ other. ground (arith, sim.claims other);
    holds = λ other. elim (Bool-cases (nat_beq name other)) [
      | inl same ↦
          let e : name ≡ other = (nat_beq_iff name other).0 same in
          rw same (subst (λ n. Refines cfg s' n q.head q.msgs) e own)
      | inr differ ↦ rw differ (others other (ground (arith, nat_beq_iff name other)))
    ];
  }

  module _ (fits : HasRoom cfg) where
    push-Simulates :
        (name : H256) (v : Bytes) (s : Anchor) (m : Model)
        → Simulates s m
        → (m.queue name).head + length (m.queue name).msgs + 1 < u32_mod
        → let (r, s') = exec (push name v) s in
          let (r', m') = promise cfg.queue_capacity (push name v) m in (r ≡ r') × Simulates s' m'
    unfolding exec promise
    push-Simulates name v s m sim range =
        let q = m.queue name in
        let held = sim.holds name in
        elim (Bool-cases (m.claimed name)) [
          | inr out ↦ rw (push_unclaimed cfg s name v (sim.claims name ∙ out), out) (refl, sim)
          | inl claimed ↦ elim (Bool-cases (ltb (length q.msgs) cfg.queue_capacity)) [
            | inr full ↦
                rw
                  (
                    push_message_full cfg fits name s q.head (q.head + length q.msgs) v
                        held.head_read held.tail_read (sim.claims name ∙ claimed) (ground arith),
                    claimed,
                    full,
                  )
                  (refl, sim)
            | inl room ↦
                rw
                  (
                    push_message_ok cfg fits name s q.head (q.head + length q.msgs) v held.head_read
                        held.tail_read (omega arith) (sim.claims name ∙ claimed) (ground arith),
                    claimed,
                    room,
                  )
                  (
                    refl,
                    Simulates-set_queue s (pushed cfg s name (q.head + length q.msgs) v) m name
                        (record q { msgs = q.msgs ++ v ∷ [] }) sim
                        (pushed-owners cfg s name (q.head + length q.msgs) v)
                        (pushed-Refines cfg s name q.head q.msgs v held range)
                        (λ other ne.
                          pushed-Refines_ne cfg s name other (q.head + length q.msgs)
                            (m.queue other).head (m.queue other).msgs v (omega arith) ne
                            (sim.holds other)),
                  )
          ]
        ]

    exec_set_head :
        (name : H256) (k h t : ℕ) (s : Anchor)
        → decoded cfg (slot cfg s name (label head_label)) ≡ some h
        → decoded cfg (slot cfg s name (label tail_label)) ≡ some t
        → h ≤ k
        → k ≤ t
        → t < u32_mod
        → exec (set_head name k) s ≡ (ok k, popped cfg s name h k)
    unfolding exec
    exec_set_head name k h t s p q hk kt range =
        ground (arith, queue_head_set_ok cfg fits name s h t k p q hk kt range)

    exec_set_head_invalid :
        (name : H256) (k h t : ℕ) (s : Anchor)
        → decoded cfg (slot cfg s name (label head_label)) ≡ some h
        → decoded cfg (slot cfg s name (label tail_label)) ≡ some t
        → (leb h k && leb k t) ≡ false
        → exec (set_head name k) s ≡ (err (anchor invalid_queue_head), s)
    unfolding exec
    exec_set_head_invalid name k h t s p q out =
        ground (arith, queue_head_set_invalid cfg fits name s h t k p q out)

    set_head-Simulates :
        (name : H256) (k : ℕ) (s : Anchor) (m : Model)
        → Simulates s m
        → let (r, s') = exec (set_head name k) s in
          let (r', m') = promise cfg.queue_capacity (set_head name k) m in
          (r ≡ r') × Simulates s' m'
    unfolding promise
    set_head-Simulates name k s m sim =
        let q = m.queue name in
        let held = sim.holds name in
        let t = q.head + length q.msgs in
        elim (Bool-cases (leb q.head k && leb k t)) [
          | inr out ↦
              rw (exec_set_head_invalid name k q.head t s held.head_read held.tail_read out, out)
                (refl, sim)
          | inl inside ↦
              let e : q.head + (k - q.head) ≡ k = ground arith in
              let range : t < u32_mod = held.in_range in
              rw
                (
                  exec_set_head name k q.head t s held.head_read held.tail_read (ground arith)
                      (ground arith) held.in_range,
                  inside,
                )
                (
                  refl,
                  Simulates-set_queue s (popped cfg s name q.head k) m name
                      (record { head = k; msgs = drop (k - q.head) q.msgs }) sim
                      (popped-owners cfg s name q.head k)
                      (subst
                        (λ n.
                          Refines cfg (popped cfg s name q.head n) name n
                            (drop (k - q.head) q.msgs))
                        e
                        (popped-Refines cfg s name q.head (k - q.head) q.msgs held (ground arith)))
                      (λ other ne.
                        popped-Refines_ne cfg s name other q.head k (m.queue other).head
                          (m.queue other).msgs (ground arith) (ground arith) ne (sim.holds other)),
                )
        ]

    exec-Simulates :
        (op : Op) (s : Anchor) (m : Model)
        → Simulates s m
        → ((name : H256) → (m.queue name).head + length (m.queue name).msgs + 1 < u32_mod)
        → let (r, s') = exec op s in
          let (r', m') = promise cfg.queue_capacity op m in (r ≡ r') × Simulates s' m'
    exec-Simulates (push name v) s m sim range = push-Simulates name v s m sim (range name)
    exec-Simulates (set_head name k) s m sim range = set_head-Simulates name k s m sim

  -- An operation adds at most one position to a queue.
  promise-grows :
      (capacity : ℕ) (op : Op) (m : Model) (name : H256)
      → let m' = (promise capacity op m).1 in
        (m'.queue name).head + length (m'.queue name).msgs
        ≤ (m.queue name).head + length (m.queue name).msgs + 1
  unfolding promise set_queue
  promise-grows capacity (push other v) m name =
      ground (arith, length-append (m.queue other).msgs (v ∷ []), nat_beq_iff other name)
  promise-grows capacity (set_head other k) m name = ground (
    arith,
    length-drop cfg (k - (m.queue other).head) (m.queue other).msgs,
    nat_beq_iff other name,
  )

  -- Where the queue's keys fit their bound: over any sequence of pushes and pops of any names, if
  -- no queue can run out of `u32` positions in so many steps, every operation answers what the lists
  -- of messages promise, errors included, and the queues of all names still hold their lists.
  pub execs-Simulates :
      (ops : List Op) (s : Anchor) (m : Model)
      → HasRoom cfg
      → Simulates s m
      → ((name : H256) → (m.queue name).head + length (m.queue name).msgs + length ops < u32_mod)
      → let (rs, s') = execs ops s in
        let (rs', m') = promises cfg.queue_capacity ops m in (rs ≡ rs') × Simulates s' m'
  unfolding execs promises
  execs-Simulates [] s m fits sim range = (refl, sim)
  execs-Simulates (op ∷ ops) s m fits sim range =
      let step = exec-Simulates fits op s m sim (λ name. omega (arith, range name)) in
      let m' = (promise cfg.queue_capacity op m).1 in
      let rest =
        execs-Simulates ops (exec op s).1 m' fits step.1
          (λ name. omega (arith, range name, promise-grows cfg.queue_capacity op m name)) in
      (rw (step.0, rest.0) refl, rest.1)
