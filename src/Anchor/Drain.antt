-- ===== src/Anchor/Drain.antt =====
-- A contract that takes its messages one at a time.
use paraxiom.Prelude.{
  ℕ, zero, suc, ◌+◌, ◌<◌, ◌≡◌, refl, some, Option, List, [], ◌∷◌, length, map, arith, ap, sym,
}
use mathlib.Core.Path.{subst}
use paraxiom.Frame.{Bytes, H256, ok, Exec, pure, ◌>>=◌, ◌>>◌}
use paraxiom.Anchor.State.{Anchor, Config, at, u32_mod}
use paraxiom.Anchor.Queue.{queue_get, queue_head_set}
use paraxiom.Anchor.Keys.{HasRoom}
use paraxiom.Anchor.Slots.{queue_get_lem}
use paraxiom.Anchor.Fifo.{Refines}
use paraxiom.Anchor.Popped.{popped, queue_head_set_ok}
use paraxiom.Anchor.Pop.{popped-Refines}

-- What a call that succeeds returns, with a value put in front.
put_first :
    {A S : Type 0} (P : S → Type 0) (call : Exec S (List A)) (s : S) (x : A) (xs : List A)
    → ((call s).0 ≡ ok xs) × P (call s).1
    → let (r, s') = (call >>= λ rest. pure (x ∷ rest)) s in (r ≡ ok (x ∷ xs)) × P s'
put_first P call s x xs (e, p) =
    let both : (call >>= λ rest. pure (x ∷ rest)) s ≡ (ok (x ∷ xs), (call s).1) =
      ground (arith, e) in
    (ap (λ z. z.0) both, subst (λ z. P z.1) (sym both) p)

module _ (cfg : Config) where
  -- Reads the message at the head and moves the head behind it, as often as is said.
  unfoldable pub take_messages : H256 → ℕ → ℕ → Exec Anchor (List (Option Bytes))
  take_messages name h zero = pure []
  take_messages name h (suc rounds) = do
    message ← queue_get cfg name (at h)
    queue_head_set cfg name (h + 1)
    rest ← take_messages name (h + 1) rounds
    pure (message ∷ rest)

  -- One round.
  take_one :
      (s : Anchor) (name : H256) (h rounds : ℕ) (m : Bytes) (msgs : List Bytes)
      → HasRoom cfg
      → Refines cfg s name h (m ∷ msgs)
      → take_messages name h (suc rounds) s ≡ (
          (take_messages name (h + 1) rounds >>= λ rest. pure (some m ∷ rest))
            (popped cfg s name h (h + 1)))
  unfolding take_messages
  take_one s name h rounds m msgs fits q =
      let range : h + suc (length msgs) < u32_mod = q.in_range in
      ground (
        arith,
        queue_get_lem cfg fits name s (at h) (omega arith),
        q.held.0,
        queue_head_set_ok cfg fits name s h (h + suc (length msgs)) (h + 1) q.head_read q.tail_read
            (omega arith) (omega arith) q.in_range,
      )

  -- Where the queue's keys fit their bound: taking messages one at a time from a queue ends after as
  -- many rounds as it holds messages, none of which fails; they come in the order in which they
  -- stand, all of them, and the queue is then empty.
  pub take_messages-Refines :
      (s : Anchor) (name : H256) (h : ℕ) (msgs : List Bytes)
      → HasRoom cfg
      → Refines cfg s name h msgs
      → let (r, s') = take_messages name h (length msgs) s in
        (r ≡ ok (map some msgs)) × Refines cfg s' name (h + length msgs) []
  unfolding take_messages
  take_messages-Refines s name h [] fits q =
      (refl, subst (λ k. Refines cfg s name k []) (omega arith) q)
  take_messages-Refines s name h (m ∷ msgs) fits q =
      let s' = popped cfg s name h (h + 1) in
      let rest = take_messages name (h + 1) (length msgs) in
      let end : h + 1 + length msgs ≡ h + suc (length msgs) = omega arith in
      let ih =
        take_messages-Refines s' name (h + 1) msgs fits
          (popped-Refines cfg s name h 1 (m ∷ msgs) q (omega arith)) in
      subst
        (λ z. (z.0 ≡ ok (map some (m ∷ msgs))) × Refines cfg z.1 name (h + suc (length msgs)) [])
        (sym (take_one s name h (length msgs) m msgs fits q))
        (put_first (λ t. Refines cfg t name (h + suc (length msgs)) []) rest s' (some m)
          (map some msgs) (ih.0, subst (λ k. Refines cfg (rest s').1 name k []) end ih.1))
