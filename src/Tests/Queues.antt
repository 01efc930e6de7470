-- ===== src/Tests/Queues.antt =====
-- What can happen to the anchor, at concrete sequences of operations.
use paraxiom.Frame.{is_panic}
use paraxiom.Prelude.{ℕ, ◌+◌, ◌≡◌, refl, [], ◌∷◌, arith, nat_eq, list_eq, pair_eq}
use paraxiom.Frame.{Bytes, signed, ok, err}
use paraxiom.Errors.{anchor}
use paraxiom.Storage.{get-empty}
use paraxiom.Anchor.State.{RollupTx}
use paraxiom.Anchor.Queue.{push_message, queue_head_set}
use paraxiom.Anchor.Slots.{slot}
use paraxiom.Anchor.Rollup.{Node, rollup}
use paraxiom.Anchor.Updates.{last_update}
use paraxiom.Prelude.{false}
use paraxiom.Errors.{invalid_queue_head}
use paraxiom.Anchor.Rollup.{on_anchor}
use paraxiom.Anchor.Bounds.{Fits, FitReach, FitReach-Fits}
use paraxiom.Anchor.Readable.{Readable}
use paraxiom.Anchor.Totality.{TameReach-total}
use paraxiom.Anchor.Tame.{Tame, TameReach}
use paraxiom.Tests.Codec.{config}
use paraxiom.Tests.Anchor.{claimed, handler, node, claimed-owner}
use paraxiom.Anchor.Span.{Short}
use paraxiom.Anchor.Capacity.{TameReach-queue_len, TameReach-rounds}
use paraxiom.Anchor.Jump.{jump_to, moved, rollup_jumps}
use paraxiom.Anchor.Popped.{head_loop}
use paraxiom.Anchor.Queue.{queue_len, queue_head}
use paraxiom.Prelude.{◌≤◌, ◌⊎◌}

claimed-Readable : Readable config claimed
unfolding slot
claimed-Readable = record {
  head = λ name. (0, rw (get-empty) refl, omega arith);
  tail = λ name. (0, rw (get-empty) refl, omega arith);
}

-- Takes the first message from the queue.
abbrev pop_one : RollupTx
pop_one = record { conds = []; actions = (1 ∷ 1 ∷ 0 ∷ 0 ∷ 0 ∷ []) ∷ []; updates = [] }

pop_one-Tame : Tame config pop_one
unfolding last_update
pop_one-Tame = record { head = refl; tail = refl }

TameReach-total_example :
    let n' =
      (rollup config handler
        (signed 7)
        1
        pop_one
        0
        (on_anchor (push_message config 1 (5 ∷ [])) node).1).1 in
    (is_panic (push_message config 1 [] n'.pallet).0 ≡ false)
    × (is_panic (queue_head_set config 1 9 n'.pallet).0 ≡ false)
TameReach-total_example = TameReach-total config handler 1 [] 9 (omega arith) claimed-Readable (
    TameReach.rolls (signed 7) 1 pop_one 0 pop_one-Tame
      (TameReach.pushes 1 (5 ∷ []) TameReach.here))

claimed-Fits : Fits claimed
claimed-Fits = record {
  fits = λ name k v e. absurd (ground (arith, get-empty {K = ℕ × Bytes} {V = Bytes} (name, k)));
}

FitReach-Fits_example :
    Fits
      (rollup config handler
        (signed 7)
        1
        pop_one
        0
        (on_anchor (push_message config 1 (5 ∷ [])) node).1).1.pallet
FitReach-Fits_example = FitReach-Fits config handler claimed-Fits (
    FitReach.rolls (signed 7) 1 pop_one 0 tt
      (FitReach.pushes 1 (5 ∷ []) (omega arith) FitReach.here))

claimed-Short : Short config claimed
unfolding slot
claimed-Short name = record {
  head = 0;
  tail = 0;
  head_read = rw (get-empty) refl;
  tail_read = rw (get-empty) refl;
  head_range = omega arith;
  tail_range = omega arith;
  short = omega arith;
}

-- A message is pushed, and taken.
abbrev popped_one : Node ℕ
popped_one =
    (rollup config handler (signed 7) 1 pop_one 0
      (on_anchor (push_message config 1 (5 ∷ [])) node).1).1

popped_one-reached : TameReach config handler node popped_one
popped_one-reached =
    TameReach.rolls (signed 7) 1 pop_one 0 pop_one-Tame (TameReach.pushes 1 (5 ∷ []) TameReach.here)

TameReach-queue_len_example :
    let s = popped_one.pallet in
    (len : ℕ) × (queue_len config 1 s ≡ (ok len, s)) × (len ≤ config.queue_capacity)
TameReach-queue_len_example =
    TameReach-queue_len config handler 1 (omega arith) claimed-Short popped_one-reached

TameReach-rounds_example :
    let s = popped_one.pallet in
    (queue_head_set config 1 1 s ≡ (err (anchor invalid_queue_head), s))
    ⊎ ((head rounds : ℕ) × (queue_head config 1 s ≡ (ok head, s))
        × (head + rounds ≡ 1)
        × (rounds ≤ config.queue_capacity)
        × (queue_head_set config 1 1 s ≡ head_loop config 1 head rounds 1 s)
        × ((queue_head_set config 1 1 s).0 ≡ ok tt))
TameReach-rounds_example =
    TameReach-rounds config handler 1 1 (omega arith) claimed-Short popped_one-reached

-- A jump over four thousand million positions of an empty queue.
abbrev far : Bytes
far = 1 ∷ 255 ∷ 255 ∷ 255 ∷ 255 ∷ []

rollup_jumps_example :
    rollup config handler (signed 7) 1 (jump_to config far 4294967295) 0 node
    ≡ (ok tt, moved config handler 7 1 far 0 4294967295 0 node)
unfolding slot
rollup_jumps_example =
    rollup_jumps config handler 7 1 far 0 4294967295 0 node (omega arith) claimed-owner refl
      (rw (get-empty) refl) (omega arith) (omega arith)
