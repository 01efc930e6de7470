-- ===== src/Anchor/Sessions.antt =====
-- Two clients that work on the same snapshot of a name's store.
use mathlib.Core.List.{map-append}
use paraxiom.Anchor.Takes.{rollup_takes}
use paraxiom.Prelude.{
  ℕ, ◌+◌, ◌-◌, ◌%◌, ◌<◌, ◌≤◌, ◌≡◌, ◌≢◌, refl, ap, true, some, none, Option, List, [], ◌∷◌, ◌++◌,
  All, arith, length, le→leb, map, option_eq, list_eq, nat_eq, pair_eq, Option-cases, take, inl,
  inr, ◌∙◌,
}
use paraxiom.Frame.{Bytes, H256, AccountId, signed, Exec}
use paraxiom.Frame as Frame
use paraxiom.Errors.{anchor, cond_not_met}
use paraxiom.Attempt.{ok}
use paraxiom.Storage.{get}
use paraxiom.Anchor.State.{Anchor, Config, Action, set_queue_head, RollupTx, label, u32_mod, Codec}
use paraxiom.Anchor.Queue.{
  queue_len, decoded, head_label, tail_label, max_key_bytes, max_value_bytes,
}
use paraxiom.Anchor.Keys.{HasRoom}
use paraxiom.Anchor.Slots.{slot}
use paraxiom.Anchor.Rollup.{Node, rollup}
use paraxiom.Anchor.Updates.{Meets, last_update}
use paraxiom.Anchor.Bounds.{FitsUpdate}
use paraxiom.Anchor.Tame.{Tame}
use paraxiom.Anchor.Conflict.{Apart, rollup_conflicts}
use paraxiom.Anchor.Client.{
  KvRollup, fitted_pairs, cond, bump_version, head_actions, rollup_tx, Sessions, rolled_at,
  max_action_bytes,
}

fitted_pairs_lem :
    {E : Type 0} (pairs : List (Bytes × Option Bytes))
    → All FitsUpdate pairs
    → fitted_pairs {E = E} pairs ≡ ok pairs
unfolding fitted_pairs
fitted_pairs_lem [] h = refl
fitted_pairs_lem {E} ((k, some v) ∷ pairs) h = ground (
  arith,
  le→leb (length k) max_key_bytes h.0.0,
  le→leb (length v) max_value_bytes h.0.1,
  fitted_pairs_lem {E = E} pairs h.1,
)
fitted_pairs_lem {E} ((k, none) ∷ pairs) h =
    ground (arith, le→leb (length k) max_key_bytes h.0, fitted_pairs_lem {E = E} pairs h.1)

module _ {E : Type 0} (codec : Codec) (failed_to_decode : E) where
  -- A version is never bumped to itself.
  pub bump_version-ne :
      (version : Option Bytes) (bumped : Bytes)
      → bump_version codec failed_to_decode version ≡ ok bumped
      → some bumped ≢ version
  unfolding bump_version
  bump_version-ne none bumped e same = cc
  bump_version-ne (some v) bumped e same = elim (Option-cases (codec.decode_u32 v)) [
    | inl bad ↦ absurd (ground arith)
    | inr (ov, good) ↦ absurd (
        ground (
          arith,
          codec.decode-encode_u32 ((ov + 1) % u32_mod),
          λ (p : bumped ≡ v). ap codec.decode_u32 p,
        ))
  ]

-- The transaction of a rolled-up session.
abbrev pub tx_of : (Action → Bytes) → KvRollup → RollupTx
tx_of encode_action r = record {
  conds = map cond r.conditions;
  actions = head_actions encode_action r.queue_head;
  updates = r.updates;
}

-- What a session rests on is what the snapshot holds, and all of it fits.
pub record Session (s : Anchor) (name : H256) (r : KvRollup) : Type 0 where
  pub conditions_fit : All FitsUpdate r.conditions
  pub updates_fit : All FitsUpdate r.updates
  pub read : All (Meets s name) (map cond r.conditions)

module _ {E Tx : Type 0} (sessions : Sessions E Tx) (codec : Codec) where
  open sessions use {encode_action, has_updates}

  pub rollup_tx_lem :
      (name : H256) (s : Anchor) (tx : Tx) (r : KvRollup)
      → rolled_at sessions codec name s tx ≡ ok r
      → has_updates r ≡ true
      → Session s name r
      → rollup_tx sessions codec name s tx ≡ ok (some (tx_of encode_action r))
  unfolding rollup_tx
  rollup_tx_lem name s tx r e u q = ground (
    arith,
    fitted_pairs_lem {E = E} r.conditions q.conditions_fit,
    fitted_pairs_lem {E = E} r.updates q.updates_fit,
  )

-- A session that writes to a key, and so bumps the version of the key from what it has read.
pub record Bumps {E : Type 0} (codec : Codec) (failed_to_decode : E) (r : KvRollup) (key : Bytes)
    (old : Option Bytes) : Type 0 where
  pub new : Bytes
  pub bumped : bump_version codec failed_to_decode old ≡ ok new
  pub written : last_update key r.updates ≡ some (some new)

module _ (cfg : Config) {S : Type 0} (on_response : H256 → AccountId → Bytes → Exec S Unit)
    {E Tx : Type 0} (sessions : Sessions E Tx) where
  open sessions use {failed_to_decode, encode_action, has_updates}

  -- Where the queue's keys fit their bound: two clients roll up sessions on the same snapshot of a
  -- name, both sessions rest on what the snapshot holds and fit, and the second rests on a key
  -- apart from the queue whose version the first bumps. Both get a transaction. The first moves
  -- the head inside of the queue; the anchor takes the owner's submission of it, and the messages
  -- behind the new head are left. The second is then refused, and changes nothing.
  pub sessions_conflict :
      (who : AccountId) (name : H256) (first second : Tx) (r r' : KvRollup) (key : Bytes)
      (before behind : List (Bytes × Option Bytes)) (h t k nonce nonce' : ℕ) (n : Node S)
      → HasRoom cfg
      → get n.pallet.submitter_by_names name ≡ some who
      → rolled_at sessions cfg.codec name n.pallet first ≡ ok r
      → rolled_at sessions cfg.codec name n.pallet second ≡ ok r'
      → has_updates r ≡ true
      → has_updates r' ≡ true
      → Session n.pallet name r
      → Session n.pallet name r'
      → Tame cfg (tx_of encode_action r)
      → r.queue_head ≡ some k
      → cfg.codec.decode_action (take max_action_bytes (encode_action (set_queue_head k)))
        ≡ some (set_queue_head k)
      → decoded cfg (slot cfg n.pallet name (label head_label)) ≡ some h
      → decoded cfg (slot cfg n.pallet name (label tail_label)) ≡ some t
      → h ≤ k
      → k ≤ t
      → t < u32_mod
      → Apart cfg key
      → Bumps cfg.codec failed_to_decode r key (get n.pallet.states (name, key))
      → r'.conditions ≡ before ++ (key, get n.pallet.states (name, key)) ∷ behind
      → let tx = tx_of encode_action r in
        let tx' = tx_of encode_action r' in
        let (o, n') = rollup cfg on_response (signed who) name tx nonce n in
        (rollup_tx sessions cfg.codec name n.pallet first ≡ ok (some tx))
        × (rollup_tx sessions cfg.codec name n.pallet second ≡ ok (some tx'))
        × (o ≡ Frame.ok tt)
        × (queue_len cfg name n'.pallet ≡ (Frame.ok (t - k), n'.pallet))
        × (rollup cfg on_response (signed who) name tx' nonce' n'
            ≡ (Frame.err (anchor cond_not_met), n'))
  sessions_conflict who name first second r r' key before behind h t k nonce nonce' n fits owner e
        e' u u' q q' tame moved code head tail hk kt range apart bumps rests =
      let old = get n.pallet.states (name, key) in
      let taken =
        rollup_takes cfg on_response fits who name (tx_of encode_action r) nonce n
          (take max_action_bytes (encode_action (set_queue_head k))) h t k owner q.read tame
          (ap (head_actions encode_action) moved) code head tail hk kt range in
      (
        rollup_tx_lem sessions cfg.codec name n.pallet first r e u q,
        rollup_tx_lem sessions cfg.codec name n.pallet second r' e' u' q',
        taken.0,
        taken.1,
        rollup_conflicts cfg on_response who name (tx_of encode_action r) nonce n key old
            (some bumps.new) (tx_of encode_action r') (map cond before) (map cond behind) nonce'
            apart taken.0 bumps.written
            (bump_version-ne cfg.codec failed_to_decode old bumps.new bumps.bumped)
            (ap (map cond) rests ∙ map-append cond before ((key, old) ∷ behind)),
      )
