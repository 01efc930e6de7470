-- ===== src/Anchor/Tame.antt =====
-- What can happen to the anchor where no rollup writes over the labels of a queue, and what it keeps.
use paraxiom.Prelude.{ℕ, ◌≡◌, none}
use paraxiom.Frame.{Bytes, H256, AccountId, Origin, Exec}
use paraxiom.Anchor.State.{Anchor, Config, label, RollupTx}
use paraxiom.Anchor.Queue.{push_message, head_label, tail_label}
use paraxiom.Anchor.Keys.{key_of}
use paraxiom.Anchor.Rollup.{Node, on_anchor, rollup, claim_name, apply_updates}
use paraxiom.Anchor.Updates.{last_update}
use paraxiom.Anchor.Through.{Kept, rollup-On}

-- A transaction whose updates leave the labels of the queue alone.
pub record Tame (cfg : Config) (tx : RollupTx) : Type 0 where
  pub head : last_update (key_of cfg (label head_label)) tx.updates ≡ none
  pub tail : last_update (key_of cfg (label tail_label)) tx.updates ≡ none

-- A property of the anchor that each part of these operations keeps.
pub record Carried (cfg : Config) (I : Anchor → Type 0) : Type 0 where
  pub kept : (name : H256) → Kept cfg (λ s s'. I s → I s') name
  pub claimed : (origin : Origin) (name : H256) (s : Anchor) → I s → I (claim_name origin name s).1
  pub updated :
      (name : H256) (tx : RollupTx) (s : Anchor)
      → Tame cfg tx
      → I s
      → I (apply_updates name tx.updates s)
  pub pushed :
      (name : H256) (message : Bytes) (s : Anchor) → I s → I (push_message cfg name message s).1

module _ (cfg : Config) {S : Type 0} (on_response : H256 → AccountId → Bytes → Exec S Unit) where
  -- What can happen to the anchor where every rollup leaves the labels alone.
  pub data TameReach (n : Node S) : Node S → Type 0 where
    here : TameReach n n
    claims :
        {t : Node S} (origin : Origin) (name : H256)
        → TameReach n t
        → TameReach n (on_anchor (claim_name origin name) t).1
    rolls :
        {t : Node S} (origin : Origin) (name : H256) (tx : RollupTx) (nonce : ℕ)
        → Tame cfg tx
        → TameReach n t
        → TameReach n (rollup cfg on_response origin name tx nonce t).1
    pushes :
        {t : Node S} (name : H256) (message : Bytes)
        → TameReach n t
        → TameReach n (on_anchor (push_message cfg name message) t).1
    elsewhere : {t : Node S} (app : S) → TameReach n t → TameReach n (record t { app = app })

  pub TameReach-carries :
      {n n' : Node S} (I : Anchor → Type 0)
      → Carried cfg I
      → I n.pallet
      → TameReach n n'
      → I n'.pallet
  TameReach-carries I c q here = q
  TameReach-carries I c q (claims {t} origin name r) =
      c.claimed origin name t.pallet (TameReach-carries I c q r)
  TameReach-carries I c q (rolls {t} origin name tx nonce tame r) =
      (rollup-On cfg on_response (λ s s'. I s → I s') name (c.kept name) origin tx nonce
          (λ s. c.updated name tx s tame)).moves
        t (TameReach-carries I c q r)
  TameReach-carries I c q (pushes {t} name message r) =
      c.pushed name message t.pallet (TameReach-carries I c q r)
  TameReach-carries I c q (elsewhere app r) = TameReach-carries I c q r
