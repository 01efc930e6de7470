-- ===== src/Anchor/Bounds.antt =====
-- The keys and the values of the store fit their bounded types, whatever happens to the anchor.
use paraxiom.Prelude.{
  ℕ, ◌≤◌, ◌≡◌, ap, sym, ◌∙◌, some, none, Option, List, [], ◌∷◌, ◌++◌, All, arith, length, leb,
  leb→le, nat_beq_iff, Bool-cases, inl, inr, nat_eq, list_eq, pair_eq,
}
use paraxiom.Frame.{bytes_beq_iff, Bytes, H256, AccountId, Origin, Exec}
use paraxiom.Frame.Within.{Within}
use paraxiom.Storage.{get, insert, remove, get-insert, get-remove}
use paraxiom.Anchor.State.{Anchor, Config, Index, RollupTx}
use paraxiom.Anchor.Queue.{
  queue_set, queue_remove, queue_key, encode_index, max_key_bytes, max_value_bytes, push_message,
}
use paraxiom.Anchor.Cells.{Cells, queue_head_set-keeps, push_message-keeps}
use paraxiom.Anchor.Through.{claim_name-states, Kept, rollup-On}
use paraxiom.Anchor.Rollup.{Node, on_anchor, rollup, claim_name, apply_updates}

-- A value fits `ValueBytes`, and a key fits `KeyBytes`.
abbrev pub FitsValue : Bytes → Type 0
FitsValue v = length v ≤ max_value_bytes

abbrev pub FitsKey : Bytes → Type 0
FitsKey key = length key ≤ max_key_bytes

-- All that is stored fits.
pub record Fits (s : Anchor) : Type 0 where
  pub fits :
      (name : H256) (key v : Bytes) → get s.states (name, key) ≡ some v → FitsKey key × FitsValue v

abbrev pub FitsUpdate : Bytes × Option Bytes → Type 0
FitsUpdate (key, some v) = FitsKey key × FitsValue v
FitsUpdate (key, none) = FitsKey key

abbrev Keeps : Anchor → Anchor → Type 0
Keeps s s' = Fits s → Fits s'

insert-Fits :
    (s : Anchor) (name : H256) (key v : Bytes)
    → FitsKey key
    → FitsValue v
    → Fits s
    → Fits (record s { states = insert s.states (name, key) v })
insert-Fits s name key v fk fv q = record {
  fits = λ other k w e. ground (
    arith,
    get-insert s.states (name, key) (other, k) v,
    bytes_beq_iff key k,
    nat_beq_iff name other,
    λ (same : key ≡ k). ap length same,
    λ (same : v ≡ w). ap length same,
    q.fits other k w,
    fk,
    fv,
  );
}

remove-Fits :
    (s : Anchor) (name : H256) (key : Bytes)
    → Fits s
    → Fits (record s { states = remove s.states (name, key) })
remove-Fits s name key q = record {
  fits =
      λ other k w e. ground (arith, get-remove s.states (name, key) (other, k), q.fits other k w);
}

module _ (cfg : Config) where
  queue_set-Keeps :
      (name : H256) (x : Index) (v : Bytes) → FitsValue v → Within Keeps (queue_set cfg name x v)
  unfolding queue_set queue_key
  queue_set-Keeps name x v fv = record {
    moves = λ s q.
        let key = cfg.queue_prefix ++ encode_index cfg x in
        elim (Bool-cases (leb (length key) max_key_bytes)) [
          | inl short ↦
              rw short (insert-Fits s name key v (leb→le (length key) max_key_bytes short) fv q)
          | inr long ↦ rw long q
        ];
  }

  queue_remove-Keeps : (name : H256) (x : Index) → Within Keeps (queue_remove cfg name x)
  unfolding queue_remove queue_key
  queue_remove-Keeps name x = record {
    moves = λ s q.
        let key = cfg.queue_prefix ++ encode_index cfg x in
        elim (Bool-cases (leb (length key) max_key_bytes)) [
          | inl short ↦ rw short (remove-Fits s name key q)
          | inr long ↦ rw long q
        ];
  }

  Keeps-Cells : (name : H256) → Cells cfg Keeps name FitsValue
  Keeps-Cells name = record {
    same = λ s q. q;
    then = λ x y z f g q. g (f q);
    writes = queue_set-Keeps name;
    frees = queue_remove-Keeps name;
    numbers = λ n. omega (arith, cfg.codec.length-encode_u32 n);
  }

  Keeps-Kept : (name : H256) → Kept cfg Keeps name
  Keeps-Kept name = record {
    same = λ s q. q;
    then = λ x y z f g q. g (f q);
    deposited = λ s events q. record { fits = q.fits };
    head_set = queue_head_set-keeps cfg Keeps name FitsValue (Keeps-Cells name);
  }

apply_updates-Fits :
    (name : H256) (updates : List (Bytes × Option Bytes)) (s : Anchor)
    → All FitsUpdate updates
    → Fits s
    → Fits (apply_updates name updates s)
unfolding apply_updates
apply_updates-Fits name [] s h q = q
apply_updates-Fits name ((key, some v) ∷ updates) s h q =
    apply_updates-Fits name updates _ h.1 (insert-Fits s name key v h.0.0 h.0.1 q)
apply_updates-Fits name ((key, none) ∷ updates) s h q =
    apply_updates-Fits name updates _ h.1 (remove-Fits s name key q)

module _ (cfg : Config) {S : Type 0} (on_response : H256 → AccountId → Bytes → Exec S Unit) where
  -- The states that claims, rollups and pushes lead to, with arguments that fit their types.
  pub data FitReach (n : Node S) : Node S → Type 0 where
    here : FitReach n n
    claims :
        {t : Node S} (origin : Origin) (name : H256)
        → FitReach n t
        → FitReach n (on_anchor (claim_name origin name) t).1
    rolls :
        {t : Node S} (origin : Origin) (name : H256) (tx : RollupTx) (nonce : ℕ)
        → All FitsUpdate tx.updates
        → FitReach n t
        → FitReach n (rollup cfg on_response origin name tx nonce t).1
    pushes :
        {t : Node S} (name : H256) (message : Bytes)
        → FitsValue message
        → FitReach n t
        → FitReach n (on_anchor (push_message cfg name message) t).1
    elsewhere : {t : Node S} (app : S) → FitReach n t → FitReach n (record t { app = app })

  -- From a store in which all fits: whatever claims, rollups and pushes follow, by whomever, as long
  -- as their arguments fit the types that the pallet gives them, every key that is stored has at most
  -- 128 bytes and every value at most 2048, those that the queue makes itself included.
  pub FitReach-Fits : {n n' : Node S} → Fits n.pallet → FitReach n n' → Fits n'.pallet
  FitReach-Fits q here = q
  FitReach-Fits q (claims {t} origin name r) =
      let before = FitReach-Fits q r in
      record {
        fits = λ other key v e.
            before.fits other key v
              (ap (λ m. get m (other, key)) (sym (claim_name-states origin name t.pallet)) ∙ e);
      }
  FitReach-Fits q (rolls {t} origin name tx nonce fit r) =
      (rollup-On cfg on_response Keeps name (Keeps-Kept cfg name) origin tx nonce
          (λ s. apply_updates-Fits name tx.updates s fit)).moves
        t (FitReach-Fits q r)
  FitReach-Fits q (pushes {t} name message fit r) =
      (push_message-keeps cfg Keeps name FitsValue (Keeps-Cells cfg name) message fit).moves
        t.pallet (FitReach-Fits q r)
  FitReach-Fits q (elsewhere app r) = record { fits = (FitReach-Fits q r).fits }
