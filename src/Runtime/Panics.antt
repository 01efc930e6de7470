-- ===== src/Runtime/Panics.antt =====
-- Which calls of the runtime's three pallets panic.
use paraxiom.Prelude.{
  ◌≡◌, refl, Bool, true, false, arith, nat_eq, list_eq, pair_eq, option_eq, inl, inr, sym, ap, ◌∙◌,
}
use paraxiom.Frame.{Origin, signed, is_panic, transactional, Outcome-cases}
use paraxiom.Storage.{get-empty}
use paraxiom.Anchor.State.{Codec}
use paraxiom.Anchor.Rollup.{Node}
use paraxiom.Anchor.Slots.{slot}
use paraxiom.Anchor.Tame.{Tame}
use paraxiom.Registry.{register_feed, unregister_feed}
use paraxiom.Oracle.State.{Backend, Env}
use paraxiom.Oracle.Calls.{feeds, average}
use paraxiom.Runtime.Calls.{Call}
use paraxiom.Runtime.Quiet.{
  cfg, Fine, claim_name-Calm, rollup-Calm, request-Calm, feeds-Calm, average_same,
}
use paraxiom.Runtime.{dispatch, call, genesis}

abbrev pub is_signed : Origin → Bool
is_signed (signed who) = true
is_signed _ = false

-- The call that ends in `todo!`.
abbrev pub is_todo : Origin → Call → Bool
is_todo origin Call.average = is_signed origin
is_todo origin _ = false

module _ (codec : Codec) where
  -- A rollup among the calls leaves the labels of the queue alone.
  abbrev pub TameCall : Call → Type 0
  TameCall (Call.rollup name tx nonce) = Tame (cfg codec) tx
  TameCall _ = Unit

  module _ (env : Env) where
    call-Fine :
        (origin : Origin) (c : Call) (n : Node Backend)
        → TameCall c
        → Fine codec n
        → (is_panic (call codec env origin c n).0 ≡ is_todo origin c)
          × Fine codec (call codec env origin c n).1
    unfolding feeds average register_feed unregister_feed
    call-Fine origin (Call.claim_name name) n tame h =
        (claim_name-Calm codec origin name).runs n.pallet h
    call-Fine origin (Call.rollup name tx nonce) n tame h =
        (rollup-Calm codec env origin name tx nonce tame).runs n h
    call-Fine origin (Call.register_feed key url path) n tame h = (ground arith, h)
    call-Fine origin (Call.unregister_feed key) n tame h = (ground arith, h)
    call-Fine origin (Call.request key nonce) n tame h =
        (request-Calm codec env origin key nonce).runs n h
    call-Fine origin (Call.feeds name payload nonce) n tame h =
        (feeds-Calm codec env origin name payload nonce).runs n h
    call-Fine origin Call.average n tame h = (ground arith, rw (average_same codec env origin n) h)

    -- Nor does the storage layer change that.
    dispatch-Fine :
        (origin : Origin) (c : Call) (n : Node Backend)
        → TameCall c
        → Fine codec n
        → (is_panic (dispatch codec env origin c n).0 ≡ is_todo origin c)
          × Fine codec (dispatch codec env origin c n).1
    unfolding dispatch
    dispatch-Fine origin c n tame h =
        let (quiet, after) = call-Fine origin c n tame h in
        elim (Outcome-cases (call codec env origin c n).0) [
          | inl (a, e) ↦ rw (e, transactional) (sym (ap is_panic e) ∙ quiet, after)
          | inr (inl (g, e)) ↦ rw (e, transactional) (sym (ap is_panic e) ∙ quiet, h)
          | inr (inr e) ↦ rw (e, transactional) (sym (ap is_panic e) ∙ quiet, h)
        ]

  -- The states that calls lead to from the genesis, in any blocks, by any origins, where every rollup
  -- leaves the labels of the queue alone.
  pub data TameReach : Node Backend → Type 0 where
    start : TameReach genesis
    next :
        {n : Node Backend} (env : Env) (origin : Origin) (c : Call)
        → TameCall c
        → TameReach n
        → TameReach (dispatch codec env origin c n).1

  genesis-Fine : Fine codec genesis
  unfolding slot
  genesis-Fine = record {
    head = λ name. (0, rw (get-empty) refl, omega arith);
    tail = λ name. (0, rw (get-empty) refl, omega arith);
  }

  TameReach-Fine : {n : Node Backend} → TameReach n → Fine codec n
  TameReach-Fine start = genesis-Fine
  TameReach-Fine (next {n} env origin c tame r) =
      (dispatch-Fine env origin c n tame (TameReach-Fine r)).1

  -- In every state that calls lead to from the genesis, whoever makes them, as long as no rollup's
  -- updates touch the keys of `_head` and `_tail`: a call panics if it is `average` with a signed
  -- origin, which ends in `todo!`, and no other call does, each of which returns or fails with an
  -- error.
  pub dispatch_panics :
      (env : Env) (origin : Origin) (c : Call) {n : Node Backend}
      → TameReach n
      → TameCall c
      → is_panic (dispatch codec env origin c n).0 ≡ is_todo origin c
  dispatch_panics env origin c {n} r tame = (dispatch-Fine env origin c n tame (TameReach-Fine r)).0
