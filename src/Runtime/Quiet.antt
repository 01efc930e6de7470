-- ===== src/Runtime/Quiet.antt =====
-- The calls of the runtime's pallets, one by one: none of them panics where the labels of all queues can
-- be read.
use paraxiom.Prelude.{
  ℕ, ◌≡◌, refl, false, List, [], ◌∷◌, arith, leb, length, if◌then◌else◌, nat_eq, list_eq, pair_eq,
  option_eq,
}
use paraxiom.Errors.{
  anchor, failed_to_decode_action, oracle, failed_to_get_api_feed, api_feed_not_active,
  failed_to_encode_data,
}
use paraxiom.Frame.{
  Bytes, H256, AccountId, Origin, Exec, ok_or, ensure_signed, modify, is_panic, ◌>>=◌, gets, ensure,
  pure, raise, map_err,
}
use paraxiom.Frame.Calm.{
  Calm, Calm-bind, Calm-transactional, Calm-map_err, Calm-same, Calm-pure, Calm-gets, Calm-ensure,
  Calm-ok_or, Calm-ensure_signed, Calm-if, Calm-raise,
}
use paraxiom.Storage.{get}
use paraxiom.Anchor.State.{
  Anchor, Codec, Config, RollupTx, Action, reply, set_queue_head, rollup_executed,
}
use paraxiom.Anchor.Queue.{push_message, max_value_bytes}
use paraxiom.Anchor.Rollup.{
  Node, on_anchor, on_app, claim_name, rollup, ensure_name_owner, check_conds, apply_updates,
  exec_action, exec_actions, deposit_event,
}
use paraxiom.Anchor.Updates.{dec_Meets, check_conds-met, check_conds-unmet}
use paraxiom.Anchor.Readable.{Readable, push_message-Readable, queue_head_set-Readable}
use paraxiom.Anchor.Slots.{slot}
use paraxiom.Anchor.Tame.{Tame}
use paraxiom.Anchor.Totality.{Readable-Carried}
use paraxiom.Errors.{
  failed_to_find_oracle_feeds, failed_to_push_message_to_anchor, failed_to_encode_data,
}
use paraxiom.Registry.{is_active_status}
use paraxiom.Oracle.State.{Backend, Env, Oracle, oracle_request}
use paraxiom.Oracle.Calls as Oracle
use paraxiom.Storage.{insert}
use paraxiom.Oracle.Calls.{request_id, request, feeds, average, on_response, set_oracle}
use paraxiom.Runtime.{runtime_config}

module _ (codec : Codec) where
  abbrev pub cfg : Config
  cfg = runtime_config codec

  -- The labels of all queues can be read.
  abbrev pub Fine : Node Backend → Type 0
  Fine n = Readable cfg n.pallet

  on_anchor-Calm :
      {A : Type 0} (m : Exec Anchor A) → Calm (Readable cfg) m → Calm Fine (on_anchor m)
  on_anchor-Calm m c = record { runs = λ n h. c.runs n.pallet h }

  on_app-Calm :
      {A : Type 0} (m : Exec Backend A)
      → ((b : Backend) → is_panic (m b).0 ≡ false)
      → Calm Fine (on_app m)
  on_app-Calm m quiet = record { runs = λ n h. (quiet n.app, h) }

  pub claim_name-Calm :
      (origin : Origin) (name : H256) → Calm (Readable cfg) (claim_name origin name)
  unfolding claim_name
  claim_name-Calm origin name = record {
    runs = λ s h. (ground arith, (Readable-Carried cfg (omega arith)).claimed origin name s h);
  }

  check_conds-Calm : (name : H256) (tx : RollupTx) → Calm (Readable cfg) (check_conds name tx.conds)
  check_conds-Calm name tx = Calm-same (Readable cfg) (check_conds name tx.conds) λ s.
      elim (dec_Meets s name tx.conds) [
        | yes met ↦ rw (check_conds-met s name tx.conds met) (refl, refl)
        | no unmet ↦ rw (check_conds-unmet s name tx.conds unmet) (refl, refl)
      ]

  module _ (env : Env) where
    exec_action-Calm :
        (name : H256) (who : AccountId) (act : Action)
        → Calm Fine (exec_action cfg (on_response env) name who act)
    unfolding on_response
    exec_action-Calm name who (reply bytes) =
        on_app-Calm (on_response env name who bytes) (λ b. ground arith)
    exec_action-Calm name who (set_queue_head head) = record {
      runs = λ n h. queue_head_set-Readable cfg (omega arith) name head n.pallet h;
    }

    exec_actions-Calm :
        (name : H256) (who : AccountId) (actions : List Bytes)
        → Calm Fine (exec_actions cfg (on_response env) name who actions)
    unfolding exec_actions
    exec_actions-Calm name who [] = Calm-pure Fine tt
    exec_actions-Calm name who (raw ∷ actions) =
        Calm-bind Fine
          (ok_or (codec.decode_action raw) (anchor failed_to_decode_action)
            >>= exec_action cfg (on_response env) name who)
          _
          (Calm-bind Fine (ok_or (codec.decode_action raw) (anchor failed_to_decode_action)) _
            (Calm-ok_or Fine (codec.decode_action raw) (anchor failed_to_decode_action))
            (exec_action-Calm name who))
          λ _. exec_actions-Calm name who actions

    pub rollup-Calm :
        (origin : Origin) (name : H256) (tx : RollupTx) (nonce : ℕ)
        → Tame cfg tx
        → Calm Fine (rollup cfg (on_response env) origin name tx nonce)
    unfolding rollup ensure_name_owner deposit_event slot
    rollup-Calm origin name tx nonce tame = Calm-transactional Fine _ (
        Calm-bind Fine (ensure_signed origin) _ (Calm-ensure_signed Fine origin) λ who.
          Calm-bind Fine (on_anchor (ensure_name_owner name who)) _
            (Calm-same Fine _ (λ n. (ground arith, ground arith)))
            λ _.
              Calm-bind Fine (on_anchor (check_conds name tx.conds)) _
                (on_anchor-Calm (check_conds name tx.conds) (check_conds-Calm name tx))
                λ _.
                  Calm-bind Fine (on_anchor (modify (apply_updates name tx.updates))) _
                    (record {
                      runs = λ n h. (
                        refl,
                        (Readable-Carried cfg (omega arith)).updated name tx n.pallet tame h,
                      );
                    })
                    λ _.
                      Calm-bind Fine (exec_actions cfg (on_response env) name who tx.actions)
                        (λ _. on_anchor (deposit_event (rollup_executed who name nonce)))
                        (exec_actions-Calm name who tx.actions)
                        λ _. record {
                          runs = λ n h. (refl, record { head = h.head; tail = h.tail });
                        })

    push-Calm :
        (name : H256) (payload : Bytes) → Calm Fine (on_anchor (push_message cfg name payload))
    push-Calm name payload = record {
      runs = λ n h. push_message-Readable cfg (omega arith) name payload n.pallet h;
    }

    abbrev noted_request : AccountId → Bytes → ℕ → H256 → Bytes → Oracle → Oracle
    noted_request who key nonce id payload o = record o {
      feed_requests = insert o.feed_requests id (record {
        registry_feed_key = key;
        caller = who;
        nonce = nonce;
        requested_data = payload;
      });
    }

    pub request-Calm :
        (origin : Origin) (key : Bytes) (nonce : ℕ) → Calm Fine (request cfg env origin key nonce)
    unfolding request request_id is_active_status Oracle.deposit_event
    request-Calm origin key nonce = Calm-transactional Fine _ (
        Calm-bind Fine (ensure_signed origin) _ (Calm-ensure_signed Fine origin) λ who.
          Calm-bind Fine (gets (λ n. get n.app.registry.api_feeds (who, key))) _ (Calm-gets Fine _)
            λ found.
              Calm-bind Fine (ok_or found (oracle failed_to_get_api_feed)) _
                (Calm-ok_or Fine found (oracle failed_to_get_api_feed))
                λ feed.
                  Calm-bind Fine
                    (ensure (is_active_status feed.status) (oracle api_feed_not_active)) _
                    (Calm-ensure Fine _ _)
                    λ _.
                      let id = request_id env nonce in
                      let data_raw = env.encode_request id feed.url feed.path in
                      Calm-bind Fine
                        (if leb (length data_raw) max_value_bytes
                          then pure data_raw
                          else raise (oracle failed_to_encode_data))
                        _
                        (Calm-if Fine (leb (length data_raw) max_value_bytes) _ _
                          (Calm-pure Fine data_raw)
                          (Calm-raise Fine (oracle failed_to_encode_data)))
                        λ payload.
                          Calm-bind Fine
                            (on_app (set_oracle (noted_request who key nonce id payload))) _
                            (on_app-Calm (set_oracle (noted_request who key nonce id payload))
                              (λ b. refl))
                            λ _.
                              Calm-bind Fine (gets (λ n. env.last_key n.pallet.submitter_by_names))
                                _ (Calm-gets Fine _)
                                λ last.
                                  Calm-bind Fine (ok_or last (oracle failed_to_find_oracle_feeds)) _
                                    (Calm-ok_or Fine last (oracle failed_to_find_oracle_feeds))
                                    λ name.
                                      Calm-bind Fine
                                        (map_err (oracle failed_to_push_message_to_anchor)
                                          (on_anchor (push_message cfg name payload)))
                                        _
                                        (Calm-map_err Fine (oracle failed_to_push_message_to_anchor)
                                          _ (push-Calm name payload))
                                        λ _.
                                          on_app-Calm
                                            (Oracle.deposit_event (oracle_request who id key))
                                            (λ b. refl))

    pub feeds-Calm :
        (origin : Origin) (name : H256) (payload : Bytes) (nonce : ℕ)
        → Calm Fine (feeds origin name payload nonce)
    unfolding feeds
    feeds-Calm origin name payload nonce = Calm-transactional Fine _ (
        Calm-bind Fine (ensure_signed origin) _ (Calm-ensure_signed Fine origin)
          (λ _. Calm-pure Fine tt))

    pub average_same : (origin : Origin) (n : Node Backend) → (average origin n).1 ≡ n
    unfolding average
    average_same origin n = ground arith
