-- ===== src/Runtime/Reachable.antt =====
-- What holds in every state that the runtime's calls reach.
use paraxiom.Prelude.{
  ℕ, ◌≡◌, refl, List, [], ◌∷◌, ◌∙◌, arith, inl, inr, ◌⊎◌, Option-cases, nat_eq, list_eq, pair_eq,
}
use paraxiom.Errors.{
  anchor, failed_to_decode_action, oracle, failed_to_get_api_feed, api_feed_not_active,
}
use paraxiom.Frame.{
  transactional, Bytes, H256, AccountId, Origin, signed, Exec, err, ok_or, ◌>>=◌, Outcome-cases,
}
use paraxiom.Frame.Within.{Within, Within-bind, Within-ok_or, Within-pure}
use paraxiom.Storage.{get}
use paraxiom.Anchor.State.{Config, Codec, RollupTx, Action, reply, set_queue_head}
use paraxiom.Anchor.Rollup.{
  Node, rollup, exec_action, exec_actions, ensure_name_owner, apply_updates, deposit_event,
}
use paraxiom.Registry.{is_active_status}
use paraxiom.Registry.Laws.{Reach-OnlyRegistered}
use paraxiom.Registry.Laws
use paraxiom.Oracle.State.{Backend, Env}
use paraxiom.Oracle.Calls.{request, feeds, average, on_response}
use paraxiom.Anchor.Updates.{check_conds_same}
use paraxiom.Runtime.Calls.{Call}
use paraxiom.Runtime.{Reach, start, next, dispatch, call, runtime_config}

abbrev pub SameRegistry : Node Backend → Node Backend → Type 0
SameRegistry n n' = n'.app.registry ≡ n.app.registry

and_then :
    {A B : Type 0} (m : Exec (Node Backend) A) (f : A → Exec (Node Backend) B)
    → Within SameRegistry m
    → ((a : A) → Within SameRegistry (f a))
    → Within SameRegistry (m >>= f)
and_then = Within-bind SameRegistry (λ x y z p q. q ∙ p)

same_registry : (n : Node Backend) → SameRegistry n n
same_registry n = refl

module _ (cfg : Config) (env : Env) where
  exec_action-SameRegistry :
      (name : H256) (who : AccountId) (act : Action)
      → Within SameRegistry (exec_action cfg (on_response env) name who act)
  unfolding on_response
  exec_action-SameRegistry name who (reply bytes) = record { moves = λ n. ground arith }
  exec_action-SameRegistry name who (set_queue_head head) = record { moves = λ n. refl }

  exec_actions-SameRegistry :
      (name : H256) (who : AccountId) (actions : List Bytes)
      → Within SameRegistry (exec_actions cfg (on_response env) name who actions)
  unfolding exec_actions
  exec_actions-SameRegistry name who [] = Within-pure SameRegistry same_registry tt
  exec_actions-SameRegistry name who (raw ∷ actions) =
      and_then
        (ok_or (cfg.codec.decode_action raw) (anchor failed_to_decode_action)
          >>= exec_action cfg (on_response env) name who)
        _
        (and_then (ok_or (cfg.codec.decode_action raw) (anchor failed_to_decode_action)) _
          (Within-ok_or SameRegistry same_registry (cfg.codec.decode_action raw)
            (anchor failed_to_decode_action))
          (exec_action-SameRegistry name who))
        λ _. exec_actions-SameRegistry name who actions

  pub rollup-SameRegistry :
      (origin : Origin) (name : H256) (tx : RollupTx) (nonce : ℕ)
      → Within SameRegistry (rollup cfg (on_response env) origin name tx nonce)
  unfolding rollup ensure_name_owner deposit_event
  rollup-SameRegistry (signed who) name tx nonce = record {
    moves = λ n. ground (
      arith,
      check_conds_same n.pallet name tx.conds,
      (exec_actions-SameRegistry name who tx.actions).moves
          (record n { pallet = apply_updates name tx.updates n.pallet }),
    );
  }
  rollup-SameRegistry origin name tx nonce = record { moves = λ n. refl }

  pub request-SameRegistry :
      (origin : Origin) (key : Bytes) (nonce : ℕ)
      → Within SameRegistry (request cfg env origin key nonce)
  unfolding request
  request-SameRegistry origin key nonce = record { moves = λ n. ground arith }

pub feeds-SameRegistry :
    (origin : Origin) (name : H256) (bytes : Bytes) (nonce : ℕ)
    → Within SameRegistry (feeds origin name bytes nonce)
unfolding feeds
feeds-SameRegistry origin name bytes nonce = record { moves = λ n. ground arith }

pub average-SameRegistry : (origin : Origin) → Within SameRegistry (average origin)
unfolding average
average-SameRegistry origin = record { moves = λ n. ground arith }

-- What holds before a call and after its body holds after the storage layer.
pub layer :
    {A : Type 0} (P : Node Backend → Type 0) (m : Exec (Node Backend) A) (n : Node Backend)
    → P n
    → P (m n).1
    → P (transactional m n).1
layer P m n before after = elim (Outcome-cases (m n).0) [
  | inl (a, e) ↦ rw (e, transactional) after
  | inr (inl (f, e)) ↦ rw (e, transactional) before
  | inr (inr e) ↦ rw (e, transactional) before
]

abbrev Sound : Node Backend → Type 0
Sound n = Laws.Reach n.app.registry

keeps :
    {A : Type 0} (m : Exec (Node Backend) A) (n : Node Backend)
    → Within SameRegistry m
    → Sound n
    → Sound (m n).1
keeps m n w h = rw (w.moves n) h

module _ (codec : Codec) where
  call-Sound :
      (env : Env) (origin : Origin) (c : Call) (n : Node Backend)
      → Sound n
      → Sound (call codec env origin c n).1
  call-Sound env origin (Call.claim_name name) n h = h
  call-Sound env origin (Call.rollup name tx nonce) n h =
      keeps (rollup (runtime_config codec) (on_response env) origin name tx nonce) n
        (rollup-SameRegistry (runtime_config codec) env origin name tx nonce) h
  call-Sound env origin (Call.register_feed key url path) n h =
      Laws.next h (Laws.registers n.app.registry env.block_number origin key url path)
  call-Sound env origin (Call.unregister_feed key) n h =
      Laws.next h (Laws.unregisters n.app.registry origin key)
  call-Sound env origin (Call.request key nonce) n h =
      keeps (request (runtime_config codec) env origin key nonce) n
        (request-SameRegistry (runtime_config codec) env origin key nonce) h
  call-Sound env origin (Call.feeds name bytes nonce) n h =
      keeps (feeds origin name bytes nonce) n (feeds-SameRegistry origin name bytes nonce) h
  call-Sound env origin Call.average n h = keeps (average origin) n (average-SameRegistry origin) h

  -- The registry of a reachable state is one that the registry's own calls reach.
  Reach-Sound : {n : Node Backend} → Reach codec n → Sound n
  unfolding dispatch
  Reach-Sound start = Laws.start
  Reach-Sound (next {n} env origin c r) =
      layer Sound (call codec env origin c) n (Reach-Sound r)
        (call-Sound env origin c n (Reach-Sound r))

  -- In no reachable state does a request succeed, whoever makes it and for whatever feed: it is
  -- refused because there is no such feed or because the feed is not active, and changes nothing.
  pub request_refused :
      (env : Env) (who : AccountId) (key : Bytes) (nonce : ℕ) {n : Node Backend}
      → Reach codec n
      → (request (runtime_config codec) env (signed who) key nonce n
          ≡ (err (oracle failed_to_get_api_feed), n))
        ⊎ (request (runtime_config codec) env (signed who) key nonce n
            ≡ (err (oracle api_feed_not_active), n))
  unfolding request is_active_status
  request_refused env who key nonce {n} r =
      elim (Option-cases (get n.app.registry.api_feeds (who, key))) [
        | inl absent ↦ inl (ground arith)
        | inr (feed, e) ↦
            let status = (Reach-OnlyRegistered (Reach-Sound r)).at_key who key feed e in
            inr (ground arith)
      ]
