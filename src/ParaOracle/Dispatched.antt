-- ===== src/ParaOracle/Dispatched.antt =====
-- The calls of a block, and that an account feeds once in it.
use paraxiom.Prelude.{ℕ, ◌≡◌, true, List, arith, list_eq, nat_eq, pair_eq}
use paraxiom.Prelude.Int.{ℤ}
use paraxiom.Errors.{para_oracle, already_feeded}
use paraxiom.Frame.{Bytes, Origin, signed, sibling, ok, err}
use paraxiom.ParaOracle.State.{CreatorId, account_id, para_id, creator_eq, Config, Block}
use paraxiom.ParaOracle.Calls.{
  State, feed_data, xcm_feed_data, xcm_query_data, submit_api, remove_api, xcm_submit_api,
  xcm_remove_api,
}
use paraxiom.ParaOracle.Feeding.{feed_again, fed-contains, feed_keeps}

module _ (cfg : Config) where
  -- The calls of a block, by their origins.
  pub data Step : Origin → State cfg → State cfg → Type 0 where
    feeds :
        (s : State cfg) (block : Block) (o : Origin) (values : List (Bytes × ℤ))
        → Step o s (feed_data cfg block o values s).1
    xcm_feeds :
        (s : State cfg) (block : Block) (o : Origin) (values : List (Bytes × ℤ))
        → Step o s (xcm_feed_data cfg block o values s).1
    queries : (s : State cfg) (o : Origin) (key : Bytes) → Step o s (xcm_query_data cfg o key s).1
    submits :
        (s : State cfg) (block : Block) (o : Origin) (key url vpath : Bytes)
        → Step o s (submit_api cfg block o key url vpath s).1
    xcm_submits :
        (s : State cfg) (block : Block) (o : Origin) (key url vpath : Bytes)
        → Step o s (xcm_submit_api cfg block o key url vpath s).1
    removes : (s : State cfg) (o : Origin) (key : Bytes) → Step o s (remove_api cfg o key s).1
    xcm_removes :
        (s : State cfg) (o : Origin) (key : Bytes) → Step o s (xcm_remove_api cfg o key s).1

  pub data InBlock (s : State cfg) : State cfg → Type 0 where
    here : InBlock s s
    next : {t u : State cfg} {o : Origin} → InBlock s t → Step o t u → InBlock s u

  Step-contains :
      {s t : State cfg} {o : Origin} (c : CreatorId)
      → Step o s t
      → cfg.set.contains s.has_dispatched c ≡ true
      → cfg.set.contains t.has_dispatched c ≡ true
  unfolding feed_data xcm_feed_data xcm_query_data submit_api xcm_submit_api remove_api
      xcm_remove_api
  Step-contains c (feeds s block (signed who) values) h =
      feed_keeps cfg block (account_id who) c values s h
  Step-contains c (feeds s block o values) h = h
  Step-contains c (xcm_feeds s block (sibling para) values) h =
      feed_keeps cfg block (para_id para) c values s h
  Step-contains c (xcm_feeds s block o values) h = h
  Step-contains c (queries s o key) h = ground arith
  Step-contains c (submits s block o key url vpath) h = ground arith
  Step-contains c (xcm_submits s block o key url vpath) h = ground arith
  Step-contains c (removes s o key) h = ground arith
  Step-contains c (xcm_removes s o key) h = ground arith

  InBlock-contains :
      {s t : State cfg} (c : CreatorId)
      → InBlock s t
      → cfg.set.contains s.has_dispatched c ≡ true
      → cfg.set.contains t.has_dispatched c ≡ true
  InBlock-contains c here h = h
  InBlock-contains c (next r st) h = Step-contains c st (InBlock-contains c r h)

  -- After an account's feed has been accepted, whatever calls follow in the same block, another feed
  -- of that account is refused and changes nothing.
  pub feed_data_once :
      (block later : Block) (who : ℕ) (values again : List (Bytes × ℤ)) (s t : State cfg)
      → (feed_data cfg block (signed who) values s).0 ≡ ok tt
      → InBlock (feed_data cfg block (signed who) values s).1 t
      → feed_data cfg later (signed who) again t ≡ (err (para_oracle already_feeded), t)
  unfolding feed_data
  feed_data_once block later who values again s t accepted run =
      let cid = account_id who in
      feed_again cfg later cid again t
        (InBlock-contains cid run (fed-contains cfg block cid values s accepted))
