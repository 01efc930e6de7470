-- ===== src/ParaOracle/Answers.antt =====
-- What the pallet answers over any number of blocks.
use paraxiom.Prelude.{ℕ, ◌≡◌, refl, some, List, arith, list_eq, nat_eq, pair_eq}
use paraxiom.Prelude.Int.{ℤ}
use paraxiom.Frame.{Bytes, Origin, signed, sibling}
use paraxiom.ParaOracle.Combine.{TimestampedValue}
use paraxiom.ParaOracle.State.{account_id, para_id, creator_eq, Config, Block}
use paraxiom.ParaOracle.Calls.{
  State, feed_data, xcm_feed_data, get_value, on_finalize, xcm_query_data, submit_api, remove_api,
  xcm_submit_api, xcm_remove_api,
}
use paraxiom.ParaOracle.Aggregate.{with_median}
use paraxiom.ParaOracle.Provenance.{Vouched, Fed, feed-Vouched}

module _ (minimum_count expires_in : ℕ) (base : Config)
    (P : Bytes → TimestampedValue → Type 0) where
  abbrev cfg : Config
  cfg = with_median minimum_count expires_in base

  -- Calls of any origin and ends of blocks, where all values that are fed have the property.
  pub data Run (s : State cfg) : State cfg → Type 0 where
    here : Run s s
    feeds :
        {t : State cfg} (block : Block) (o : Origin) (values : List (Bytes × ℤ))
        → Fed P block values
        → Run s t
        → Run s (feed_data cfg block o values t).1
    xcm_feeds :
        {t : State cfg} (block : Block) (o : Origin) (values : List (Bytes × ℤ))
        → Fed P block values
        → Run s t
        → Run s (xcm_feed_data cfg block o values t).1
    ends : {t : State cfg} → Run s t → Run s (on_finalize cfg t).1
    queries :
        {t : State cfg} (o : Origin) (key : Bytes) → Run s t → Run s (xcm_query_data cfg o key t).1
    submits :
        {t : State cfg} (block : Block) (o : Origin) (key url vpath : Bytes)
        → Run s t
        → Run s (submit_api cfg block o key url vpath t).1
    xcm_submits :
        {t : State cfg} (block : Block) (o : Origin) (key url vpath : Bytes)
        → Run s t
        → Run s (xcm_submit_api cfg block o key url vpath t).1
    removes :
        {t : State cfg} (o : Origin) (key : Bytes) → Run s t → Run s (remove_api cfg o key t).1
    xcm_removes :
        {t : State cfg} (o : Origin) (key : Bytes) → Run s t → Run s (xcm_remove_api cfg o key t).1

  -- A call that leaves the values alone.
  same-Vouched :
      (s t : State cfg)
      → (t.raw_values ≡ s.raw_values) × (t.values ≡ s.values)
      → Vouched cfg P s
      → Vouched cfg P t
  same-Vouched s t (raws, values) q = record {
    raws = λ c key v e. q.raws c key v (rw (← raws) e);
    answers = λ key v e. q.answers key v (rw (← values) e);
  }

  Run-Vouched : {s t : State cfg} → Vouched cfg P s → Run s t → Vouched cfg P t
  unfolding feed_data xcm_feed_data xcm_query_data submit_api xcm_submit_api remove_api
      xcm_remove_api on_finalize
  Run-Vouched q here = q
  Run-Vouched q (feeds {t} block (signed who) values h r) =
      feed-Vouched minimum_count expires_in base P block (account_id who) values t h
        (Run-Vouched q r)
  Run-Vouched q (feeds {t} block o values h r) = Run-Vouched q r
  Run-Vouched q (xcm_feeds {t} block (sibling para) values h r) =
      feed-Vouched minimum_count expires_in base P block (para_id para) values t h (Run-Vouched q r)
  Run-Vouched q (xcm_feeds {t} block o values h r) = Run-Vouched q r
  Run-Vouched q (ends {t} r) = same-Vouched t _ (refl, refl) (Run-Vouched q r)
  Run-Vouched q (queries {t} o key r) =
      same-Vouched t (xcm_query_data cfg o key t).1 (ground arith, ground arith) (Run-Vouched q r)
  Run-Vouched q (submits {t} block o key url vpath r) =
      same-Vouched t (submit_api cfg block o key url vpath t).1 (ground arith, ground arith)
        (Run-Vouched q r)
  Run-Vouched q (xcm_submits {t} block o key url vpath r) =
      same-Vouched t (xcm_submit_api cfg block o key url vpath t).1 (ground arith, ground arith)
        (Run-Vouched q r)
  Run-Vouched q (removes {t} o key r) =
      same-Vouched t (remove_api cfg o key t).1 (ground arith, ground arith) (Run-Vouched q r)
  Run-Vouched q (xcm_removes {t} o key r) =
      same-Vouched t (xcm_remove_api cfg o key t).1 (ground arith, ground arith) (Run-Vouched q r)

  -- With the median for combining: whatever calls are made, by whomever, and however many blocks
  -- end, a value that the pallet answers for a key is one that was fed for that key, with the time
  -- of its feeding: any property that all that is stored at first and all values fed since have, by
  -- their keys and times, every answer has.
  pub Run-answers :
      {s t : State cfg} (key : Bytes) (v : TimestampedValue)
      → Vouched cfg P s
      → Run s t
      → get_value cfg key t ≡ some v
      → P key v
  unfolding get_value
  Run-answers key v q r e = (Run-Vouched q r).answers key v e
