-- ===== src/ParaOracle/WorkerRuns.antt =====
-- Runs of the off-chain worker: which values they fetch, and what they send.
use paraxiom.Prelude.{
  ◌≡◌, ◌≢◌, refl, some, List, [], ◌∷◌, ◌++◌, inl, inr, ◌⊎◌, list_eq, nat_eq, pair_eq,
}
use mathlib.Core.Path.{subst}
use paraxiom.Attempt.{Attempt, ok, err}
use paraxiom.Storage.{get}
use paraxiom.Prelude.Int.{ℤ}
use paraxiom.Frame.{Bytes, AccountId}
use paraxiom.ParaOracle.State.{CreatorId, creator_eq, ApiFeed, Config}
use paraxiom.ParaOracle.Calls.{State}
use paraxiom.ParaOracle.Worker.{
  FetchError, Host, Ran, one_feed, sending, fetch_values, fetch_api_and_feed_data,
  no_local_accounts,
}
use paraxiom.ParaOracle.Fetching.{
  Feeds, Fetched, Stopped, Sent, Looped, sending-Looped, fetch_values-Ends,
}

module _ (host : Host) where
  Outcome : Feeds → host.World → List AccountId → Ran host → Type 0
  Outcome feeds w accounts ran =
      ((accounts ≡ []) × (ran.result ≡ err no_local_accounts) × (ran.sent ≡ []))
      ⊎ ((accounts ≢ [])
          × (ran.result ≡ ok tt)
          × (values : List (Bytes × ℤ)) × (end : host.World) × Fetched host feeds w values end
          × Sent values (host.accounts end) ran.sent)
      ⊎ ((accounts ≢ []) × (ran.result ≢ ok tt) × Stopped host feeds w ran.result × (ran.sent ≡ []))

  signed-Outcome :
      (feeds : Feeds) (w : host.World) (a : AccountId) (accounts : List AccountId) (ran : Ran host)
      → Looped host feeds w ran
      → Outcome feeds w (a ∷ accounts) ran
  unfolding Outcome
  signed-Outcome feeds w a accounts ran (inl (fine, values, end, f, sent)) =
      inr (inl ((λ e. cc), fine, values, end, f, sent))
  signed-Outcome feeds w a accounts ran (inr (ne, stopped, sent)) =
      inr (inr ((λ e. cc), ne, stopped, sent))

  -- A run of the worker ends in one of three ways. Without local accounts it fails with that error and
  -- sends nothing. Or it succeeds: it has fetched the value of every feed that has a URL and a path, in
  -- the order of the map and each in the state in which the feed before has left the host, and then
  -- every account that is there in the end sends one call with exactly these values, unless there is no
  -- value. Or it stops at the first feed that fails or panics, with its error or panic, and sends
  -- nothing.
  pub fetch_api_and_feed_data_lem :
      (cfg : Config) (s : State cfg) (w : host.World)
      → let ran = fetch_api_and_feed_data host cfg s w in
        let feeds = cfg.iter_api_feeds s.api_feeds in
        ((host.accounts w ≡ []) × (ran.result ≡ err no_local_accounts) × (ran.sent ≡ []))
        ⊎ ((host.accounts w ≢ [])
            × (ran.result ≡ ok tt)
            × (values : List (Bytes × ℤ)) × (end : host.World) × Fetched host feeds w values end
            × Sent values (host.accounts end) ran.sent)
        ⊎ ((host.accounts w ≢ [])
            × (ran.result ≢ ok tt)
            × Stopped host feeds w ran.result
            × (ran.sent ≡ []))
  unfolding fetch_api_and_feed_data Outcome
  fetch_api_and_feed_data_lem cfg s w = go (host.accounts w)
    where
      feeds : Feeds
      feeds = cfg.iter_api_feeds s.api_feeds

      go :
          (accounts : List AccountId)
          → Outcome feeds w accounts (elim accounts [
            | [] ↦ record { result = err no_local_accounts; sent = [] }
            | _ ∷ _ ↦ sending host (fetch_values host feeds w)
          ])
      go [] = inl (refl, refl, refl)
      go (a ∷ accounts) =
          signed-Outcome feeds w a accounts _
            (sending-Looped host feeds w _ (fetch_values-Ends host feeds w))

  Fetched-one :
      (before behind : Feeds) (creator : CreatorId) (key : Bytes) (val : ApiFeed)
      (fetch : host.World → Attempt FetchError ℤ × host.World) (feeds : Feeds) (w end : host.World)
      (values : List (Bytes × ℤ))
      → feeds ≡ before ++ ((creator, key), val) ∷ behind
      → one_feed host val ≡ some fetch
      → Fetched host feeds w values end
      → (w' : host.World) × (ival : ℤ) × ((fetch w').0 ≡ ok ival)
  Fetched-one [] behind creator key val fetch feeds w end values split e h =
      elim (subst (λ x. Fetched host x w values end) split h) [
        | inl (skipped, _) ↦ absurd (cc)
        | inr (fetch', ival, rest, found, got, _, later) ↦ (w, ival, cc)
      ]
  Fetched-one (((c, k), v) ∷ before) behind creator key val fetch feeds w end values split e h =
      elim (subst (λ x. Fetched host x w values end) split h) [
        | inl (skipped, later) ↦
            Fetched-one before behind creator key val fetch _ w end values refl e later
        | inr (fetch', ival, rest, found, got, _, later) ↦
            Fetched-one before behind creator key val fetch _ (fetch' w).1 end rest refl e later
      ]

  -- While any creator's feed is stored that has a URL and a path and whose value cannot be fetched,
  -- in no state of the host, the worker does not succeed and sends nothing for any feed.
  pub fetch_api_and_feed_data_stalls :
      (cfg : Config) (s : State cfg) (w : host.World) (creator : CreatorId) (key : Bytes)
      (val : ApiFeed) (fetch : host.World → Attempt FetchError ℤ × host.World)
      → get s.api_feeds (creator, key) ≡ some val
      → one_feed host val ≡ some fetch
      → ((w' : host.World) (ival : ℤ) → (fetch w').0 ≢ ok ival)
      → let ran = fetch_api_and_feed_data host cfg s w in (ran.result ≢ ok tt) × (ran.sent ≡ [])
  fetch_api_and_feed_data_stalls cfg s w creator key val fetch stored e bad =
      elim (fetch_api_and_feed_data_lem cfg s w) [
        | inl (none_there, failed, nothing_sent) ↦ ((λ q. cc), nothing_sent)
        | inr (inl (_, fine, values, end, fetched, all)) ↦
            let (before, behind, split) =
              cfg.iter_api_feeds-split s.api_feeds creator key val stored in
            let (w', ival, got) =
              Fetched-one before behind creator key val fetch (cfg.iter_api_feeds s.api_feeds) w end
                values split e fetched in
            absurd (bad w' ival got)
        | inr (inr (_, failed, _, nothing_sent)) ↦ (failed, nothing_sent)
      ]
