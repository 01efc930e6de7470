-- ===== src/ParaOracle/Fetching.antt =====
-- How the off-chain worker's loop over the feeds ends, and what is then sent.
use paraxiom.Prelude.{
  ◌≡◌, ◌≢◌, refl, ap, Option, none, some, List, [], ◌∷◌, All, map, inl, inr, ◌⊎◌, list_eq, nat_eq,
  pair_eq,
}
use paraxiom.Attempt.{Attempt, ok, err, panic}
use paraxiom.Prelude.Int.{ℤ}
use paraxiom.Frame.{Bytes, AccountId}
use paraxiom.ParaOracle.State.{CreatorId, creator_eq, ApiFeed}
use paraxiom.ParaOracle.Worker.{
  FetchError, Host, Ran, one_feed, with_feed, then_feeds, pushed, sending, submitted_by,
  fetch_values,
}

abbrev pub Feeds : Type 0
Feeds = List ((CreatorId × Bytes) × ApiFeed)

-- Every account sends the values, unless there are none.
abbrev pub Sent : List (Bytes × ℤ) → List AccountId → List (AccountId × List (Bytes × ℤ)) → Type 0
Sent values accounts sent =
    ((values ≡ []) × (sent ≡ []))
    ⊎ ((values ≢ []) × (map (λ tx. tx.0) sent ≡ accounts) × All (λ tx. tx.1 ≡ values) sent)

module _ (host : Host) where
  -- What the loop makes of the feeds when it comes to their end: a feed without a URL or a path is
  -- skipped, another's value stands in the list, in the order of the feeds. The last argument is the
  -- host's state at the end.
  abbrev pub Fetched : Feeds → host.World → List (Bytes × ℤ) → host.World → Type 0
  Fetched [] w values end = (values ≡ []) × (end ≡ w)
  Fetched (((creator, key), val) ∷ feeds) w values end =
      ((one_feed host val ≡ none) × Fetched feeds w values end)
      ⊎ ((fetch : host.World → Attempt FetchError ℤ × host.World) × (ival : ℤ) × (rest : List
            (Bytes × ℤ))
          × (one_feed host val ≡ some fetch)
          × ((fetch w).0 ≡ ok ival)
          × (values ≡ (key, ival) ∷ rest)
          × Fetched feeds (fetch w).1 rest end)

  -- The loop ends early, with the result `a` of the first feed that fails.
  abbrev pub Stopped : Feeds → host.World → Attempt FetchError Unit → Type 0
  Stopped [] w a = ⊥
  Stopped (((creator, key), val) ∷ feeds) w a =
      ((one_feed host val ≡ none) × Stopped feeds w a)
      ⊎ ((fetch : host.World → Attempt FetchError ℤ × host.World) × (one_feed host val ≡ some fetch)
          × (((e : FetchError) × ((fetch w).0 ≡ err e) × (a ≡ err e))
              ⊎ (((fetch w).0 ≡ panic) × (a ≡ panic))
              ⊎ ((ival : ℤ) × ((fetch w).0 ≡ ok ival) × Stopped feeds (fetch w).1 a)))

  -- How a loop over the feeds ends.
  abbrev pub Looped : Feeds → host.World → Ran host → Type 0
  Looped feeds w ran =
      ((ran.result ≡ ok tt)
        × (values : List (Bytes × ℤ)) × (end : host.World) × Fetched feeds w values end
        × Sent values (host.accounts end) ran.sent)
      ⊎ ((ran.result ≢ ok tt) × Stopped feeds w ran.result × (ran.sent ≡ []))

  unfoldable pub Ends :
      Feeds → host.World → Attempt FetchError (List (Bytes × ℤ)) × host.World → Type 0
  Ends feeds w (ok values, end) = Fetched feeds w values end
  Ends feeds w (err e, end) = Stopped feeds w (err e)
  Ends feeds w (panic, end) = Stopped feeds w panic

  Ends-skipped :
      (creator : CreatorId) (key : Bytes) (val : ApiFeed) (feeds : Feeds) (w : host.World)
      (v : Attempt FetchError (List (Bytes × ℤ)) × host.World)
      → one_feed host val ≡ none
      → Ends feeds w v
      → Ends (((creator, key), val) ∷ feeds) w v
  unfolding Ends
  Ends-skipped creator key val feeds w (ok values, end) e h = inl (e, h)
  Ends-skipped creator key val feeds w (err f, end) e h = inl (e, h)
  Ends-skipped creator key val feeds w (panic, end) e h = inl (e, h)

  module _ (creator : CreatorId) (key : Bytes) (val : ApiFeed) (feeds : Feeds) (w : host.World)
      (fetch : host.World → Attempt FetchError ℤ × host.World) where
    Ends-pushed :
        (ival : ℤ) (v : Attempt FetchError (List (Bytes × ℤ)) × host.World)
        → one_feed host val ≡ some fetch
        → (fetch w).0 ≡ ok ival
        → Ends feeds (fetch w).1 v
        → Ends (((creator, key), val) ∷ feeds) w (pushed host key ival v)
    unfolding Ends
    Ends-pushed ival (ok values, end) e got h = inr (fetch, ival, values, e, got, refl, h)
    Ends-pushed ival (err f, end) e got h = inr (fetch, e, inr (inr (ival, got, h)))
    Ends-pushed ival (panic, end) e got h = inr (fetch, e, inr (inr (ival, got, h)))

    Ends-then_feeds :
        (a : Attempt FetchError ℤ)
        (rest : host.World → Attempt FetchError (List (Bytes × ℤ)) × host.World)
        → one_feed host val ≡ some fetch
        → (fetch w).0 ≡ a
        → Ends feeds (fetch w).1 (rest (fetch w).1)
        → Ends (((creator, key), val) ∷ feeds) w (then_feeds host key (a, (fetch w).1) rest)
    unfolding Ends
    Ends-then_feeds (ok ival) rest e got h = Ends-pushed ival (rest (fetch w).1) e got h
    Ends-then_feeds (err f) rest e got h = inr (fetch, e, inl (f, got, refl))
    Ends-then_feeds panic rest e got h = inr (fetch, e, inr (inl (got, refl)))

  Ends-with_feed :
      (creator : CreatorId) (key : Bytes) (val : ApiFeed) (feeds : Feeds) (w : host.World)
      (o : Option (host.World → Attempt FetchError ℤ × host.World))
      (rest : host.World → Attempt FetchError (List (Bytes × ℤ)) × host.World)
      → one_feed host val ≡ o
      → ((w' : host.World) → Ends feeds w' (rest w'))
      → Ends (((creator, key), val) ∷ feeds) w (with_feed host key o rest w)
  Ends-with_feed creator key val feeds w none rest e h =
      Ends-skipped creator key val feeds w (rest w) e (h w)
  Ends-with_feed creator key val feeds w (some fetch) rest e h =
      Ends-then_feeds creator key val feeds w fetch (fetch w).0 rest e refl (h (fetch w).1)

  pub fetch_values-Ends :
      (feeds : Feeds) (w : host.World) → Ends feeds w (fetch_values host feeds w)
  unfolding fetch_values Ends
  fetch_values-Ends [] w = (refl, refl)
  fetch_values-Ends (((creator, key), val) ∷ feeds) w =
      Ends-with_feed creator key val feeds w (one_feed host val) (fetch_values host feeds) refl
        (fetch_values-Ends feeds)

  map-senders :
      (values : List (Bytes × ℤ)) (accounts : List AccountId)
      → let sent = map {B = AccountId × List (Bytes × ℤ)} (λ acc. (acc, values)) accounts in
        (map (λ tx. tx.0) sent ≡ accounts) × All (λ tx. tx.1 ≡ values) sent
  map-senders values [] = (refl, tt)
  map-senders values (a ∷ accounts) =
      let (names, all) = map-senders values accounts in (ap (λ xs. a ∷ xs) names, (refl, all))

  submitted_by-Sent :
      (values : List (Bytes × ℤ)) (accounts : List AccountId)
      → Sent values accounts (submitted_by host values accounts)
  submitted_by-Sent [] accounts = inl (refl, refl)
  submitted_by-Sent (v ∷ values) accounts =
      let (names, all) = map-senders (v ∷ values) accounts in inr ((λ e. cc), names, all)

  pub sending-Looped :
      (feeds : Feeds) (w : host.World) (v : Attempt FetchError (List (Bytes × ℤ)) × host.World)
      → Ends feeds w v
      → Looped feeds w (sending host v)
  unfolding Ends
  sending-Looped feeds w (ok values, end) h =
      inl (refl, values, end, h, submitted_by-Sent values (host.accounts end))
  sending-Looped feeds w (err e, end) h = inr ((λ q. cc), h, refl)
  sending-Looped feeds w (panic, end) h = inr ((λ q. cc), h, refl)
