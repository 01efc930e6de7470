-- ===== src/Registry/Laws.antt =====
-- What registering and unregistering do to every account's feeds, and which status a feed can have.
use paraxiom.Prelude.{
  ℕ, ◌≡◌, refl, false, none, some, [], ◌∷◌, ◌++◌, arith, nat_beq, nat_beq_iff, list_beq,
  if◌then◌else◌, ◌&&◌, nat_eq, list_eq, pair_eq, Option-cases, inl, inr,
}
use paraxiom.Errors.{cannot_lookup}
use paraxiom.Frame.{Bytes, AccountId, Origin, signed, ok, err, bytes_beq_iff}
use paraxiom.Storage.{get, get-insert, get-remove, get-empty}
use paraxiom.Registry.{
  Registry, ApiFeed, registered, feed_unregistered, genesis, is_active, register_feed,
  unregister_feed,
}

-- A signed registration succeeds; the account's feed under the key is the new one, which is not yet
-- active, and every other feed of every account is as it was.
pub register_feed_lem :
    (block who : ℕ) (key url path : Bytes) (s : Registry) (other : AccountId) (k : Bytes)
    → let (r, s') = register_feed block (signed who) key url path s in
      (r ≡ ok tt)
      × (is_active who key s' ≡ false)
      × (get s'.api_feeds (other, k) ≡ (
          if nat_beq who other && list_beq key k
          then some (record { started_at = block; url = url; path = path; status = registered })
          else get s.api_feeds (other, k)))
unfolding register_feed is_active
register_feed_lem block who key url path s other k =
    let feed : ApiFeed = record {
      started_at = block;
      url = url;
      path = path;
      status = registered;
    } in
    (
      refl,
      ground (
        arith,
        get-insert s.api_feeds (who, key) (who, key) feed,
        nat_beq_iff who who,
        bytes_beq_iff key key,
      ),
      get-insert s.api_feeds (who, key) (other, k) feed,
    )

-- Unregistering a feed that the account has succeeds, notes the feed in an event, and removes
-- exactly the account's own feed under the key.
pub unregister_feed_lem :
    (who : AccountId) (key : Bytes) (feed : ApiFeed) (s : Registry) (other : AccountId) (k : Bytes)
    → get s.api_feeds (who, key) ≡ some feed
    → let (r, s') = unregister_feed (signed who) key s in
      (r ≡ ok tt)
      × (s'.events ≡ s.events ++ feed_unregistered who key feed ∷ [])
      × (get s'.api_feeds (other, k)
          ≡ (if nat_beq who other && list_beq key k then none else get s.api_feeds (other, k)))
unfolding unregister_feed
unregister_feed_lem who key feed s other k e =
    rw e (refl, refl, get-remove s.api_feeds (who, key) (other, k))

-- An account that has no feed under the key gets `CannotLookup`, and nothing changes.
pub unregister_feed_absent :
    (who : AccountId) (key : Bytes) (s : Registry)
    → get s.api_feeds (who, key) ≡ none
    → unregister_feed (signed who) key s ≡ (err cannot_lookup, s)
unfolding unregister_feed
unregister_feed_absent who key s e = rw e refl

-- What can happen to the registry.
pub data Step : Registry → Registry → Type 0 where
  registers :
      (s : Registry) (block : ℕ) (origin : Origin) (key url path : Bytes)
      → Step s (register_feed block origin key url path s).1
  unregisters :
      (s : Registry) (origin : Origin) (key : Bytes) → Step s (unregister_feed origin key s).1

pub data Reach : Registry → Type 0 where
  start : Reach genesis
  next : {s t : Registry} → Reach s → Step s t → Reach t

-- Every stored feed has the status `Registered`.
pub record OnlyRegistered (s : Registry) : Type 0 where
  pub at_key :
      (who : AccountId) (key : Bytes) (feed : ApiFeed)
      → get s.api_feeds (who, key) ≡ some feed
      → feed.status ≡ registered

Step-OnlyRegistered : {s t : Registry} → Step s t → OnlyRegistered s → OnlyRegistered t
unfolding register_feed unregister_feed
Step-OnlyRegistered (registers s block (signed who) key url path) h = record {
  at_key = λ other k feed e. ground (
    arith,
    h.at_key other k feed,
    get-insert s.api_feeds (who, key) (other, k)
        (record { started_at = block; url = url; path = path; status = registered }),
  );
}
Step-OnlyRegistered (registers s block origin key url path) h = h
Step-OnlyRegistered (unregisters s (signed who) key) h = record {
  at_key = λ other k feed e.
      ground (arith, h.at_key other k feed, get-remove s.api_feeds (who, key) (other, k));
}
Step-OnlyRegistered (unregisters s origin key) h = h

pub Reach-OnlyRegistered : {s : Registry} → Reach s → OnlyRegistered s
Reach-OnlyRegistered start = record {
  at_key = λ who key feed e. cc (get-empty {K = AccountId × Bytes} {V = ApiFeed} (who, key));
}
Reach-OnlyRegistered (next r st) = Step-OnlyRegistered st (Reach-OnlyRegistered r)

-- No sequence of the registry's calls makes any feed active.
pub Reach-not_active :
    {s : Registry} (who : AccountId) (key : Bytes) → Reach s → is_active who key s ≡ false
unfolding is_active
Reach-not_active {s} who key r = elim (Option-cases (get s.api_feeds (who, key))) [
  | inl absent ↦ rw absent refl
  | inr (feed, e) ↦ ground (arith, (Reach-OnlyRegistered r).at_key who key feed e)
]
