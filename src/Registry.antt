-- ===== src/Registry.antt =====
-- pallets/registry: the feeds that accounts register, and their status.
pub mod Laws
use paraxiom.Prelude.{
  ℕ, Bool, true, false, Option, none, some, List, [], ◌∷◌, ◌++◌, nat_eq, list_eq, pair_eq,
}
use paraxiom.Errors.{cannot_lookup}
use paraxiom.Frame.{
  Bytes, AccountId, Origin, Exec, err, gets, modify, raise, ensure_signed, ◌>>=◌, ◌>>◌,
}
use paraxiom.Storage.{StorageMap, get, insert, remove, empty}

pub data ApiFeedStatus : Type 0 where
  registered active inactive slashed : ApiFeedStatus

-- `ApiFeedStatus::is_active`
unfoldable pub is_active_status : ApiFeedStatus → Bool
is_active_status active = true
is_active_status _ = false

pub record ApiFeed : Type 0 where
  pub started_at : ℕ
  pub url : Bytes
  pub path : Bytes
  pub status : ApiFeedStatus

pub data Event : Type 0 where
  feed_registered feed_unregistered : AccountId → Bytes → ApiFeed → Event

pub record Registry : Type 0 where
  pub api_feeds : StorageMap (AccountId × Bytes) ApiFeed
  pub events : List Event

abbrev pub genesis : Registry
genesis = record { api_feeds = empty; events = [] }

abbrev active_feed : Option ApiFeed → Bool
active_feed none = false
active_feed (some feed) = is_active_status feed.status

unfoldable pub is_active : AccountId → Bytes → Registry → Bool
unfolding is_active_status
is_active account_id key s = active_feed (get s.api_feeds (account_id, key))

abbrev new_feed : ℕ → Bytes → Bytes → ApiFeed
new_feed block_number url path = record {
  started_at = block_number;
  url = url;
  path = path;
  status = registered;
}

-- `block_number` is that of the block in which the call is made.
unfoldable pub register_feed : ℕ → Origin → Bytes → Bytes → Bytes → Exec Registry Unit
register_feed block_number origin key url path = do
  who ← ensure_signed origin
  let feed = new_feed block_number url path
  modify (λ s. record s { api_feeds = insert s.api_feeds (who, key) feed })
  modify (λ s. record s { events = s.events ++ feed_registered who key feed ∷ [] })

abbrev unregister_found : AccountId → Bytes → Option ApiFeed → Exec Registry Unit
unregister_found who key none = raise cannot_lookup
unregister_found who key (some feed) = do
  modify (λ s. record s { api_feeds = remove s.api_feeds (who, key) })
  modify (λ s. record s { events = s.events ++ feed_unregistered who key feed ∷ [] })

unfoldable pub unregister_feed : Origin → Bytes → Exec Registry Unit
unregister_feed origin key = do
  who ← ensure_signed origin
  found ← gets (λ s. get s.api_feeds (who, key))
  unregister_found who key found
