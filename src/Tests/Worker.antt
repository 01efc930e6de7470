-- ===== src/Tests/Worker.antt =====
-- The para-oracle's off-chain worker on two hosts.
use paraxiom.Prelude.{
  ◌≡◌, ◌≢◌, ◌⊎◌, ◌+◌, refl, true, false, none, some, List, [], ◌∷◌, list_beq, ℕ, nat_eq, list_eq,
  pair_eq, option_eq,
}
use paraxiom.Prelude.Int.{ℤ, pos}
use paraxiom.Frame.{Bytes}
use paraxiom.Storage.{insert, empty, get-insert}
use paraxiom.Attempt.{ok, err, panic}
use paraxiom.ParaOracle.State.{account_id, creator_eq}
use paraxiom.ParaOracle.Apis.{submitted}
use paraxiom.ParaOracle.Calls.{State}
use paraxiom.ParaOracle.Worker.{
  Host, fetch_api_and_feed_data, fetch_feed, fetch_http_get_result, fetch_values, late, response,
  no_local_accounts,
}
use paraxiom.ParaOracle.Fetching.{Fetched, Stopped, Sent}
use paraxiom.ParaOracle.WorkerRuns.{fetch_api_and_feed_data_lem, fetch_api_and_feed_data_stalls}
use paraxiom.Tests.Feeders.{config}
use paraxiom.Tests.ParaOracle.{start, block, key}

-- A host on which nothing is UTF-8.
abbrev host : Host
host = record {
  World = Unit;
  Json = Unit;
  Float = Unit;
  timestamp = λ w. (0, w);
  is_utf8 = λ bytes. false;
  send = λ url deadline w. (none, w);
  try_wait = λ pending deadline w. (late, w);
  parse = λ bytes. none;
  pointer = λ json path. none;
  as_f64 = λ json. none;
  to_micros = λ f. pos 0;
  accounts = λ w. 7 ∷ [];
}

-- A host that counts what it is asked, answers each request with the count, and has two accounts.
abbrev counting : Host
counting = record {
  World = ℕ;
  Json = Bytes;
  Float = Bytes;
  timestamp = λ w. (w, w + 1);
  is_utf8 = λ bytes. true;
  send = λ url deadline w. (some 0, w + 1);
  try_wait = λ pending deadline w. (response 200 (w ∷ []), w + 1);
  parse = λ bytes. some bytes;
  pointer = λ json path. some json;
  as_f64 = λ json. some json;
  to_micros = λ f. elim f [ [] ↦ pos 0 | n ∷ _ ↦ pos n ];
  accounts = λ w. 7 ∷ 8 ∷ [];
}

abbrev one_api : State config
one_api = record start {
  api_feeds = insert empty (account_id 4, key) (submitted block (255 ∷ []) (3 ∷ []));
}

two_values :
    fetch_values counting
      (((account_id 4, key), submitted block (255 ∷ []) (3 ∷ []))
        ∷ ((account_id 5, key), submitted block (255 ∷ []) (3 ∷ []))
        ∷ [])
      0
    ≡ (ok ((key, pos 2) ∷ (key, pos 5) ∷ []), 6)
unfolding fetch_values fetch_feed fetch_http_get_result
two_values = refl

fetch_api_and_feed_data_lem_example :
    let ran = fetch_api_and_feed_data counting config one_api 0 in
    let feeds = config.iter_api_feeds one_api.api_feeds in
    ((counting.accounts 0 ≡ []) × (ran.result ≡ err no_local_accounts) × (ran.sent ≡ []))
    ⊎ ((counting.accounts 0 ≢ [])
        × (ran.result ≡ ok tt)
        × (values : List (Bytes × ℤ)) × (end : ℕ) × Fetched counting feeds 0 values end
        × Sent values (counting.accounts end) ran.sent)
    ⊎ ((counting.accounts 0 ≢ [])
        × (ran.result ≢ ok tt)
        × Stopped counting feeds 0 ran.result
        × (ran.sent ≡ []))
fetch_api_and_feed_data_lem_example = fetch_api_and_feed_data_lem counting config one_api 0

fetch_api_and_feed_data_stalls_example :
    let ran = fetch_api_and_feed_data host config one_api tt in
    (ran.result ≢ ok tt) × (ran.sent ≡ [])
unfolding fetch_feed fetch_http_get_result list_beq
fetch_api_and_feed_data_stalls_example =
    fetch_api_and_feed_data_stalls host config one_api tt (account_id 4) key
      (submitted block (255 ∷ []) (3 ∷ [])) (λ w. (panic, w))
      (get-insert empty (account_id 4, key) (account_id 4, key)
        (submitted block (255 ∷ []) (3 ∷ [])))
      refl (λ w ival e. cc)
