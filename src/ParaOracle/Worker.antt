-- ===== src/ParaOracle/Worker.antt =====
-- The off-chain worker of pallets/para-oracle/src/lib.rs, and its transactions' validation.
use paraxiom.Prelude.{
  ℕ, ◌+◌, ◌%◌, Bool, true, false, Option, none, some, List, [], ◌∷◌, ltb, nat_beq, not,
  if◌then◌else◌, map,
}
use paraxiom.Prelude.Int.{ℤ}
use paraxiom.Attempt.{Attempt, ok, err, panic}
use paraxiom.Frame.{Bytes, AccountId}
use paraxiom.ParaOracle.State.{CreatorId, ApiFeed, Config, ParaOracle}
use paraxiom.ParaOracle.Calls.{State}

-- `TransactionType`; `nothing` is its `None`.
pub data TransactionType : Type 0 where
  signed unsigned_for_any unsigned_for_all raw nothing : TransactionType

-- The local storage's entry: missing, not a block number, or one.
pub data LastSend : Type 0 where
  absent undecodable : LastSend
  holds : ℕ → LastSend

-- `Ok(Some(block)) if block_number < block`
unfoldable pub recently_sent : ℕ → LastSend → Bool
recently_sent block_number (holds block) = ltb block_number block
recently_sent block_number _ = false

unfoldable pub type_of_block : ℕ → TransactionType
type_of_block block_number =
    let transaction_type = block_number % 3 in
    if nat_beq transaction_type 0
    then signed
    else if nat_beq transaction_type 1
    then unsigned_for_any
    else if nat_beq transaction_type 2
    then unsigned_for_all
    else raw

-- `written` tells whether `mutate` has found the entry as it was read and has written it.
-- Nothing in the pallet calls it.
unfoldable pub choose_transaction_type : ℕ → Bool → LastSend → TransactionType × LastSend
unfolding recently_sent type_of_block
choose_transaction_type block_number written last_send =
    if recently_sent block_number last_send
    then (nothing, last_send)
    else if written
    then (type_of_block block_number, holds block_number)
    else (nothing, last_send)

-- `http::Error`
pub data HttpError : Type 0 where
  deadline_reached io_error unknown : HttpError

-- What waiting for a response gives: nothing until the deadline, an error, or a code and a body.
pub data Waited : Type 0 where
  late : Waited
  failed : HttpError → Waited
  response : ℕ → Bytes → Waited

-- The errors of `fetch_api_and_feed_data`, by their messages.
pub data FetchError : Type 0 where
  no_local_accounts failed_fetch_http not_well_formatted : FetchError
  vpath_invalid_utf8 vpath_error vpath_value_type_error : FetchError

-- The host and the packages that the worker calls: time, HTTP, UTF-8, JSON, and the local accounts.
-- What the host answers depends on its state, a `World`, which time and the network change.
-- `to_micros` is `(fval * 1000000.0) as i64`.
pub record Host : Type 1 where
  pub World : Type 0
  pub Json : Type 0
  pub Float : Type 0
  pub timestamp : World → ℕ × World
  pub is_utf8 : Bytes → Bool
  pub send : Bytes → ℕ → World → Option ℕ × World
  pub try_wait : ℕ → ℕ → World → Waited × World
  pub parse : Bytes → Option Json
  pub pointer : Json → Bytes → Option Json
  pub as_f64 : Json → Option Float
  pub to_micros : Float → ℤ
  pub accounts : World → List AccountId

module _ (host : Host) where
  abbrev checked_body : Waited → Attempt HttpError Bytes
  checked_body late = err deadline_reached
  checked_body (failed e) = err e
  checked_body (response code body) =
      if not (nat_beq code 200)
      then err unknown
      else if host.is_utf8 body
      then ok body
      else err unknown

  abbrev received : ℕ → Option ℕ × host.World → Attempt HttpError Bytes × host.World
  received deadline (none, w) = (err io_error, w)
  received deadline (some pending, w) =
      let (waited, w') = host.try_wait pending deadline w in (checked_body waited, w')

  unfoldable pub fetch_http_get_result : Bytes → host.World → Attempt HttpError Bytes × host.World
  fetch_http_get_result url w =
      let (timestamp, w') = host.timestamp w in
      let deadline = timestamp + 10000 in
      if host.is_utf8 url then received deadline (host.send url deadline w') else (panic, w')

  abbrev number_at : Bytes → host.Json → Attempt FetchError ℤ
  number_at vpath json =
      if host.is_utf8 vpath
      then elim (host.pointer json vpath) [
        | none ↦ err vpath_error
        | some val ↦ elim (host.as_f64 val) [
          | none ↦ err vpath_value_type_error
          | some fval ↦ ok (host.to_micros fval)
        ]
      ]
      else err vpath_invalid_utf8

  abbrev value_in : Bytes → Attempt HttpError Bytes → Attempt FetchError ℤ
  value_in vpath (ok body) = elim (host.parse body) [
    | none ↦ err not_well_formatted
    | some json ↦ number_at vpath json
  ]
  value_in vpath (err _) = err failed_fetch_http
  value_in vpath panic = panic

  -- The body of the loop, for a feed with a URL and a path.
  unfoldable pub fetch_feed : Bytes → Bytes → host.World → Attempt FetchError ℤ × host.World
  unfolding fetch_http_get_result
  fetch_feed url vpath w = let (body, w') = fetch_http_get_result url w in (value_in vpath body, w')

  abbrev pub one_feed : ApiFeed → Option (host.World → Attempt FetchError ℤ × host.World)
  one_feed val = elim val.url [
    | none ↦ none
    | some url ↦ elim val.vpath [ none ↦ none | some vpath ↦ some (fetch_feed url vpath) ]
  ]

  abbrev pub Values : Type 0
  Values = Attempt FetchError (List (Bytes × ℤ)) × host.World

  abbrev pub pushed : Bytes → ℤ → Values → Values
  pushed key ival (ok values, w) = (ok ((key, ival) ∷ values), w)
  pushed key ival (err e, w) = (err e, w)
  pushed key ival (panic, w) = (panic, w)

  -- `?` on the value of one feed, before the feeds that follow
  abbrev pub then_feeds : Bytes → Attempt FetchError ℤ × host.World → (host.World → Values) → Values
  then_feeds key (ok ival, w) rest = pushed key ival (rest w)
  then_feeds key (err e, w) rest = (err e, w)
  then_feeds key (panic, w) rest = (panic, w)

  abbrev pub with_feed :
      Bytes
      → Option (host.World → Attempt FetchError ℤ × host.World)
      → (host.World → Values)
      → host.World
      → Values
  with_feed key none rest w = rest w
  with_feed key (some fetch) rest w = then_feeds key (fetch w) rest

  -- The loop over `ApiFeeds`: the first feed that fails ends it.
  unfoldable pub fetch_values : List ((CreatorId × Bytes) × ApiFeed) → host.World → Values
  unfolding fetch_feed
  fetch_values [] w = (ok [], w)
  fetch_values (((creator, key), val) ∷ feeds) w =
      with_feed key (one_feed val) (λ w'. fetch_values feeds w') w

  abbrev pub submitted_by : List (Bytes × ℤ) → List AccountId → List (AccountId × List (Bytes × ℤ))
  submitted_by [] accounts = []
  submitted_by values accounts = map (λ acc. (acc, values)) accounts

  -- A result, and the calls of `feed_data` that are sent, each by one of the local accounts.
  pub record Ran : Type 0 where
    pub result : Attempt FetchError Unit
    pub sent : List (AccountId × List (Bytes × ℤ))

  abbrev pub sending : Values → Ran
  sending (ok values, w) = record { result = ok tt; sent = submitted_by values (host.accounts w) }
  sending (err e, w) = record { result = err e; sent = [] }
  sending (panic, w) = record { result = panic; sent = [] }

  unfoldable pub fetch_api_and_feed_data : (cfg : Config) → State cfg → host.World → Ran
  unfolding fetch_values
  fetch_api_and_feed_data cfg s w = elim (host.accounts w) [
    | [] ↦ record { result = err no_local_accounts; sent = [] }
    | _ ∷ _ ↦ sending (fetch_values (cfg.iter_api_feeds s.api_feeds) w)
  ]

-- The validity of an unsigned transaction, with what a valid one says.
pub data Validity : Type 0 where
  stale future call : Validity
  valid : (priority longevity : ℕ) (propagate : Bool) → Validity

unfoldable pub validate_transaction :
    {C : Type 0} → (unsigned_priority current_block block_number : ℕ) → ParaOracle C → Validity
validate_transaction unsigned_priority current_block block_number s =
    if ltb block_number s.next_unsigned_at
    then stale
    else if ltb current_block block_number
    then future
    else valid unsigned_priority 5 true

-- `validate_unsigned` refuses every call.
unfoldable pub validate_unsigned : {C : Type 0} → C → Validity
validate_unsigned c = call
