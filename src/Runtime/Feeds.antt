-- ===== src/Runtime/Feeds.antt =====
-- Whose feeds a call of the runtime's three pallets may change.
use paraxiom.Prelude.{ℕ, ◌≡◌, ◌≢◌, refl, ap, arith, nat_eq, list_eq, pair_eq}
use paraxiom.Frame.{Bytes, AccountId, Origin, signed, Exec}
use paraxiom.Frame.Within.{Within}
use paraxiom.Storage.{get, get-insert, get-remove}
use paraxiom.Anchor.State.{Codec}
use paraxiom.Anchor.Rollup.{Node, rollup}
use paraxiom.Registry.{Registry, registered, register_feed, unregister_feed}
use paraxiom.Oracle.State.{Backend, Env}
use paraxiom.Oracle.Calls.{request, feeds, average, on_response}
use paraxiom.Runtime.Calls.{Call}
use paraxiom.Runtime.Reachable.{
  SameRegistry, layer, rollup-SameRegistry, request-SameRegistry, feeds-SameRegistry,
  average-SameRegistry,
}
use paraxiom.Runtime.{dispatch, call, runtime_config}

module _ (other : AccountId) (k : Bytes) where
  abbrev SameFeed : Registry → Registry → Type 0
  SameFeed s t = get t.api_feeds (other, k) ≡ get s.api_feeds (other, k)

  register_feed-SameFeed :
      (block : ℕ) (origin : Origin) (key url path : Bytes) (s : Registry)
      → origin ≢ signed other
      → SameFeed s (register_feed block origin key url path s).1
  unfolding register_feed
  register_feed-SameFeed block (signed who) key url path s ne =
      let apart : who ≢ other = λ e. ne (ap signed e) in
      ground (
        arith,
        get-insert s.api_feeds (who, key) (other, k)
            (record { started_at = block; url = url; path = path; status = registered }),
      )
  register_feed-SameFeed block origin key url path s ne = refl

  unregister_feed-SameFeed :
      (origin : Origin) (key : Bytes) (s : Registry)
      → origin ≢ signed other
      → SameFeed s (unregister_feed origin key s).1
  unfolding unregister_feed
  unregister_feed-SameFeed (signed who) key s ne =
      let apart : who ≢ other = λ e. ne (ap signed e) in
      ground (arith, get-remove s.api_feeds (who, key) (other, k))
  unregister_feed-SameFeed origin key s ne = refl

  same :
      {A : Type 0} (m : Exec (Node Backend) A) (n : Node Backend)
      → Within SameRegistry m
      → SameFeed n.app.registry (m n).1.app.registry
  same m n w = rw (w.moves n) refl

  module _ (codec : Codec) (env : Env) where
    call-SameFeed :
        (origin : Origin) (c : Call) (n : Node Backend)
        → origin ≢ signed other
        → SameFeed n.app.registry (call codec env origin c n).1.app.registry
    call-SameFeed origin (Call.claim_name name) n ne = refl
    call-SameFeed origin (Call.rollup name tx nonce) n ne =
        same (rollup (runtime_config codec) (on_response env) origin name tx nonce) n
          (rollup-SameRegistry (runtime_config codec) env origin name tx nonce)
    call-SameFeed origin (Call.register_feed key url path) n ne =
        register_feed-SameFeed env.block_number origin key url path n.app.registry ne
    call-SameFeed origin (Call.unregister_feed key) n ne =
        unregister_feed-SameFeed origin key n.app.registry ne
    call-SameFeed origin (Call.request key nonce) n ne =
        same (request (runtime_config codec) env origin key nonce) n
          (request-SameRegistry (runtime_config codec) env origin key nonce)
    call-SameFeed origin (Call.feeds name bytes nonce) n ne =
        same (feeds origin name bytes nonce) n (feeds-SameRegistry origin name bytes nonce)
    call-SameFeed origin Call.average n ne = same (average origin) n (average-SameRegistry origin)

-- A call of the anchor, the registry or the oracle, whether it succeeds or fails, that an account does
-- not sign itself leaves the feeds of that account in the registry as they are.
pub dispatch_isolated :
    (codec : Codec) (env : Env) (origin : Origin) (c : Call) (n : Node Backend) (other : AccountId)
    (k : Bytes)
    → origin ≢ signed other
    → get (dispatch codec env origin c n).1.app.registry.api_feeds (other, k)
      ≡ get n.app.registry.api_feeds (other, k)
unfolding dispatch
dispatch_isolated codec env origin c n other k ne =
    layer (λ m. get m.app.registry.api_feeds (other, k) ≡ get n.app.registry.api_feeds (other, k))
      (call codec env origin c) n refl (call-SameFeed other k codec env origin c n ne)
