-- ===== src/Node/Rpc.antt =====
-- node/src/rpc.rs: the module of JSON-RPC methods that the node serves. The packages' methods and their
-- `RpcModule` are parameters.
use paraxiom.Prelude.{Bool, String, List, [], ◌++◌, ◌≡◌, ap, ◌∙◌}
use paraxiom.Attempt.{Attempt, ok, and_then, and_then_ok, map_err}
use paraxiom.Node.Base.{Error, Handle}

pub record FullDeps : Type 0 where
  pub client : Handle
  pub pool : Handle
  pub deny_unsafe : Bool

-- `M` is `RpcModule`.
pub record Packages (M : Type 0) : Type 0 where
  pub new : M
  pub merge : M → M → Attempt Error M
  -- `System::new(..).into_rpc()`
  pub system : Handle → Handle → Bool → M
  -- `TransactionPayment::new(..).into_rpc()`
  pub transaction_payment : Handle → M

module _ {M : Type 0} (p : Packages M) where
  unfoldable pub create_full : FullDeps → Attempt Error M
  create_full deps =
      and_then (p.merge p.new (p.system deps.client deps.pool deps.deny_unsafe))
        λ merged. p.merge merged (p.transaction_payment deps.client)

  -- The node's `rpc_builder`, where `into` turns the module's error into the service's.
  unfoldable pub rpc_builder : (Error → Error) → Handle → Handle → Bool → Attempt Error M
  rpc_builder into client pool deny_unsafe =
      map_err into
        (create_full (record { client = client; pool = pool; deny_unsafe = deny_unsafe }))

  -- What jsonrpsee documents of a module: it starts empty, and what is merged into it is added.
  pub record Documented : Type 0 where
    pub names : M → List String
    pub names_new : names p.new ≡ []
    pub names_merge : (m n merged : M) → p.merge m n ≡ ok merged → names merged ≡ names m ++ names n

  -- A module that is built serves the system's methods and those of the transaction payment.
  pub create_full_lem :
      (doc : Documented) (deps : FullDeps) (m : M)
      → create_full deps ≡ ok m
      → doc.names m
        ≡ doc.names (p.system deps.client deps.pool deps.deny_unsafe)
          ++ doc.names (p.transaction_payment deps.client)
  unfolding create_full
  create_full_lem doc deps m built =
      let (merged, first, second) =
        and_then_ok (p.merge p.new (p.system deps.client deps.pool deps.deny_unsafe)) _ m built in
      let e = doc.names_merge p.new _ merged first in
      let e' = doc.names_merge merged _ m second in
      e'
      ∙ ap (λ ns. ns ++ doc.names (p.transaction_payment deps.client))
          (e
            ∙ ap (λ ns. ns ++ doc.names (p.system deps.client deps.pool deps.deny_unsafe))
                doc.names_new)
