-- ===== src/Node/Startup.antt =====
-- What a start of a node sets in motion: the network last, and one of the two roles, or neither.
use paraxiom.Prelude.{
  ℕ, refl, Bool, true, false, Option, none, some, String, List, [], ◌∷◌, if◌then◌else◌,
}
use paraxiom.Node.Base.{
  Handle, pure, lift, emit, done, telemetry_spawned, relay_chain_interface_built, network_built,
  offchain_workers_built, tasks_spawned, hwbench_printed, hwbench_telemetry_spawned,
}
use paraxiom.Node.Service.{
  build_import_queue, new_partial, telemetry_of, spawn_telemetry, report_hwbench, prepare,
}
use paraxiom.Node.Parts.{Configuration, Packages}
use paraxiom.Node.Steps.{Quiet, Quiet-bind, Quiet-done, Quiet-emit, Quiet-lift, Quiet-pure}

module _ (p : Packages) where
  build_import_queue-Quiet :
      (client block_import : Handle) (telemetry : Option Handle)
      → Quiet (build_import_queue p client block_import telemetry)
  unfolding build_import_queue
  build_import_queue-Quiet client block_import telemetry =
      Quiet-bind (lift (p.slot_duration client)) _ (Quiet-lift (p.slot_duration client))
        λ d. Quiet-lift _

  telemetry_of-Quiet : (endpoints : Option (List String)) → Quiet (telemetry_of p endpoints)
  telemetry_of-Quiet none = Quiet-pure none
  telemetry_of-Quiet (some []) = Quiet-pure none
  telemetry_of-Quiet (some (x ∷ xs)) =
      Quiet-bind (lift (p.new_telemetry (x ∷ xs))) _ (Quiet-lift (p.new_telemetry (x ∷ xs)))
        λ t. Quiet-pure (some t)

  spawn_telemetry-Quiet : (t : Option (Handle × Handle)) → Quiet (spawn_telemetry p t)
  spawn_telemetry-Quiet none = Quiet-pure none
  spawn_telemetry-Quiet (some (worker, t)) =
      Quiet-bind (emit telemetry_spawned) _ (Quiet-emit telemetry_spawned refl)
        λ _. Quiet-pure (some t)

  pub new_partial-Quiet : (config : Configuration) → Quiet (new_partial p config)
  unfolding new_partial
  new_partial-Quiet config =
      Quiet-bind (telemetry_of p config.telemetry_endpoints) _
        (telemetry_of-Quiet config.telemetry_endpoints)
        λ started. Quiet-bind (lift (p.new_full_parts config _)) _ (Quiet-lift _) λ parts.
          Quiet-bind (spawn_telemetry p started) _ (spawn_telemetry-Quiet started) λ telemetry.
            Quiet-bind (build_import_queue p parts.client _ telemetry) _
              (build_import_queue-Quiet parts.client _ telemetry) λ queue. Quiet-pure _

  report_hwbench-Quiet : (h t : Option Handle) → Quiet (report_hwbench p h t)
  report_hwbench-Quiet none t = Quiet-pure tt
  report_hwbench-Quiet (some h) none = Quiet-emit hwbench_printed refl
  report_hwbench-Quiet (some h) (some t) =
      Quiet-bind (emit hwbench_printed) _ (Quiet-emit hwbench_printed refl)
        λ _. Quiet-emit hwbench_telemetry_spawned refl

  when_enabled-Quiet : (b : Bool) → Quiet (if b then emit offchain_workers_built else pure tt)
  when_enabled-Quiet true = Quiet-emit offchain_workers_built refl
  when_enabled-Quiet false = Quiet-pure tt

  pub prepare-Quiet :
      (config polkadot : Configuration) (options : Handle) (para_id : ℕ) (hwbench : Option Handle)
      → Quiet (prepare p config polkadot options para_id hwbench)
  unfolding prepare
  prepare-Quiet parachain_config polkadot options para_id hwbench =
      let config = p.prepare_node_config parachain_config in
      Quiet-bind (new_partial p config) _ (new_partial-Quiet config) λ params.
        Quiet-bind (done relay_chain_interface_built _) _
          (Quiet-done relay_chain_interface_built _ refl)
          λ found. Quiet-bind (done network_built _) _ (Quiet-done network_built _ refl) λ network.
            Quiet-bind
              (if config.offchain_worker_enabled then emit offchain_workers_built else pure tt) _
              (when_enabled-Quiet config.offchain_worker_enabled)
              λ _. Quiet-bind (done tasks_spawned _) _ (Quiet-done tasks_spawned _ refl) λ _.
                Quiet-bind (report_hwbench p hwbench params.telemetry) _
                  (report_hwbench-Quiet hwbench params.telemetry) λ _. Quiet-pure _
