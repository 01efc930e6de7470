-- ===== src/Node/Launch.antt =====
-- What the command line starts: the node of the specification's parachain, or no node.
use paraxiom.Prelude.{
  ℕ, ◌≡◌, refl, Bool, true, false, Option, none, some, String, List, [], arith, if◌then◌else◌,
  nat_beq, nat_beq_iff, string_eq, ◌==◌, inl, inr, Option-cases, ◌⊎◌, ◌≢◌, ◌||◌,
}
use mathlib.Core.Path.{subst}
use paraxiom.Attempt.{map_err, ok, panic}
use paraxiom.Node.ChainSpec.{
  ChainSpec, Extensions, try_get, extensions_of_network, development_config, local_testnet_config,
}
use paraxiom.Node.Base.{
  Handle, Event, lift, ◌>>=◌, collator_started, full_node_started, network_started, emit, input,
  formatted,
}
use paraxiom.Node.Service.{
  Prepared, build_consensus, prepare, collate, follow, start_node_impl, expect,
}
use paraxiom.Node.Parts.{Configuration}
use paraxiom.Node.Parts as Parts
use paraxiom.Node.Startup.{prepare-Quiet}
use paraxiom.Node.Steps.{
  is_quiet, Pass, Adds, Adds-lift, Adds-pure, Adds-emit, Adds-bind, Adds-done,
}
use paraxiom.Node.Command.{
  new, chain_id, polkadot_config, run_node, run, launch, load_spec, ok_or, hwbench_of,
}
use paraxiom.Node.Cli.{Packages, Cli}
use paraxiom.Node.Subcommands.{polkadot_config-Quiet, run_subcommand-Quiet}

-- A collator or a full node is started for this parachain only.
abbrev pub is_for : ℕ → Event → Bool
is_for id (collator_started params) = nat_beq params.para_id id
is_for id (full_node_started params) = nat_beq params.para_id id
is_for id _ = true

quiet-is_for : (id : ℕ) (e : Event) → is_quiet e ≡ true → is_for id e ≡ true
quiet-is_for id e h = ground arith

module _ (p : Parts.Packages) (id : ℕ) where
  expect-Adds : (o : Option Handle) → Adds (is_for id) (expect p o)
  expect-Adds none = Adds-lift (is_for id) panic
  expect-Adds (some a) = Adds-pure (is_for id) a

  collate-Adds : (ready : Prepared) → Adds (is_for id) (collate p ready id)
  unfolding collate build_consensus
  collate-Adds ready =
      Adds-bind (is_for id)
        (build_consensus p ready.params ready.relay_chain_interface ready.network
          ready.config.force_authoring id)
        _
        (Adds-bind (is_for id) (lift (p.slot_duration ready.params.parts.client)) _
          (Adds-lift (is_for id) _) λ d. Adds-pure (is_for id) _)
        λ consensus.
          Adds-bind (is_for id) (expect p ready.collator_key) _ (expect-Adds ready.collator_key)
            λ key. Adds-done (is_for id) _ _ ((nat_beq_iff id id).1 refl)

  follow-Adds : (ready : Prepared) → Adds (is_for id) (follow p ready id)
  unfolding follow
  follow-Adds ready = Adds-done (is_for id) _ _ ((nat_beq_iff id id).1 refl)

  role-Adds :
      (ready : Prepared) (c : Bool)
      → Adds (is_for id) (if c then collate p ready id else follow p ready id)
  role-Adds ready true = collate-Adds ready
  role-Adds ready false = follow-Adds ready

  start_node_impl-Adds :
      (config polkadot : Configuration) (options : Handle) (hwbench : Option Handle)
      → Adds (is_for id) (start_node_impl p config polkadot options id hwbench)
  unfolding start_node_impl
  start_node_impl-Adds config polkadot options hwbench =
      Adds-bind (is_for id) (prepare p config polkadot options id hwbench) _
        ((prepare-Quiet p config polkadot options id hwbench).quiet (is_for id) (quiet-is_for id))
        λ ready.
          Adds-bind (is_for id)
            (if (p.prepare_node_config config).is_authority
              then collate p ready id
              else follow p ready id)
            _ (role-Adds ready (p.prepare_node_config config).is_authority)
            λ _.
              Adds-bind (is_for id) (emit network_started) _
                (Adds-emit (is_for id) network_started refl)
                λ _.
                  Adds-pure (is_for id) (ready.params.parts.task_manager, ready.params.parts.client)

module _ (p : Packages) where
  launch-Adds :
      (cli : Cli) (config : Configuration) (hwbench : Option Handle) (e : Extensions)
      → Adds (is_for e.para_id) (launch p cli config hwbench e)
  unfolding launch
  launch-Adds cli config hwbench e =
      let test = is_for e.para_id in
      Adds-bind test
        (lift (map_err (formatted "") (p.generate_genesis_block config.chain_spec p.state_version)))
        _ (Adds-lift test _)
        λ _.
          Adds-bind test (polkadot_config p config cli.relay_chain_args) _
            ((polkadot_config-Quiet p config cli.relay_chain_args).quiet test
              (quiet-is_for e.para_id))
            λ polkadot.
              Adds-bind test
                (start_node_impl p.service config polkadot cli.collator_options e.para_id hwbench) _
                (start_node_impl-Adds p.service e.para_id config polkadot cli.collator_options
                  hwbench)
                λ _. Adds-pure test tt

  found-Adds :
      (cli : Cli) (config : Configuration) (hwbench : Option Handle) (e : Extensions)
      (o : Option Extensions)
      → o ≡ some e
      → Adds (is_for e.para_id) (
          ok_or p o (input "Could not find parachain ID in chain-spec.")
          >>= launch p cli config hwbench)
  found-Adds cli config hwbench e none h = cc
  found-Adds cli config hwbench e (some x) h =
      let same : x ≡ e = cc in
      subst (λ y. Adds (is_for y.para_id) (launch p cli config hwbench x)) same
        (launch-Adds cli config hwbench x)

  -- Whatever the command line says: a collator or a full node that it starts is started for the
  -- parachain that the extensions of the chain's specification name.
  pub run-is_for :
      (cli : Cli) (config : Configuration) (e : Extensions)
      → p.create_runner cli.run ≡ ok config
      → try_get config.chain_spec ≡ some e
      → Pass (is_for e.para_id) (run p cli []).1
  unfolding run run_node
  run-is_for cli config e runs found = elim (Option-cases cli.subcommand) [
    | inl without ↦
        rw (without, runs)
          ((found-Adds cli config (hwbench_of p cli.no_hardware_benchmarks config.database_path) e
              (try_get config.chain_spec) found).adds
            [] tt)
    | inr (cmd, with_cmd) ↦ rw with_cmd (
        ((run_subcommand-Quiet p cli cmd).quiet (is_for e.para_id) (quiet-is_for e.para_id)).adds []
          tt)
  ]

  -- A subcommand never starts a collator, a full node or the network, and neither does a command line
  -- without one, which then fails, where the chain's specification has no extensions.
  pub run-is_quiet :
      (cli : Cli) (config : Configuration)
      → p.create_runner cli.run ≡ ok config
      → (try_get config.chain_spec ≡ none) ⊎ (cli.subcommand ≢ none)
      → Pass is_quiet (run p cli []).1
  unfolding run run_node
  run-is_quiet cli config runs why = elim (Option-cases cli.subcommand) [
    | inl without ↦ elim why [
      | inl missing ↦ rw (without, runs, missing) tt
      | inr some_cmd ↦ absurd (some_cmd without)
    ]
    | inr (cmd, with_cmd) ↦
        rw with_cmd (((run_subcommand-Quiet p cli cmd).quiet is_quiet (λ e h. h)).adds [] tt)
  ]

  chain_id-new :
      (config : Configuration) (args : List String) (is_dev : Bool) (id : String) (e : Extensions)
      → p.base_chain_id (p.parse_from args) is_dev ≡ ok id
      → try_get config.chain_spec ≡ some e
      → chain_id p (new p config args) is_dev ≡ ok (if id == "" then e.relay_chain else id)
  unfolding chain_id new
  chain_id-new config args is_dev id e parsed found = ground arith

  abbrev is_builtin : String → Bool
  is_builtin id = id == "dev" || id == "paraxiom-rococo" || id == "" || id == "local"

  builtin-extensions :
      (id : String) (spec : ChainSpec)
      → is_builtin id ≡ true
      → load_spec p id ≡ ok spec
      → try_get spec ≡ some extensions_of_network
  unfolding load_spec development_config local_testnet_config
  builtin-extensions id spec builtin loaded = ground arith

  -- A node of a specification that this program builds in (`dev`, `paraxiom-rococo`, `local`, or none
  -- named) follows the relay chain `rococo-local`, unless its relay chain arguments name another.
  pub load_spec-chain_id :
      (name : String) (config : Configuration) (args : List String) (is_dev : Bool) (id : String)
      → is_builtin name ≡ true
      → load_spec p name ≡ ok config.chain_spec
      → p.base_chain_id (p.parse_from args) is_dev ≡ ok id
      → chain_id p (new p config args) is_dev ≡ ok (if id == "" then "rococo-local" else id)
  load_spec-chain_id name config args is_dev id builtin loaded parsed =
      chain_id-new config args is_dev id extensions_of_network parsed
        (builtin-extensions name config.chain_spec builtin loaded)
