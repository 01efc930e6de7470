-- ===== src/Node/Roles.antt =====
-- A started node has taken exactly the role that its configuration asks for, and its network starts
-- after everything else.
use paraxiom.Prelude.{
  ℕ, ◌≡◌, refl, Bool, true, false, not, ◌&&◌, Option, none, some, List, [], ◌∷◌, arith,
  if◌then◌else◌, inl, inr,
}
use paraxiom.Attempt.{Attempt, ok, err, panic}
use paraxiom.Node.Base.{Error, Handle, Event, network_started, Run, pure, lift, ◌>>=◌, emit, done}
use paraxiom.Node.Service.{
  Prepared, build_consensus, prepare, collate, follow, start_node_impl, expect,
}
use paraxiom.Node.Parts.{Configuration, Packages}
use paraxiom.Node.Startup.{prepare-Quiet}
use paraxiom.Node.Steps.{
  starts_network, starts_collator, starts_full_node, is_ok, count, ends_in_network, count-append,
  ends_in_network-append, Clean, Quiet, Quiet-Clean, Quiet-lift, Quiet-pure, Quiet-bind,
  Attempt-cases,
}

-- After a clean start a step takes the role of a collator or of a full node if it returns.
record Takes {A : Type 0} (collator : Bool) (m : Run A) : Type 0 where
  network : (events : List Event) → Clean events → count starts_network (m events).1 ≡ 0
  collates :
      (events : List Event)
      → Clean events
      → count starts_collator (m events).1 ≡ (if is_ok (m events).0 && collator then 1 else 0)
  follows :
      (events : List Event)
      → Clean events
      → count starts_full_node (m events).1 ≡ (if is_ok (m events).0 && not collator then 1 else 0)

Takes-bind :
    {A B : Type 0} (c : Bool) (m : Run A) (f : A → Run B)
    → Quiet m
    → ((a : A) → Takes c (f a))
    → Takes c (m >>= f)
Takes-bind c m f q k = record {
  network = λ events clean. elim (Attempt-cases (m events).0) [
    | inl (a, e) ↦ rw (e, ◌>>=◌) ((k a).network (m events).1 (Quiet-Clean m q events clean))
    | inr (inl (x, e)) ↦ rw (e, ◌>>=◌) (Quiet-Clean m q events clean).network
    | inr (inr e) ↦ rw (e, ◌>>=◌) (Quiet-Clean m q events clean).network
  ];
  collates = λ events clean. elim (Attempt-cases (m events).0) [
    | inl (a, e) ↦ rw (e, ◌>>=◌) ((k a).collates (m events).1 (Quiet-Clean m q events clean))
    | inr (inl (x, e)) ↦ rw (e, ◌>>=◌) (Quiet-Clean m q events clean).collator
    | inr (inr e) ↦ rw (e, ◌>>=◌) (Quiet-Clean m q events clean).collator
  ];
  follows = λ events clean. elim (Attempt-cases (m events).0) [
    | inl (a, e) ↦ rw (e, ◌>>=◌) ((k a).follows (m events).1 (Quiet-Clean m q events clean))
    | inr (inl (x, e)) ↦ rw (e, ◌>>=◌) (Quiet-Clean m q events clean).full_node
    | inr (inr e) ↦ rw (e, ◌>>=◌) (Quiet-Clean m q events clean).full_node
  ];
}

Takes-done :
    (c : Bool) (e : Event) (r : Attempt Error Unit)
    → starts_network e ≡ false
    → starts_collator e ≡ c
    → starts_full_node e ≡ not c
    → Takes c (done e r)
unfolding done
Takes-done c e (ok tt) n k f = record {
  network = λ events clean. ground (arith, count-append starts_network events e, clean.network);
  collates = λ events clean. ground (arith, count-append starts_collator events e, clean.collator);
  follows = λ events clean. ground (arith, count-append starts_full_node events e, clean.full_node);
}
Takes-done c e (err x) n k f = record {
  network = λ events clean. clean.network;
  collates = λ events clean. clean.collator;
  follows = λ events clean. clean.full_node;
}
Takes-done c e panic n k f = record {
  network = λ events clean. clean.network;
  collates = λ events clean. clean.collator;
  follows = λ events clean. clean.full_node;
}

ends_in_network-none :
    (events : List Event) → count starts_network events ≡ 0 → ends_in_network events ≡ false
unfolding count ends_in_network
ends_in_network-none [] h = refl
ends_in_network-none (e ∷ []) h = ground arith
ends_in_network-none (e ∷ f ∷ events) h = ends_in_network-none (f ∷ events) (ground arith)

module _ (p : Packages) where
  collate-Takes : (ready : Prepared) (para_id : ℕ) → Takes true (collate p ready para_id)
  unfolding collate build_consensus
  collate-Takes ready para_id =
      Takes-bind true
        (build_consensus p ready.params ready.relay_chain_interface ready.network
          ready.config.force_authoring para_id)
        _
        (Quiet-bind (lift (p.slot_duration ready.params.parts.client)) _ (Quiet-lift _)
          λ d. Quiet-pure _)
        λ consensus.
          Takes-bind true (expect p ready.collator_key) _ (expect-Quiet ready.collator_key)
            λ key. Takes-done true _ _ refl refl refl
    where
      expect-Quiet : (o : Option Handle) → Quiet (expect p o)
      expect-Quiet none = Quiet-lift panic
      expect-Quiet (some a) = Quiet-pure a

  follow-Takes : (ready : Prepared) (para_id : ℕ) → Takes false (follow p ready para_id)
  unfolding follow
  follow-Takes ready para_id = Takes-done false _ _ refl refl refl

  role-Takes :
      (ready : Prepared) (para_id : ℕ) (c : Bool)
      → Takes c (if c then collate p ready para_id else follow p ready para_id)
  role-Takes ready para_id true = collate-Takes ready para_id
  role-Takes ready para_id false = follow-Takes ready para_id

abbrev HasRole : {A : Type 0} → Bool → Attempt Error A × List Event → Type 0
HasRole authority (r, events) =
    (count starts_network events ≡ (if is_ok r then 1 else 0))
    × (ends_in_network events ≡ is_ok r)
    × (count starts_collator events ≡ (if is_ok r && authority then 1 else 0))
    × (count starts_full_node events ≡ (if is_ok r && not authority then 1 else 0))

-- A step that has not returned ends the start.
no_role :
    {A : Type 0} (c : Bool) (r : Attempt Error A) (events : List Event)
    → is_ok r ≡ false
    → Clean events
    → HasRole c (r, events)
no_role c r events failed clean =
    rw failed
      (clean.network, ends_in_network-none events clean.network, clean.collator, clean.full_node)

-- After a role that is taken, the network starts.
network_last :
    {A : Type 0} (c : Bool) (a : A) (r : Attempt Error Unit) (events : List Event)
    → count starts_network events ≡ 0
    → count starts_collator events ≡ (if is_ok r && c then 1 else 0)
    → count starts_full_node events ≡ (if is_ok r && not c then 1 else 0)
    → HasRole c (((λ _. (r, events)) >>= λ _. emit network_started >>= λ _. pure a) [])
network_last {A = A} c a (ok u) events n k f = (
  ground (arith, count-append starts_network events network_started),
  ends_in_network-append events network_started,
  ground (arith, count-append starts_collator events network_started),
  ground (arith, count-append starts_full_node events network_started),
)
network_last {A = A} c a (err x) events n k f =
    no_role {A = A} c (err x) events refl (record { network = n; collator = k; full_node = f })
network_last {A = A} c a panic events n k f =
    no_role {A = A} c panic events refl (record { network = n; collator = k; full_node = f })

role-network :
    {A : Type 0} (c : Bool) (m : Run Unit) (a : A) (events : List Event)
    → Takes c m
    → Clean events
    → HasRole c ((m >>= λ _. emit network_started >>= λ _. pure a) events)
role-network c m a events t clean =
    network_last c a (m events).0 (m events).1 (t.network events clean) (t.collates events clean)
      (t.follows events clean)

module _ (p : Packages) (parachain_config polkadot : Configuration) (options : Handle) (para_id : ℕ)
    (hwbench : Option Handle) where
  -- A start from scratch that returns has started exactly one collator and no full node if the
  -- prepared configuration is an authority's, exactly one full node and no collator otherwise, and
  -- exactly one network, as its last step; a start that does not return has started none of these.
  pub start_node_impl_lem :
      let authority = (p.prepare_node_config parachain_config).is_authority in
      let (r, events) = start_node_impl p parachain_config polkadot options para_id hwbench [] in
      (count starts_network events ≡ (if is_ok r then 1 else 0))
      × (ends_in_network events ≡ is_ok r)
      × (count starts_collator events ≡ (if is_ok r && authority then 1 else 0))
      × (count starts_full_node events ≡ (if is_ok r && not authority then 1 else 0))
  unfolding start_node_impl count
  start_node_impl_lem =
      let m = prepare p parachain_config polkadot options para_id hwbench in
      after (m []).0 (m []).1 (
        Quiet-Clean m (prepare-Quiet p parachain_config polkadot options para_id hwbench) []
          nothing)
    where
      nothing : Clean []
      nothing = record { network = refl; collator = refl; full_node = refl }

      after :
          (r : Attempt Error Prepared) (events : List Event)
          → Clean events
          → let authority = (p.prepare_node_config parachain_config).is_authority in
            HasRole {A = Handle × Handle} authority (
              ((λ _. (r, events)) >>= λ ready.
              (if authority then collate p ready para_id else follow p ready para_id) >>= λ _.
              emit network_started >>= λ _.
              pure (ready.params.parts.task_manager, ready.params.parts.client))
                [])
      after (ok ready) events clean =
          role-network (p.prepare_node_config parachain_config).is_authority
            (if (p.prepare_node_config parachain_config).is_authority
              then collate p ready para_id
              else follow p ready para_id)
            (ready.params.parts.task_manager, ready.params.parts.client) events
            (role-Takes p ready para_id (p.prepare_node_config parachain_config).is_authority) clean
      after (err x) events clean =
          no_role {A = Handle × Handle} (p.prepare_node_config parachain_config).is_authority
            (err x) events refl clean
      after panic events clean =
          no_role {A = Handle × Handle} (p.prepare_node_config parachain_config).is_authority panic
            events refl clean
