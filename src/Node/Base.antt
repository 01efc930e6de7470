-- ===== src/Node/Base.antt =====
-- What the start of a node is made of: steps that may fail and that leave a record of what they have
-- set in motion. What the packages hand out (clients, networks, ..) is known by a number.
use paraxiom.Prelude.{ℕ, String, List, [], ◌∷◌, ◌++◌}
use paraxiom.Attempt.{Attempt, ok, err, panic}

-- An error of a package (`foreign`), or a text of this program; `formatted` is an error with a text in front.
pub data Error : Type 0 where
  foreign : ℕ → Error
  input : String → Error
  formatted : String → Error → Error

abbrev pub Handle : Type 0
Handle = ℕ

pub record StartCollatorParams : Type 0 where
  pub para_id : ℕ
  pub client : Handle
  pub relay_chain_interface : Handle
  pub parachain_consensus : Handle
  pub import_queue : Handle
  pub collator_key : Handle
  pub relay_chain_slot_duration : ℕ

pub record StartFullNodeParams : Type 0 where
  pub para_id : ℕ
  pub client : Handle
  pub relay_chain_interface : Handle
  pub import_queue : Handle
  pub relay_chain_slot_duration : ℕ

-- What has been set in motion.
pub data Event : Type 0 where
  telemetry_spawned relay_chain_interface_built network_built : Event
  offchain_workers_built tasks_spawned hwbench_printed hwbench_telemetry_spawned : Event
  collator_started : StartCollatorParams → Event
  full_node_started : StartFullNodeParams → Event
  network_started : Event

abbrev pub Run : Type 0 → Type 0
Run A = List Event → Attempt Error A × List Event

module _ {A : Type 0} where
  abbrev pub pure : A → Run A
  pure a events = (ok a, events)

  abbrev pub lift : Attempt Error A → Run A
  lift r events = (r, events)

infixl 5 ◌>>=◌ ◌>>◌
abbrev pub ◌>>=◌ : {A B : Type 0} → Run A → (A → Run B) → Run B
◌>>=◌ m f events =
    let (r, events') = m events in
    elim r [ ok a ↦ f a events' | err e ↦ (err e, events') | panic ↦ (panic, events') ]

abbrev pub ◌>>◌ : {A B : Type 0} → Run A → Run B → Run B
m >> k = m >>= λ _. k

abbrev pub emit : Event → Run Unit
emit event events = (ok tt, events ++ event ∷ [])

-- A step of a package, noted once it has succeeded.
unfoldable pub done : {A : Type 0} → Event → Attempt Error A → Run A
done event r = lift r >>= λ a. emit event >> pure a
