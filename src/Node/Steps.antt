-- ===== src/Node/Steps.antt =====
-- Steps of a start, by the events that they add to the record.
use paraxiom.Prelude.{
  All, ℕ, suc, ◌+◌, ◌≡◌, refl, Bool, true, false, not, ◌&&◌, List, [], ◌∷◌, ◌++◌, arith,
  if◌then◌else◌, ◌⊎◌, inl, inr,
}
use paraxiom.Attempt.{Attempt, ok, err, panic}
use paraxiom.Node.Base.{
  Error, Event, network_started, collator_started, full_node_started, Run, pure, lift, ◌>>=◌, ◌>>◌,
  emit, done,
}

abbrev pub starts_network : Event → Bool
starts_network network_started = true
starts_network _ = false

abbrev pub starts_collator : Event → Bool
starts_collator (collator_started _) = true
starts_collator _ = false

abbrev pub starts_full_node : Event → Bool
starts_full_node (full_node_started _) = true
starts_full_node _ = false

abbrev pub is_ok : {E A : Type 0} → Attempt E A → Bool
is_ok (ok a) = true
is_ok _ = false

unfoldable pub count : (Event → Bool) → List Event → ℕ
count test [] = 0
count test (e ∷ events) = let n = count test events in if test e then suc n else n

-- Whether the last event starts the network.
unfoldable pub ends_in_network : List Event → Bool
ends_in_network [] = false
ends_in_network (e ∷ []) = starts_network e
ends_in_network (e ∷ f ∷ events) = ends_in_network (f ∷ events)

pub count-append :
    (test : Event → Bool) (events : List Event) (e : Event)
    → count test (events ++ e ∷ []) ≡ count test events + (if test e then 1 else 0)
unfolding count
count-append test [] e = ground arith
count-append test (d ∷ events) e = ground (arith, count-append test events e)

pub ends_in_network-append :
    (events : List Event) (e : Event) → ends_in_network (events ++ e ∷ []) ≡ starts_network e
unfolding ends_in_network
ends_in_network-append [] e = refl
ends_in_network-append (d ∷ []) e = refl
ends_in_network-append (d ∷ f ∷ events) e = ends_in_network-append (f ∷ events) e

-- Nothing has taken a role or started the network yet.
pub record Clean (events : List Event) : Type 0 where
  pub network : count starts_network events ≡ 0
  pub collator : count starts_collator events ≡ 0
  pub full_node : count starts_full_node events ≡ 0

abbrev pub is_quiet : Event → Bool
is_quiet e = not (starts_network e) && not (starts_collator e) && not (starts_full_node e)

-- All events of a run pass a test.
abbrev pub Pass : (Event → Bool) → List Event → Type 0
Pass test = All (λ e. test e ≡ true)

Pass-append :
    (test : Event → Bool) (events : List Event) (e : Event)
    → Pass test events
    → test e ≡ true
    → Pass test (events ++ e ∷ [])
Pass-append test [] e h k = (k, tt)
Pass-append test (d ∷ events) e h k = (h.0, Pass-append test events e h.1 k)

-- A step adds only events that pass a test.
pub record Adds {A : Type 0} (test : Event → Bool) (m : Run A) : Type 0 where
  pub adds : (events : List Event) → Pass test events → Pass test (m events).1

pub Attempt-cases :
    {A : Type 0} (r : Attempt Error A)
    → ((a : A) × (r ≡ ok a)) ⊎ ((e : Error) × (r ≡ err e)) ⊎ (r ≡ panic)
Attempt-cases (ok a) = inl (a, refl)
Attempt-cases (err e) = inr (inl (e, refl))
Attempt-cases panic = inr (inr refl)

module _ (test : Event → Bool) where
  pub Adds-lift : {A : Type 0} (r : Attempt Error A) → Adds test (lift r)
  Adds-lift r = record { adds = λ events h. h }

  pub Adds-pure : {A : Type 0} (a : A) → Adds test (pure a)
  Adds-pure a = record { adds = λ events h. h }

  pub Adds-emit : (e : Event) → test e ≡ true → Adds test (emit e)
  Adds-emit e q = record { adds = λ events h. Pass-append test events e h q }

  pub Adds-bind :
      {A B : Type 0} (m : Run A) (f : A → Run B)
      → Adds test m
      → ((a : A) → Adds test (f a))
      → Adds test (m >>= f)
  Adds-bind m f q k = record {
    adds = λ events h. elim (Attempt-cases (m events).0) [
      | inl (a, e) ↦ rw (e, ◌>>=◌) ((k a).adds (m events).1 (q.adds events h))
      | inr (inl (x, e)) ↦ rw (e, ◌>>=◌) (q.adds events h)
      | inr (inr e) ↦ rw (e, ◌>>=◌) (q.adds events h)
    ];
  }

  pub Adds-done :
      {A : Type 0} (e : Event) (r : Attempt Error A) → test e ≡ true → Adds test (done e r)
  unfolding done
  Adds-done e r q =
      Adds-bind (lift r) (λ a. emit e >> pure a) (Adds-lift r)
        (λ a. Adds-bind (emit e) (λ _. pure a) (Adds-emit e q) (λ _. Adds-pure a))

-- A step that takes no role and does not start the network adds nothing but such events.
pub record Quiet {A : Type 0} (m : Run A) : Type 0 where
  pub quiet :
      (test : Event → Bool) → ((e : Event) → is_quiet e ≡ true → test e ≡ true) → Adds test m

pub Quiet-lift : {A : Type 0} (r : Attempt Error A) → Quiet (lift r)
Quiet-lift r = record { quiet = λ test h. Adds-lift test r }

pub Quiet-pure : {A : Type 0} (a : A) → Quiet (pure a)
Quiet-pure a = record { quiet = λ test h. Adds-pure test a }

pub Quiet-emit : (e : Event) → is_quiet e ≡ true → Quiet (emit e)
Quiet-emit e q = record { quiet = λ test h. Adds-emit test e (h e q) }

pub Quiet-bind :
    {A B : Type 0} (m : Run A) (f : A → Run B) → Quiet m → ((a : A) → Quiet (f a)) → Quiet (m >>= f)
Quiet-bind m f q k = record {
  quiet = λ test h. Adds-bind test m f (q.quiet test h) (λ a. (k a).quiet test h);
}

pub Quiet-done :
    {A : Type 0} (e : Event) (r : Attempt Error A) → is_quiet e ≡ true → Quiet (done e r)
Quiet-done e r q = record { quiet = λ test h. Adds-done test e r (h e q) }

Pass-Clean : (events : List Event) → Pass is_quiet events → Clean events
unfolding count
Pass-Clean [] h = record { network = refl; collator = refl; full_node = refl }
Pass-Clean (e ∷ events) h =
    let rest = Pass-Clean events h.1 in
    record {
      network = ground (arith, rest.network);
      collator = ground (arith, rest.collator);
      full_node = ground (arith, rest.full_node);
    }

Clean-Pass : (events : List Event) → Clean events → Pass is_quiet events
unfolding count
Clean-Pass [] h = tt
Clean-Pass (e ∷ events) h = (
  ground (arith, h.network, h.collator, h.full_node),
  Clean-Pass events (record {
    network = ground (arith, h.network);
    collator = ground (arith, h.collator);
    full_node = ground (arith, h.full_node);
  }),
)

-- A quiet step keeps a clean record clean.
pub Quiet-Clean :
    {A : Type 0} (m : Run A) → Quiet m → (events : List Event) → Clean events → Clean (m events).1
Quiet-Clean m q events c =
    Pass-Clean (m events).1 ((q.quiet is_quiet (λ e h. h)).adds events (Clean-Pass events c))
