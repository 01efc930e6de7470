-- ===== src/Runtime/Inherents.antt =====
-- runtime/paraxiom/src/lib.rs: `CheckInherents`, which checks the inherents of a block while the relay chain
-- validates it. The packages' functions are parameters.
use paraxiom.Prelude.{ℕ, ◌≡◌, ◌⊎◌, inl, inr, refl}
use paraxiom.Attempt.{Attempt, ok, err, panic, and_then}

-- `E` is the packages' errors; a block, a proof, a provider, inherent data and a result of the check are
-- numbers.
pub record Packages (E : Type 0) : Type 0 where
  pub read_slot : ℕ → Attempt E ℕ
  pub from_relay_chain_slot_and_duration : ℕ → ℕ → ℕ
  pub create_inherent_data : ℕ → Attempt E ℕ
  pub check_extrinsics : ℕ → ℕ → ℕ

module _ {E : Type 0} where
  abbrev pub expect : {A : Type 0} → Attempt E A → Attempt E A
  expect (ok a) = ok a
  expect (err e) = panic
  expect panic = panic

  unfoldable pub check_inherents : Packages E → ℕ → ℕ → Attempt E ℕ
  check_inherents p block relay_state_proof =
      and_then (expect (p.read_slot relay_state_proof)) λ relay_chain_slot.
        and_then
          (expect
            (p.create_inherent_data (p.from_relay_chain_slot_and_duration relay_chain_slot 6)))
          λ inherent_data. ok (p.check_extrinsics inherent_data block)

  abbrev pub Checked : Packages E → ℕ → ℕ → ℕ → Type 0
  Checked p block proof result =
      (slot inherent_data : ℕ) × (p.read_slot proof ≡ ok slot)
      × (p.create_inherent_data (p.from_relay_chain_slot_and_duration slot 6) ≡ ok inherent_data)
      × (result ≡ p.check_extrinsics inherent_data block)

  from_slot :
      (p : Packages E) (block proof slot : ℕ) (r : Attempt E ℕ)
      → p.read_slot proof ≡ ok slot
      → p.create_inherent_data (p.from_relay_chain_slot_and_duration slot 6) ≡ r
      → (check_inherents p block proof ≡ panic)
        ⊎ ((result : ℕ) × (check_inherents p block proof ≡ ok result)
            × Checked p block proof result)
  unfolding check_inherents
  from_slot p block proof slot (ok inherent_data) read created = inr (
    p.check_extrinsics inherent_data block,
    rw (read, created) refl,
    (slot, inherent_data, read, created, refl),
  )
  from_slot p block proof slot (err e) read created = inl (rw (read, created) refl)
  from_slot p block proof slot panic read created = inl (rw (read, created) refl)

  from_read :
      (p : Packages E) (block proof : ℕ) (r : Attempt E ℕ)
      → p.read_slot proof ≡ r
      → (check_inherents p block proof ≡ panic)
        ⊎ ((result : ℕ) × (check_inherents p block proof ≡ ok result)
            × Checked p block proof result)
  unfolding check_inherents
  from_read p block proof (ok slot) read = from_slot p block proof slot _ read refl
  from_read p block proof (err e) read = inl (rw read refl)
  from_read p block proof panic read = inl (rw read refl)

  -- The check answers from the slot that the proof names, or it panics; it gives no error.
  pub check_inherents_lem :
      (p : Packages E) (block proof : ℕ)
      → (check_inherents p block proof ≡ panic)
        ⊎ ((result : ℕ) × (check_inherents p block proof ≡ ok result)
            × Checked p block proof result)
  check_inherents_lem p block proof = from_read p block proof _ refl
