-- ===== src/Frame/Base.antt =====
-- What FRAME gives every pallet: outcomes of calls, storage layers, origins.
use paraxiom.Prelude.{
  ℕ, ◌≡◌, refl, Bool, Option, none, some, List, ◌⊎◌, inl, inr, if◌then◌else◌, list_beq, true, false,
  ◌↔◌, list_beq_iff, nat_eq, list_eq, pair_eq, option_eq,
}
use paraxiom.Errors.{DispatchError, bad_origin}

abbrev pub Bytes : Type 0
Bytes = List ℕ

-- 32-byte names, ids and accounts are only compared.
abbrev pub H256 : Type 0
H256 = ℕ

abbrev pub AccountId : Type 0
AccountId = ℕ

-- A call returns, fails with an error that its caller can see, or panics.
pub data Outcome {ℓ} (A : Type ℓ) : Type ℓ where
  ok : A → Outcome A
  err : DispatchError → Outcome A
  panic : Outcome A

-- What was written before a failure stays written until a storage layer drops it.
abbrev pub Exec {ℓ} : Type ℓ → Type ℓ → Type ℓ
Exec S A = S → Outcome A × S

module _ {ℓ} {S A : Type ℓ} where
  abbrev pub pure : A → Exec S A
  pure a s = (ok a, s)

  abbrev pub raise : DispatchError → Exec S A
  raise e s = (err e, s)

  abbrev pub lift : Outcome A → Exec S A
  lift r s = (r, s)

  abbrev pub gets : (S → A) → Exec S A
  gets f s = (ok (f s), s)

  -- `ok_or(e)?`
  abbrev pub ok_or : Option A → DispatchError → Exec S A
  ok_or none e s = (err e, s)
  ok_or (some a) e s = (ok a, s)

  -- `.expect(..)` of an option or of a decoding result
  abbrev pub expect : Option A → Exec S A
  expect none s = (panic, s)
  expect (some a) s = (ok a, s)

  -- `map_err(|_| e)`; a panic is not an error and passes through
  abbrev pub map_err : DispatchError → Exec S A → Exec S A
  map_err e m s =
      let (r, s') = m s in elim r [ ok a ↦ (ok a, s') | err _ ↦ (err e, s') | panic ↦ (panic, s') ]

  -- `#[transactional]`: what a failed call has written is dropped. A panic aborts the whole call.
  abbrev pub transactional : Exec S A → Exec S A
  transactional m s =
      let (r, s') = m s in elim r [ ok a ↦ (ok a, s') | err e ↦ (err e, s) | panic ↦ (panic, s) ]

infixl 5 ◌>>=◌ ◌>>◌
abbrev pub ◌>>=◌ {ℓ} : {S A B : Type ℓ} → Exec S A → (A → Exec S B) → Exec S B
◌>>=◌ m f s =
    let (r, s') = m s in elim r [ ok a ↦ f a s' | err e ↦ (err e, s') | panic ↦ (panic, s') ]

abbrev pub ◌>>◌ {ℓ} : {S A B : Type ℓ} → Exec S A → Exec S B → Exec S B
m >> k = m >>= λ _. k

module _ {S : Type 0} where
  -- `ensure!(b, e)`
  abbrev pub ensure : Bool → DispatchError → Exec S Unit
  ensure b e s = (if b then ok tt else err e, s)

  abbrev pub modify : (S → S) → Exec S Unit
  modify f s = (ok tt, f s)

-- Who sent a call; `sibling` is another parachain, by XCM.
pub data Origin : Type 0 where
  root unsigned : Origin
  signed : AccountId → Origin
  sibling : ℕ → Origin

-- `ensure_signed`
abbrev pub ensure_signed : {S : Type 0} → Origin → Exec S AccountId
ensure_signed (signed who) s = (ok who, s)
ensure_signed _ s = (err bad_origin, s)

-- `EnsureRoot`
abbrev pub ensure_root : {S : Type 0} → Origin → Exec S Unit
ensure_root root s = (ok tt, s)
ensure_root _ s = (err bad_origin, s)

-- `ensure_sibling_para`
abbrev pub ensure_sibling_para : {S : Type 0} → Origin → Exec S ℕ
ensure_sibling_para (sibling para_id) s = (ok para_id, s)
ensure_sibling_para _ s = (err bad_origin, s)

abbrev pub is_panic {ℓ} : {A : Type ℓ} → Outcome A → Bool
is_panic panic = true
is_panic _ = false

pub Outcome-cases {ℓ} :
    {A : Type ℓ} (r : Outcome A)
    → ((a : A) × (r ≡ ok a)) ⊎ ((e : DispatchError) × (r ≡ err e)) ⊎ (r ≡ panic)
Outcome-cases (ok a) = inl (a, refl)
Outcome-cases (err e) = inr (inl (e, refl))
Outcome-cases panic = inr (inr refl)

-- The test on byte strings decides their equality.
pub bytes_beq_iff : (a b : Bytes) → (list_beq a b ≡ true) ↔ (a ≡ b)
bytes_beq_iff a b = list_beq_iff a b

pub bytes_beq_refl : (a : Bytes) → list_beq a a ≡ true
bytes_beq_refl a = (bytes_beq_iff a a).1 refl
