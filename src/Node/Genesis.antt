-- ===== src/Node/Genesis.antt =====
-- The genesis of the two specifications: its collators have their keys and can pay their bond.
use paraxiom.Prelude.{
  ℕ, ◌+◌, ◌*◌, ◌^◌, ◌<◌, ◌≤◌, ◌≡◌, refl, Bool, true, ◌&&◌, ◌||◌, Option, some, String, List, [],
  ◌∷◌, map, All, arith, leb, nat_beq, nat_beq_iff, ◌<>◌, length, false,
}
use paraxiom.Frame.{Bytes, AccountId}
use paraxiom.Runtime.Constants.{existential_deposit}
use paraxiom.Node.ChainSpec.{
  Packages, Scheme, sr25519, aura, GenesisConfig, SessionKeys, all_of, collator, collator_seeds,
  endowed_seeds, get_account_id_from_seed, testnet_genesis, seeded_genesis, development_config,
  local_testnet_config, initial_balance,
}

-- An account holds at least an amount.
unfoldable pub holds : List (AccountId × ℕ) → AccountId → ℕ → Bool
holds [] a n = false
holds ((b, m) ∷ balances) a n = (nat_beq b a && leb n m) || holds balances a n

unfoldable pub total : List (AccountId × ℕ) → ℕ
total [] = 0
total ((b, m) ∷ balances) = m + total balances

-- The accounts that session keys are for, once as the account and once as the validator.
abbrev pub owners : List (AccountId × AccountId × SessionKeys) → List (AccountId × AccountId)
owners = map (λ (a, v, k). (a, v))

-- Can run as a collator: has keys of its own, and the bond on top of the existential deposit.
pub record Ready (g : GenesisConfig) : Type 0 where
  pub keyed : owners g.keys ≡ map (λ a. (a, a)) g.invulnerables
  pub bonded :
      All (λ a. holds g.balances a (g.candidacy_bond + existential_deposit) ≡ true) g.invulnerables

holds-first :
    (a : AccountId) (m n : ℕ) (rest : List (AccountId × ℕ))
    → n ≤ m
    → holds ((a, m) ∷ rest) a n ≡ true
unfolding holds
holds-first a m n rest h = ground (arith, nat_beq_iff a a)

holds-rest :
    (a b : AccountId) (m n : ℕ) (rest : List (AccountId × ℕ))
    → holds rest a n ≡ true
    → holds ((b, m) ∷ rest) a n ≡ true
unfolding holds
holds-rest a b m n rest h = ground arith

all_of-some :
    {A : Type 0} (f : String → Option A) (g : String → A) (seeds : List String)
    → All (λ seed. f seed ≡ some (g seed)) seeds
    → all_of f seeds ≡ some (map g seeds)
all_of-some f g [] h = refl
all_of-some f g (seed ∷ seeds) h = rw (h.0, all_of-some f g seeds h.1) refl

total-endowed :
    (accounts : List AccountId)
    → total (map (λ k. (k, initial_balance)) accounts) ≡ length accounts * initial_balance
unfolding total
total-endowed [] = omega arith
total-endowed (a ∷ accounts) = omega (arith, total-endowed accounts)

-- The packages read the seeds of the specifications: `key` is their public key.
abbrev pub Reads : Packages → (Scheme → String → ℕ) → Scheme → String → Type 0
Reads p key scheme seed = p.from_string scheme ("//" <> seed) ≡ some (key scheme seed)

module _ (p : Packages) (code : Bytes) (key : Scheme → String → ℕ) where
  abbrev account : String → AccountId
  account seed = p.into_account (key sr25519 seed)

  abbrev pair : String → AccountId × ℕ
  pair seed = (account seed, key aura seed)

  seeded_genesis-testnet_genesis :
      All (Reads p key sr25519) endowed_seeds
      → All (Reads p key aura) collator_seeds
      → seeded_genesis p
        ≡ testnet_genesis p (map pair collator_seeds) (map account endowed_seeds) 1000
  unfolding seeded_genesis
  seeded_genesis-testnet_genesis accounts keys =
      rw
        (
          all_of-some (collator p) pair collator_seeds (
            collator-some "Alice" accounts.0 keys.0,
            (collator-some "Bob" accounts.1.0 keys.1.0, tt),
          ),
          all_of-some (get_account_id_from_seed p) account endowed_seeds
              (account-some endowed_seeds accounts),
        )
        refl
    where
      collator-some :
          (seed : String)
          → Reads p key sr25519 seed
          → Reads p key aura seed
          → collator p seed ≡ some (pair seed)
      collator-some seed a k = rw (a, k) refl

      account-some :
          (seeds : List String)
          → All (Reads p key sr25519) seeds
          → All (λ seed. get_account_id_from_seed p seed ≡ some (account seed)) seeds
      account-some [] h = tt
      account-some (seed ∷ seeds) h = (rw h.0 refl, account-some seeds h.1)

  -- If the runtime's code was built and the packages read the seeds, both specifications have the
  -- same genesis, which runs that code. Each of its invulnerables has session keys, as the account
  -- and as the validator, and holds its candidacy bond on top of the existential deposit; and all
  -- balances together fit a `u128`.
  pub development_config-Ready :
      p.wasm_binary ≡ some code
      → All (Reads p key sr25519) endowed_seeds
      → All (Reads p key aura) collator_seeds
      → (g : GenesisConfig) × ((development_config p).genesis ≡ some g)
        × ((local_testnet_config p).genesis ≡ some g)
        × (g.code ≡ code)
        × Ready g
        × (total g.balances < 2 ^ 128)
  unfolding development_config local_testnet_config testnet_genesis
  development_config-Ready built accounts keys =
      let e = seeded_genesis-testnet_genesis accounts keys in
      rw (e, built)
        (
          _,
          refl,
          refl,
          refl,
          record {
            keyed = refl;
            bonded = (
              holds-first _ _ _ _ (omega arith),
              (holds-rest _ _ _ _ _ (holds-first _ _ _ _ (omega arith)), tt),
            );
          },
          omega (arith, total-endowed (map account endowed_seeds)),
        )
