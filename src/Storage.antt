-- ===== src/Storage.antt =====
-- FRAME's storage maps. The representation is private: the other modules have `storage_laws`. A
-- double map is keyed by a pair. `iter` lists the entries, in an order that stands for that of the
-- hashed keys.
use paraxiom.Prelude.{
  ◌≡◌, refl, Bool, true, false, Option, none, some, List, [], ◌∷◌, ◌++◌, inl, inr, Bool-cases,
  arith, Eq, ◌==◌, if◌then◌else◌, ◌≢◌, All, ◌∙◌, ◌⊎◌,
}

pub record StorageMap {ℓ κ} (K : Type ℓ) (V : Type κ) : Type (ℓ ⊔ κ) where
  entries : List (K × V)

abbrev is_some {ℓ} : {A : Type ℓ} → Option A → Bool
is_some none = false
is_some (some _) = true

module _ {ℓ κ} {K : Type ℓ} {V : Type κ} where
  pub empty : StorageMap K V
  empty = record { entries = [] }

module _ {ℓ κ} {K : Type ℓ} {V : Type κ} ⦃e : Eq K⦄ where
  find : K → List (K × V) → Option V
  find k [] = none
  find k ((j, v) ∷ l) = if j == k then some v else find k l

  without : List (K × V) → K → List (K × V)
  without [] k = []
  without ((other, v) ∷ entries) k =
      let kept = without entries k in if other == k then kept else (other, v) ∷ kept

  pub get : StorageMap K V → K → Option V
  unfolding find
  get m k = find k m.entries

  pub contains_key : StorageMap K V → K → Bool
  unfolding get
  contains_key m k = is_some (get m k)

  pub remove : StorageMap K V → K → StorageMap K V
  unfolding without
  remove m k = record { entries = without m.entries k }

  pub insert : StorageMap K V → K → V → StorageMap K V
  unfolding without
  insert m k v = record { entries = (k, v) ∷ without m.entries k }

  find-without :
      (k j : K) (l : List (K × V)) → find j (without l k) ≡ (if k == j then none else find j l)
  unfolding find without
  find-without k j [] = ground arith
  find-without k j ((i, v) ∷ l) =
      ground (arith, find-without k j l, e.beq_iff i k, e.beq_iff i j, e.beq_iff k j)

  pub get-remove :
      (m : StorageMap K V) (k j : K) → get (remove m k) j ≡ (if k == j then none else get m j)
  unfolding get remove
  get-remove m k j = find-without k j m.entries

  pub get-insert :
      (m : StorageMap K V) (k j : K) (v : V)
      → get (insert m k v) j ≡ (if k == j then some v else get m j)
  unfolding get insert
  get-insert m k j v = rw (find-without k j m.entries) (ground arith)

  -- What is found after a write has been written, or was there before.
  pub found-insert :
      (m : StorageMap K V) (k j : K) (v w : V)
      → get (insert m k v) j ≡ some w
      → ((k ≡ j) × (v ≡ w)) ⊎ (get m j ≡ some w)
  found-insert m k j v w h = elim (Bool-cases (k == j)) [
    | inl same ↦ inl ((e.beq_iff k j).0 same, ground (arith, get-insert m k j v))
    | inr other ↦ inr (ground (arith, get-insert m k j v))
  ]

  pub get-empty : (k : K) → get (empty {V = V}) k ≡ none
  unfolding get empty
  get-empty k = refl

  pub contains_key_lem : (m : StorageMap K V) (k : K) → contains_key m k ≡ is_some (get m k)
  unfolding contains_key
  contains_key_lem m k = refl

-- The list of the entries, each key once.
module _ {ℓ κ} {K : Type ℓ} {V : Type κ} ⦃e : Eq K⦄ where
  unique : List (K × V) → List (K × V)
  unfolding without
  unique [] = []
  unique ((k, v) ∷ l) = (k, v) ∷ without (unique l) k

  pub iter : StorageMap K V → List (K × V)
  unfolding unique
  iter m = unique m.entries

  find-unique : (k : K) (l : List (K × V)) → find k (unique l) ≡ find k l
  unfolding find unique
  find-unique k [] = refl
  find-unique k ((j, v) ∷ l) = ground (arith, find-without j k (unique l), find-unique k l)

  All-without {μ} :
      (P Q : K × V → Type μ) (k : K) (l : List (K × V))
      → ((x : K × V) → (x.0 == k) ≡ false → P x → Q x)
      → All P l
      → All Q (without l k)
  unfolding without
  All-without P Q k [] h hs = tt
  All-without P Q k ((j, v) ∷ l) h hs = elim (Bool-cases (j == k)) [
    | inl same ↦ rw same (All-without P Q k l h hs.1)
    | inr other ↦ rw other (h (j, v) other hs.0, All-without P Q k l h hs.1)
  ]

  unique-found : (l : List (K × V)) → All (λ x. find x.0 l ≡ some x.1) (unique l)
  unfolding find unique
  unique-found [] = tt
  unique-found ((k, v) ∷ l) = (
    ground (arith, e.beq_iff k k),
    All-without (λ x. find x.0 l ≡ some x.1) (λ x. find x.0 ((k, v) ∷ l) ≡ some x.1) k (unique l)
        (λ x other held. ground (arith, e.beq_iff k x.0, e.beq_iff x.0 k)) (unique-found l),
  )

  -- Every entry of the list is what `get` finds.
  pub iter-get : (m : StorageMap K V) → All (λ x. get m x.0 ≡ some x.1) (iter m)
  unfolding get iter
  iter-get m = unique-found m.entries

-- The list of the entries has every value that `get` finds.
module _ {ℓ κ} {K : Type ℓ} {V : Type κ} ⦃e : Eq K⦄ where
  find-split :
      (l : List (K × V)) (k : K) (v : V)
      → find k l ≡ some v
      → (before : List (K × V)) × (behind : List (K × V)) × (l ≡ before ++ (k, v) ∷ behind)
  unfolding find
  find-split [] k v h = cc
  find-split ((j, w) ∷ l) k v h = elim (Bool-cases (j == k)) [
    | inl same ↦
        let is : j ≡ k = (e.beq_iff j k).0 same in let value : w ≡ v = ground arith in ([], l, cc)
    | inr other ↦
        let (before, behind, split) = find-split l k v (ground arith) in
        ((j, w) ∷ before, behind, cc)
  ]

  pub iter-split :
      (m : StorageMap K V) (k : K) (v : V)
      → get m k ≡ some v
      → (before : List (K × V)) × (behind : List (K × V)) × (iter m ≡ before ++ (k, v) ∷ behind)
  unfolding get iter
  iter-split m k v h = find-split (unique m.entries) k v (find-unique k m.entries ∙ h)

  without-absent : (l : List (K × V)) (k : K) → find k l ≡ none → without l k ≡ l
  unfolding find without
  without-absent [] k h = refl
  without-absent ((j, w) ∷ l) k h = ground (arith, without-absent l k)

  pub iter-insert :
      (m : StorageMap K V) (k : K) (v : V) → get m k ≡ none → iter (insert m k v) ≡ (k, v) ∷ iter m
  unfolding get insert iter unique
  iter-insert m k v h =
      rw
        (
          without-absent m.entries k h,
          without-absent (unique m.entries) k (find-unique k m.entries ∙ h),
        )
        refl

  pub iter-empty : iter (empty {K = K} {V = V}) ≡ []
  unfolding iter empty unique
  iter-empty = refl

-- Some key that the map holds, if it holds any.
module _ {ℓ κ} {K : Type ℓ} {V : Type κ} ⦃e : Eq K⦄ where
  some_entry : List (K × V) → Option K
  some_entry [] = none
  some_entry ((k, v) ∷ l) = some k

  pub some_key : StorageMap K V → Option K
  unfolding some_entry
  some_key m = some_entry m.entries

  none_of_some_entry : (l : List (K × V)) (k : K) → some_entry l ≡ none → find k l ≡ none
  unfolding some_entry find
  none_of_some_entry [] k h = refl
  none_of_some_entry ((j, v) ∷ l) k h = cc

  held_of_some_entry : (l : List (K × V)) (k : K) → some_entry l ≡ some k → find k l ≢ none
  unfolding some_entry find
  held_of_some_entry [] k h = cc
  held_of_some_entry ((j, v) ∷ l) k h = ground (arith, e.beq_iff j k)

  pub no_key_lem : (m : StorageMap K V) (k : K) → some_key m ≡ none → get m k ≡ none
  unfolding some_key get
  no_key_lem m k h = none_of_some_entry m.entries k h

  pub key_held_lem : (m : StorageMap K V) (k : K) → some_key m ≡ some k → get m k ≢ none
  unfolding some_key get
  key_held_lem m k h = held_of_some_entry m.entries k h

  pub some_key-insert : (m : StorageMap K V) (k : K) (v : V) → some_key (insert m k v) ≡ some k
  unfolding some_key some_entry insert
  some_key-insert m k v = refl

pub ruleset storage_laws = (get-empty, get-remove, get-insert)
