-- ===== src/ParaOracle/Median.antt =====
-- What the combined value is, in terms of how many of the values lie below and above it.
use paraxiom.Prelude.{
  ℕ, zero, suc, ◌+◌, ◌*◌, ◌/◌, ◌≤◌, ◌<◌, ◌≡◌, refl, Bool, true, ◌||◌, Option, some, List, [], ◌∷◌,
  arith, length, get_elem?, All, if◌then◌else◌, Bool-cases, inl, inr, ◌^◌,
}
use mathlib.Core.Path.{subst}
use paraxiom.Prelude.Int.{ℤ, ltb_ℤ, ◌≤ℤ◌}
use paraxiom.ParaOracle.Combine.{
  TimestampedValue, retain, insert_sorted, sorted, select_nth, combine_fresh, combine_data,
}

-- How many of the values pass a test.
unfoldable pub count : (TimestampedValue → Bool) → List TimestampedValue → ℕ
count p [] = 0
count p (x ∷ xs) = let n = count p xs in if p x then suc n else n

abbrev pub below : ℤ → TimestampedValue → Bool
below v x = ltb_ℤ x.value v

abbrev pub above : ℤ → TimestampedValue → Bool
above v x = ltb_ℤ v x.value

abbrev pub outside : ℤ → ℤ → TimestampedValue → Bool
outside lo hi x = below lo x || above hi x

abbrev IsSorted : List TimestampedValue → Type 0
IsSorted [] = Unit
IsSorted (x ∷ xs) = All (λ y. x.value ≤ℤ y.value) xs × IsSorted xs

All-insert_sorted :
    (a : ℤ) (x : TimestampedValue) (ys : List TimestampedValue)
    → a ≤ℤ x.value
    → All (λ y. a ≤ℤ y.value) ys
    → All (λ y. a ≤ℤ y.value) (insert_sorted x ys)
unfolding insert_sorted
All-insert_sorted a x [] h hs = (h, tt)
All-insert_sorted a x (y ∷ ys) h hs = elim (Bool-cases (ltb_ℤ y.value x.value)) [
  | inl e ↦ rw e (hs.0, All-insert_sorted a x ys h hs.1)
  | inr e ↦ rw e (h, hs)
]

All-weaken :
    (a b : ℤ) (ys : List TimestampedValue)
    → a ≤ℤ b
    → All (λ y. b ≤ℤ y.value) ys
    → All (λ y. a ≤ℤ y.value) ys
All-weaken a b [] h hs = tt
All-weaken a b (y ∷ ys) h hs = (omega (arith, h, hs.0), All-weaken a b ys h hs.1)

insert_sorted-IsSorted :
    (x : TimestampedValue) (ys : List TimestampedValue)
    → IsSorted ys
    → IsSorted (insert_sorted x ys)
unfolding insert_sorted
insert_sorted-IsSorted x [] h = (tt, tt)
insert_sorted-IsSorted x (y ∷ ys) h = elim (Bool-cases (ltb_ℤ y.value x.value)) [
  | inl e ↦
      rw e (All-insert_sorted y.value x ys (ground arith) h.0, insert_sorted-IsSorted x ys h.1)
  | inr e ↦
      let le : x.value ≤ℤ y.value = ground arith in
      rw e ((le, All-weaken x.value y.value ys le h.0), h)
]

sorted-IsSorted : (xs : List TimestampedValue) → IsSorted (sorted xs)
unfolding sorted
sorted-IsSorted [] = tt
sorted-IsSorted (x ∷ xs) = insert_sorted-IsSorted x (sorted xs) (sorted-IsSorted xs)

count-insert_sorted :
    (p : TimestampedValue → Bool) (x : TimestampedValue) (ys : List TimestampedValue)
    → count p (insert_sorted x ys) ≡ count p (x ∷ ys)
unfolding count insert_sorted
count-insert_sorted p x [] = refl
count-insert_sorted p x (y ∷ ys) = ground (arith, count-insert_sorted p x ys)

count-sorted :
    (p : TimestampedValue → Bool) (xs : List TimestampedValue) → count p (sorted xs) ≡ count p xs
unfolding count sorted
count-sorted p [] = refl
count-sorted p (x ∷ xs) = ground (arith, count-insert_sorted p x (sorted xs), count-sorted p xs)

length-insert_sorted :
    (x : TimestampedValue) (ys : List TimestampedValue)
    → length (insert_sorted x ys) ≡ suc (length ys)
unfolding insert_sorted
length-insert_sorted x [] = refl
length-insert_sorted x (y ∷ ys) = ground (arith, length-insert_sorted x ys)

length-sorted : (xs : List TimestampedValue) → length (sorted xs) ≡ length xs
unfolding sorted
length-sorted [] = refl
length-sorted (x ∷ xs) = omega (arith, length-insert_sorted x (sorted xs), length-sorted xs)

-- In a sorted list the values up to a small one are small.
below-nth :
    (lo : ℤ) (ys : List TimestampedValue) (n : ℕ) (v : TimestampedValue)
    → IsSorted ys
    → get_elem? ys n ≡ some v
    → ltb_ℤ v.value lo ≡ true
    → suc n ≤ count (below lo) ys
unfolding count
below-nth lo [] n v h e small = cc
below-nth lo (y ∷ ys) zero v h e small = ground arith
below-nth lo (y ∷ ys) (suc n) v h e small =
    let le = All-nth (λ x. y.value ≤ℤ x.value) ys n v h.0 e in
    ground (arith, below-nth lo ys n v h.1 e small)
  where
    All-nth :
        (P : TimestampedValue → Type 0) (ys : List TimestampedValue) (n : ℕ) (v : TimestampedValue)
        → All P ys
        → get_elem? ys n ≡ some v
        → P v
    All-nth P [] n v h e = cc
    All-nth P (y ∷ ys) zero v h e = let same : y ≡ v = cc in subst P same h.0
    All-nth P (y ∷ ys) (suc n) v h e = All-nth P ys n v h.1 e

count-All :
    (hi : ℤ) (ys : List TimestampedValue) (v : ℤ)
    → ltb_ℤ hi v ≡ true
    → All (λ y. v ≤ℤ y.value) ys
    → count (above hi) ys ≡ length ys
unfolding count
count-All hi [] v large h = refl
count-All hi (y ∷ ys) v large h = ground (arith, count-All hi ys v large h.1, h.0)

-- The values from a large one on are large.
above-nth :
    (hi : ℤ) (ys : List TimestampedValue) (n : ℕ) (v : TimestampedValue)
    → IsSorted ys
    → get_elem? ys n ≡ some v
    → ltb_ℤ hi v.value ≡ true
    → length ys ≤ n + count (above hi) ys
unfolding count
above-nth hi [] n v h e large = cc
above-nth hi (y ∷ ys) zero v h e large =
    let same : y.value ≡ v.value = cc in ground (arith, count-All hi ys y.value, h.0)
above-nth hi (y ∷ ys) (suc n) v h e large = ground (arith, above-nth hi ys n v h.1 e large)

count-le :
    (p q : TimestampedValue → Bool) (xs : List TimestampedValue)
    → ((x : TimestampedValue) → p x ≡ true → q x ≡ true)
    → count p xs ≤ count q xs
unfolding count
count-le p q [] h = omega arith
count-le p q (x ∷ xs) h = ground (arith, h x, count-le p q xs h)

get_elem?-some :
    (ys : List TimestampedValue) (n : ℕ)
    → n < length ys
    → (v : TimestampedValue) × (get_elem? ys n ≡ some v)
get_elem?-some [] n h = absurd (omega arith)
get_elem?-some (y ∷ ys) zero h = (y, refl)
get_elem?-some (y ∷ ys) (suc n) h = get_elem?-some ys n (omega arith)

select_nth-between :
    (lo hi : ℤ) (fresh : List TimestampedValue) (v : TimestampedValue)
    → 2 * count (outside lo hi) fresh < length fresh
    → select_nth fresh (length fresh / 2) ≡ some v
    → (lo ≤ℤ v.value) × (v.value ≤ℤ hi)
unfolding select_nth
select_nth-between lo hi fresh v few e =
    let ys = sorted fresh in
    let n = length fresh / 2 in
    let is = sorted-IsSorted fresh in
    let low = count-le (below lo) (outside lo hi) fresh (λ x h. ground arith) in
    let high = count-le (above hi) (outside lo hi) fresh (λ x h. ground arith) in
    (
      elim (Bool-cases (ltb_ℤ v.value lo)) [
        | inl small ↦
            absurd (
              omega
                (arith, below-nth lo ys n v is e small, count-sorted (below lo) fresh, low, few))
        | inr fine ↦ ground arith
      ],
      elim (Bool-cases (ltb_ℤ hi v.value)) [
        | inl large ↦ absurd (
            omega (
              arith,
              above-nth hi ys n v is e large,
              count-sorted (above hi) fresh,
              high,
              few,
              length-sorted fresh,
            ))
        | inr fine ↦ ground arith
      ],
    )

-- If there are enough fresh values (and fewer than 2 ^ 32) and fewer than half of them lie outside
-- of a range, there is a combined value and it lies in the range, whatever the others are and
-- whatever was stored before.
pub combine_data-between :
    (minimum_count expires_in now : ℕ) (values : List TimestampedValue)
    (prev_value : Option TimestampedValue) (lo hi : ℤ)
    → minimum_count ≤ length (retain expires_in now values)
    → length (retain expires_in now values) < 2 ^ 32
    → 2 * count (outside lo hi) (retain expires_in now values)
      < length (retain expires_in now values)
    → (v : TimestampedValue) × (combine_data minimum_count expires_in now values prev_value
        ≡ some v)
      × (lo ≤ℤ v.value)
      × (v.value ≤ℤ hi)
unfolding combine_data combine_fresh select_nth
combine_data-between minimum_count expires_in now values prev_value lo hi enough range few =
    let fresh = retain expires_in now values in
    let (v, e) =
      get_elem?-some (sorted fresh) (length fresh / 2) (omega (arith, length-sorted fresh)) in
    let inside = select_nth-between lo hi fresh v few e in (v, ground arith, inside.0, inside.1)

-- Fewer fresh values than the minimum (and than 2 ^ 32) leave the combined value as it was.
pub combine_data-few :
    (minimum_count expires_in now : ℕ) (values : List TimestampedValue)
    (prev_value : Option TimestampedValue)
    → length (retain expires_in now values) < minimum_count
    → length (retain expires_in now values) < 2 ^ 32
    → combine_data minimum_count expires_in now values prev_value ≡ prev_value
unfolding combine_data combine_fresh
combine_data-few minimum_count expires_in now values prev_value few range = ground arith
