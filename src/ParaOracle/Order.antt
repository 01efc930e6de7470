-- ===== src/ParaOracle/Order.antt =====
-- The combined value does not depend on the order in which the raw values are read.
use paraxiom.Prelude.{
  ℕ, zero, suc, ◌+◌, ◌≡◌, refl, sym, ap, ◌∙◌, Bool, false, Option, none, some, List, [], ◌∷◌, map,
  arith, length, get_elem?, if◌then◌else◌, Bool-cases, inl, inr, ltb, ◌%◌, ◌/◌, ◌^◌,
}
use mathlib.Core.List.{Permᴰ}
use mathlib.Core.List.Permᴰ
use mathlib.Core.List.Permᴰ.{nil, cons, swap, trans}
use paraxiom.Prelude.Int.{ℤ, pos, negsuc, ltb_ℤ}
use paraxiom.ParaOracle.Combine.{
  TimestampedValue, retain, insert_sorted, sorted, select_nth, combine_fresh, combine_data,
}

unfoldable insert_value : ℤ → List ℤ → List ℤ
insert_value v [] = v ∷ []
insert_value v (w ∷ ws) = let rest = insert_value v ws in if ltb_ℤ w v then w ∷ rest else v ∷ w ∷ ws

abbrev value_of : TimestampedValue → ℤ
value_of x = x.value

ltb_ℤ-antisym : (a b : ℤ) → ltb_ℤ a b ≡ false → ltb_ℤ b a ≡ false → a ≡ b
ltb_ℤ-antisym (pos m) (pos n) h k = ap pos (ground arith)
ltb_ℤ-antisym (pos m) (negsuc n) h k = absurd (ground arith)
ltb_ℤ-antisym (negsuc m) (pos n) h k = absurd (ground arith)
ltb_ℤ-antisym (negsuc m) (negsuc n) h k = ap negsuc (ground arith)

insert_value_comm :
    (a b : ℤ) (ws : List ℤ)
    → insert_value a (insert_value b ws) ≡ insert_value b (insert_value a ws)
unfolding insert_value
insert_value_comm a b [] = ground (arith, ltb_ℤ-antisym a b)
insert_value_comm a b (w ∷ ws) = ground (arith, ltb_ℤ-antisym a b, insert_value_comm a b ws)

map-insert_sorted :
    (x : TimestampedValue) (ys : List TimestampedValue)
    → map value_of (insert_sorted x ys) ≡ insert_value x.value (map value_of ys)
unfolding insert_value insert_sorted
map-insert_sorted x [] = refl
map-insert_sorted x (y ∷ ys) = ground (arith, map-insert_sorted x ys)

values : List TimestampedValue → List ℤ
values xs = map value_of (sorted xs)

values-cons :
    (x : TimestampedValue) (xs : List TimestampedValue)
    → values (x ∷ xs) ≡ insert_value x.value (values xs)
unfolding values sorted
values-cons x xs = map-insert_sorted x (sorted xs)

-- Sorting forgets the order in which the values came.
values-permuted : (xs ys : List TimestampedValue) → Permᴰ xs ys → values xs ≡ values ys
values-permuted xs ys nil = refl
values-permuted xs ys (cons {a} {b} {l₁} {l₂} e p) =
    values-cons a l₁ ∙ cc (values-permuted l₁ l₂ p, e) ∙ sym (values-cons b l₂)
values-permuted xs ys (swap {a} {b} {a'} {b'} {l} e f) = cc (
  values-cons a (b ∷ l),
  values-cons b l,
  values-cons a' (b' ∷ l),
  values-cons b' l,
  insert_value_comm a.value b.value (values l),
)
values-permuted xs ys (trans {l₂ = zs} p q) = values-permuted xs zs p ∙ values-permuted zs ys q

abbrev is_fresh : ℕ → ℕ → TimestampedValue → Bool
is_fresh expires_in now x = ltb now ((x.timestamp + expires_in) % 2 ^ 128)

retain-permuted :
    (expires_in now : ℕ) (xs ys : List TimestampedValue)
    → Permᴰ xs ys
    → Permᴰ (retain expires_in now xs) (retain expires_in now ys)
unfolding retain
retain-permuted expires_in now xs ys nil = nil
retain-permuted expires_in now xs ys (cons {a} {b} {l₁} {l₂} e p) =
    let rest = retain-permuted expires_in now l₁ l₂ p in
    elim (Bool-cases (is_fresh expires_in now a)) [
      | inl yes_a ↦ rw (yes_a, ap (is_fresh expires_in now) (sym e) ∙ yes_a) (cons e rest)
      | inr no_a ↦ rw (no_a, ap (is_fresh expires_in now) (sym e) ∙ no_a) rest
    ]
retain-permuted expires_in now xs ys (swap {a} {b} {a'} {b'} {l} e f) =
    elim (Bool-cases (is_fresh expires_in now a)) [
      | inl yes_a ↦ elim (Bool-cases (is_fresh expires_in now b)) [
        | inl yes_b ↦
            rw
              (
                yes_a,
                yes_b,
                ap (is_fresh expires_in now) (sym e) ∙ yes_a,
                ap (is_fresh expires_in now) (sym f) ∙ yes_b,
              )
              (swap e f)
        | inr no_b ↦
            rw
              (
                yes_a,
                no_b,
                ap (is_fresh expires_in now) (sym e) ∙ yes_a,
                ap (is_fresh expires_in now) (sym f) ∙ no_b,
              )
              (cons e (Permᴰ.refl (retain expires_in now l)))
      ]
      | inr no_a ↦ elim (Bool-cases (is_fresh expires_in now b)) [
        | inl yes_b ↦
            rw
              (
                no_a,
                yes_b,
                ap (is_fresh expires_in now) (sym e) ∙ no_a,
                ap (is_fresh expires_in now) (sym f) ∙ yes_b,
              )
              (cons f (Permᴰ.refl (retain expires_in now l)))
        | inr no_b ↦
            rw
              (
                no_a,
                no_b,
                ap (is_fresh expires_in now) (sym e) ∙ no_a,
                ap (is_fresh expires_in now) (sym f) ∙ no_b,
              )
              (Permᴰ.refl (retain expires_in now l))
      ]
    ]
retain-permuted expires_in now xs ys (trans {l₂ = zs} p q) =
    trans (retain-permuted expires_in now xs zs p) (retain-permuted expires_in now zs ys q)

length-permuted : (xs ys : List TimestampedValue) → Permᴰ xs ys → length xs ≡ length ys
length-permuted xs ys nil = refl
length-permuted xs ys (cons {l₁ = l₁} {l₂ = l₂} e p) = ap suc (length-permuted l₁ l₂ p)
length-permuted xs ys (swap e f) = refl
length-permuted xs ys (trans {l₂ = zs} p q) = length-permuted xs zs p ∙ length-permuted zs ys q

abbrev pub option_value : Option TimestampedValue → Option ℤ
option_value none = none
option_value (some x) = some x.value

get_elem?-map :
    (xs : List TimestampedValue) (n : ℕ)
    → option_value (get_elem? xs n) ≡ get_elem? (map value_of xs) n
get_elem?-map [] n = refl
get_elem?-map (x ∷ xs) zero = refl
get_elem?-map (x ∷ xs) (suc n) = get_elem?-map xs n

select_nth-permuted :
    (xs ys : List TimestampedValue) (n : ℕ)
    → Permᴰ xs ys
    → option_value (select_nth xs n) ≡ option_value (select_nth ys n)
unfolding select_nth values
select_nth-permuted xs ys n p =
    get_elem?-map (sorted xs) n
    ∙ ap (λ ws. get_elem? ws n) (values-permuted xs ys p)
    ∙ sym (get_elem?-map (sorted ys) n)

-- The value that the pallet combines from the same raw values in another order is the same.
pub combine_data-permuted :
    (minimum_count expires_in now : ℕ) (xs ys : List TimestampedValue)
    (prev_value : Option TimestampedValue)
    → Permᴰ xs ys
    → option_value (combine_data minimum_count expires_in now xs prev_value)
      ≡ option_value (combine_data minimum_count expires_in now ys prev_value)
unfolding combine_data combine_fresh
combine_data-permuted minimum_count expires_in now xs ys prev_value p =
    let fresh = retain-permuted expires_in now xs ys p in
    ground (
      arith,
      length-permuted (retain expires_in now xs) (retain expires_in now ys) fresh,
      select_nth-permuted (retain expires_in now xs) (retain expires_in now ys)
          (length (retain expires_in now ys) % 2 ^ 32 / 2) fresh,
    )
