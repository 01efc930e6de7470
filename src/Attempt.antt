-- ===== src/Attempt.antt =====
-- How functions end that run off the chain: Rust's `Result` with any error, or a panic.
use paraxiom.Prelude.{◌≡◌, refl}

pub data Attempt (E A : Type 0) : Type 0 where
  ok : A → Attempt E A
  err : E → Attempt E A
  panic : Attempt E A

-- `?`
abbrev pub and_then : {E A B : Type 0} → Attempt E A → (A → Attempt E B) → Attempt E B
and_then (ok a) f = f a
and_then (err e) f = err e
and_then panic f = panic

abbrev pub map_err : {E F A : Type 0} → (E → F) → Attempt E A → Attempt F A
map_err f (ok a) = ok a
map_err f (err e) = err (f e)
map_err f panic = panic

pub and_then_ok :
    {E A B : Type 0} (m : Attempt E A) (f : A → Attempt E B) (b : B)
    → and_then m f ≡ ok b
    → (a : A) × (m ≡ ok a) × (f a ≡ ok b)
and_then_ok (ok a) f b h = (a, refl, h)
and_then_ok (err e) f b h = cc
and_then_ok panic f b h = cc
