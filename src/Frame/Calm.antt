-- ===== src/Frame/Calm.antt =====
-- Actions that never panic where an invariant holds, and that keep it.
use paraxiom.Errors.{DispatchError}
use paraxiom.Prelude.{Bool, true, false, Option, none, some, ◌≡◌, refl, inl, inr, if◌then◌else◌}
use paraxiom.Frame.Base.{
  Exec, Origin, raise, pure, gets, ensure, ok_or, modify, map_err, transactional, ensure_signed,
  is_panic, ◌>>=◌, Outcome-cases,
}

pub record Calm {S A : Type 0} (I : S → Type 0) (m : Exec S A) : Type 0 where
  pub runs : (s : S) → I s → (is_panic (m s).0 ≡ false) × I (m s).1

module _ {S : Type 0} (I : S → Type 0) where
  pub Calm-bind :
      {A B : Type 0} (m : Exec S A) (f : A → Exec S B)
      → Calm I m
      → ((a : A) → Calm I (f a))
      → Calm I (m >>= f)
  Calm-bind m f c k = record {
    runs = λ s h.
        let (quiet, after) = c.runs s h in
        elim (Outcome-cases (m s).0) [
          | inl (a, e) ↦ rw (e, ◌>>=◌) ((k a).runs (m s).1 after)
          | inr (inl (g, e)) ↦ rw (e, ◌>>=◌) (refl, after)
          | inr (inr e) ↦ absurd (cc)
        ];
  }

  pub Calm-transactional : {A : Type 0} (m : Exec S A) → Calm I m → Calm I (transactional m)
  Calm-transactional m c = record {
    runs = λ s h.
        let (quiet, after) = c.runs s h in
        elim (Outcome-cases (m s).0) [
          | inl (a, e) ↦ rw (e, transactional) (refl, after)
          | inr (inl (g, e)) ↦ rw (e, transactional) (refl, h)
          | inr (inr e) ↦ absurd (cc)
        ];
  }

  pub Calm-map_err :
      {A : Type 0} (e : DispatchError) (m : Exec S A) → Calm I m → Calm I (map_err e m)
  Calm-map_err f m c = record {
    runs = λ s h.
        let (quiet, after) = c.runs s h in
        elim (Outcome-cases (m s).0) [
          | inl (a, e) ↦ rw (e, map_err) (refl, after)
          | inr (inl (g, e)) ↦ rw (e, map_err) (refl, after)
          | inr (inr e) ↦ absurd (cc)
        ];
  }

  -- Actions that only read, and do not panic.
  pub Calm-same :
      {A : Type 0} (m : Exec S A)
      → ((s : S) → (is_panic (m s).0 ≡ false) × ((m s).1 ≡ s))
      → Calm I m
  Calm-same m same = record { runs = λ s h. ((same s).0, rw (same s).1 h) }

  pub Calm-pure : {A : Type 0} (a : A) → Calm I (pure a)
  Calm-pure a = record { runs = λ s h. (refl, h) }

  pub Calm-gets : {A : Type 0} (f : S → A) → Calm I (gets f)
  Calm-gets f = record { runs = λ s h. (refl, h) }

  pub Calm-ensure : (b : Bool) (e : DispatchError) → Calm I (ensure b e)
  Calm-ensure true e = record { runs = λ s h. (refl, h) }
  Calm-ensure false e = record { runs = λ s h. (refl, h) }

  pub Calm-ok_or : {A : Type 0} (o : Option A) (e : DispatchError) → Calm I (ok_or o e)
  Calm-ok_or none e = record { runs = λ s h. (refl, h) }
  Calm-ok_or (some a) e = record { runs = λ s h. (refl, h) }

  pub Calm-modify : (f : S → S) → ((s : S) → I s → I (f s)) → Calm I (modify f)
  Calm-modify f keeps = record { runs = λ s h. (refl, keeps s h) }

  pub Calm-ensure_signed : (origin : Origin) → Calm I (ensure_signed origin)
  Calm-ensure_signed (Origin.signed who) = record { runs = λ s h. (refl, h) }
  Calm-ensure_signed origin = record { runs = λ s h. (refl, h) }

  pub Calm-raise : {A : Type 0} (e : DispatchError) → Calm I (raise {A = A} e)
  Calm-raise e = record { runs = λ s h. (refl, h) }

  pub Calm-if :
      {A : Type 0} (b : Bool) (m n : Exec S A) → Calm I m → Calm I n → Calm I (if b then m else n)
  Calm-if true m n c d = c
  Calm-if false m n c d = d
