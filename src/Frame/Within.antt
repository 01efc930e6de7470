-- ===== src/Frame/Within.antt =====
-- How an action may move the state, whether it returns, fails or panics: rules for a relation that
-- is reflexive and transitive.
use paraxiom.Errors.{DispatchError}
use paraxiom.Prelude.{Bool, Option, none, some, ◌≡◌, refl, inl, inr, arith}
use paraxiom.Frame.Base.{
  lift, gets, ensure, ok_or, expect, ensure_signed, Origin, pure, Outcome, Exec, transactional,
  ◌>>=◌, Outcome-cases,
}

pub record Within {S A : Type 0} (R : S → S → Type 0) (m : Exec S A) : Type 0 where
  pub moves : (s : S) → R s (m s).1

module _ {S : Type 0} (R : S → S → Type 0) (r : (s : S) → R s s) where
  pub Within-same : {A : Type 0} (m : Exec S A) → ((s : S) → (m s).1 ≡ s) → Within R m
  Within-same m same = record { moves = λ s. rw (same s) (r s) }

  pub Within-transactional : {A : Type 0} (m : Exec S A) → Within R m → Within R (transactional m)
  Within-transactional m w = record {
    moves = λ s. elim (Outcome-cases (m s).0) [
      | inl (a, e) ↦ rw (e, transactional) (w.moves s)
      | inr (inl (f, e)) ↦ rw (e, transactional) (r s)
      | inr (inr e) ↦ rw (e, transactional) (r s)
    ];
  }

module _ {S : Type 0} (R : S → S → Type 0) (t : (x y z : S) → R x y → R y z → R x z) where
  pub Within-bind :
      {A B : Type 0} (m : Exec S A) (f : A → Exec S B)
      → Within R m
      → ((a : A) → Within R (f a))
      → Within R (m >>= f)
  Within-bind m f w k = record {
    moves = λ s. elim (Outcome-cases (m s).0) [
      | inl (a, e) ↦ rw (e, ◌>>=◌) (t s (m s).1 (f a (m s).1).1 (w.moves s) ((k a).moves (m s).1))
      | inr (inl (g, e)) ↦ rw (e, ◌>>=◌) (w.moves s)
      | inr (inr e) ↦ rw (e, ◌>>=◌) (w.moves s)
    ];
  }

-- Actions that only read.
module _ {S : Type 0} (R : S → S → Type 0) (r : (s : S) → R s s) where
  pub Within-lift : {A : Type 0} (o : Outcome A) → Within R (lift o)
  Within-lift o = Within-same R r (lift o) (λ s. refl)

  pub Within-gets : {A : Type 0} (f : S → A) → Within R (gets f)
  Within-gets f = Within-same R r (gets f) (λ s. refl)

  pub Within-ensure : (b : Bool) (e : DispatchError) → Within R (ensure b e)
  Within-ensure b e = Within-same R r (ensure b e) (λ s. refl)

  pub Within-ok_or : {A : Type 0} (o : Option A) (e : DispatchError) → Within R (ok_or o e)
  Within-ok_or none e = Within-same R r (ok_or none e) (λ s. refl)
  Within-ok_or (some a) e = Within-same R r (ok_or (some a) e) (λ s. refl)

  pub Within-expect : {A : Type 0} (o : Option A) → Within R (expect o)
  Within-expect none = Within-same R r (expect none) (λ s. refl)
  Within-expect (some a) = Within-same R r (expect (some a)) (λ s. refl)

  pub Within-ensure_signed : (origin : Origin) → Within R (ensure_signed origin)
  Within-ensure_signed origin = Within-same R r (ensure_signed origin) (λ s. ground arith)

  pub Within-pure : {A : Type 0} (a : A) → Within R (pure a)
  Within-pure a = Within-same R r (pure a) (λ s. refl)
