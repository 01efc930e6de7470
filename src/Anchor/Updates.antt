-- ===== src/Anchor/Updates.antt =====
-- The loops of `rollup` over `tx.conds` and `tx.updates`, against their plain meaning.
use paraxiom.Prelude.{
  ◌≡◌, refl, true, some, none, Option, List, [], ◌∷◌, arith, if◌then◌else◌, nat_beq, list_beq, ◌==◌,
  All, option_eq, list_eq, nat_eq, pair_eq, ◌↔◌, Bool-cases, inl, inr, ◌++◌,
}
use paraxiom.Frame.{Bytes, H256, ok, err}
use paraxiom.Errors.{anchor, cond_not_met}
use paraxiom.Storage.{get, get-insert, get-remove}
use paraxiom.Anchor.State.{Anchor, Cond, eq}
use paraxiom.Anchor.Rollup.{check_conds, apply_updates, update}

-- A condition holds in the store of a name.
abbrev pub Meets : Anchor → H256 → Cond → Type 0
Meets s name (eq key opt_value) = get s.states (name, key) ≡ opt_value

option_bytes_beq_iff : (a b : Option Bytes) → ((a == b) ≡ true) ↔ (a ≡ b)
option_bytes_beq_iff a b = option_eq.beq_iff a b

-- All conditions hold, and the loop passes.
pub check_conds-met :
    (s : Anchor) (name : H256) (conds : List Cond)
    → All (Meets s name) conds
    → check_conds name conds s ≡ (ok tt, s)
unfolding check_conds
check_conds-met s name [] h = refl
check_conds-met s name (eq key v ∷ conds) h =
    ground
      (arith, option_bytes_beq_iff (get s.states (name, key)) v, check_conds-met s name conds h.1)

-- One condition fails, and so does the loop, with the store as it was.
pub check_conds-unmet :
    (s : Anchor) (name : H256) (conds : List Cond)
    → ¬ All (Meets s name) conds
    → check_conds name conds s ≡ (err (anchor cond_not_met), s)
unfolding check_conds
check_conds-unmet s name [] h = absurd (h tt)
check_conds-unmet s name (eq key v ∷ conds) h = elim (Bool-cases (get s.states (name, key) == v)) [
  | inl same ↦ ground (
    arith,
    check_conds-unmet s name conds
        (λ rest. h ((option_bytes_beq_iff (get s.states (name, key)) v).0 same, rest)),
  )
  | inr differs ↦ ground arith
]

-- The last update of a key in a list of updates.
unfoldable pub last_update : Bytes → List (Bytes × Option Bytes) → Option (Option Bytes)
last_update key [] = none
last_update key ((k, v) ∷ updates) = elim (last_update key updates) [
  | some w ↦ some w
  | none ↦ if list_beq k key then some v else none
]

abbrev pub or_else : Option (Option Bytes) → Option Bytes → Option Bytes
or_else none old = old
or_else (some v) old = v

-- The loop writes to each key of the name what the last update of that key says, and leaves all
-- other keys and names alone.
pub get-apply_updates :
    (name other : H256) (key : Bytes) (updates : List (Bytes × Option Bytes)) (s : Anchor)
    → get (apply_updates name updates s).states (other, key) ≡ (
        if nat_beq name other
        then or_else (last_update key updates) (get s.states (other, key))
        else get s.states (other, key))
unfolding apply_updates last_update
get-apply_updates name other key [] s = ground arith
get-apply_updates name other key ((k, some v) ∷ updates) s = ground (
  arith,
  get-apply_updates name other key updates (update name (k, some v) s),
  get-insert s.states (name, k) (other, key) v,
)
get-apply_updates name other key ((k, none) ∷ updates) s = ground (
  arith,
  get-apply_updates name other key updates (update name (k, none) s),
  get-remove s.states (name, k) (other, key),
)

pub submitter_by_names-apply_updates :
    (name : H256) (updates : List (Bytes × Option Bytes)) (s : Anchor)
    → (apply_updates name updates s).submitter_by_names ≡ s.submitter_by_names
unfolding apply_updates
submitter_by_names-apply_updates name [] s = refl
submitter_by_names-apply_updates name ((k, some v) ∷ updates) s =
    submitter_by_names-apply_updates name updates (update name (k, some v) s)
submitter_by_names-apply_updates name ((k, none) ∷ updates) s =
    submitter_by_names-apply_updates name updates (update name (k, none) s)

-- Whether all conditions hold is decided by their tests.
pub dec_Meets : (s : Anchor) (name : H256) (conds : List Cond) → Dec (All (Meets s name) conds)
dec_Meets s name [] = yes tt
dec_Meets s name (eq key v ∷ conds) =
    let test = option_bytes_beq_iff (get s.states (name, key)) v in
    elim (Bool-cases (get s.states (name, key) == v)) [
      | inl same ↦ elim (dec_Meets s name conds) [
        | yes rest ↦ yes (test.0 same, rest)
        | no fails ↦ no (λ h. fails h.1)
      ]
      | inr differs ↦ no (λ h. cc (test.1 h.0))
    ]

pub All-append_right {ℓ} : (P : Cond → Type ℓ) (xs ys : List Cond) → All P (xs ++ ys) → All P ys
All-append_right P [] ys h = h
All-append_right P (x ∷ xs) ys h = All-append_right P xs ys h.1

-- The loop over the conditions only reads.
pub check_conds_same :
    (s : Anchor) (name : H256) (conds : List Cond) → (check_conds name conds s).1 ≡ s
check_conds_same s name conds = elim (dec_Meets s name conds) [
  | yes met ↦ rw (check_conds-met s name conds met) refl
  | no unmet ↦ rw (check_conds-unmet s name conds unmet) refl
]
