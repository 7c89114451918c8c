-- ===== src/Base/Results.antt =====
-- What a call that may panic comes to, and Rust's `Result`.
use mathlib.Core.Path.{◌≡◌, refl, subst}
use mathlib.Core.Logic.{◌⊎◌, inl, inr}

-- `panic` is an `unwrap` of an error or of `None`.
pub data Outcome {ℓ} (A : Type ℓ) : Type ℓ where
  done : A → Outcome A
  panic : Outcome A

pub data Result {ℓ κ} (A : Type ℓ) (E : Type κ) : Type (ℓ ⊔ κ) where
  ok : A → Result A E
  err : E → Result A E

pub Result-cases {ℓ κ} :
    {A : Type ℓ} {E : Type κ} (r : Result A E) → ((a : A) × (r ≡ ok a)) ⊎ ((e : E) × (r ≡ err e))
Result-cases (ok a) = inl (a, refl)
Result-cases (err e) = inr (e, refl)

pub Outcome-cases {ℓ} : {A : Type ℓ} (o : Outcome A) → ((a : A) × (o ≡ done a)) ⊎ (o ≡ panic)
Outcome-cases (done a) = inl (a, refl)
Outcome-cases panic = inr refl

-- What holds of the result, where there is one.
abbrev pub Each : {A : Type 0} → (A → Type 0) → Outcome A → Type 0
Each P (done a) = P a
Each {A = A} P panic = Path (Outcome A) panic panic

pub Each-done : {A : Type 0} (P : A → Type 0) {o : Outcome A} {a : A} → Each P o → o ≡ done a → P a
Each-done P e h = subst (Each P) h e

-- One call after another.
abbrev pub and_then : {A B : Type 0} → Outcome A → (A → Outcome B) → Outcome B
and_then (done a) f = f a
and_then panic f = panic

pub and_then-Each :
    {A B : Type 0} (P : A → Type 0) (Q : B → Type 0) (o : Outcome A) (f : A → Outcome B)
    → Each P o
    → ((a : A) → P a → Each Q (f a))
    → Each Q (and_then o f)
and_then-Each P Q (done a) f h g = g a h
and_then-Each P Q panic f h g = refl
