-- ===== src/Base/Exits.antt =====
-- What a C function gives back where it may end the program: `CO_ASSERTION_FAILURE`,
-- `QUEUE_ASSERTION_FAILURE` and `configASSERT` print and call `pmsis_exit`, which does not return.
use mathlib.Core.Path.{◌≡◌, refl}
use mathlib.Core.Logic.{◌⊎◌, inl, inr}

pub data Outcome {ℓ} (F : Type 0) (A : Type ℓ) : Type ℓ where
  ok : A → Outcome F A
  exit : F → Outcome F A

infixl 5 ◌>>=◌ ◌>>◌
abbrev pub ◌>>=◌ {ℓ κ} :
    {F : Type 0} {A : Type ℓ} {B : Type κ} → Outcome F A → (A → Outcome F B) → Outcome F B
ok a >>= f = f a
exit e >>= f = exit e

abbrev pub ◌>>◌ {ℓ} : {F : Type 0} {B : Type ℓ} → Outcome F (Unit {0}) → Outcome F B → Outcome F B
m >> k = m >>= λ _. k

pub Outcome-cases {ℓ} :
    {F : Type 0} {A : Type ℓ} (m : Outcome F A) → ((a : A) × (m ≡ ok a)) ⊎ ((f : F) × (m ≡ exit f))
Outcome-cases (ok a) = inl (a, refl)
Outcome-cases (exit f) = inr (f, refl)
