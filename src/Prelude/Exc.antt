-- ===== src/Prelude/Exc.antt =====
-- Calls that may raise: a value, or the exception that ended the call.
use mathlib.Core.Path.{◌≡◌, refl}
use mathlib.Core.Logic.{◌⊎◌, inl, inr}
use native.Mathlib.Omega.{arith}

pub data Result {ℓ} (E A : Type ℓ) : Type ℓ where
  ok : A → Result E A
  raised : E → Result E A

pub Result-cases {ℓ} :
    {E A : Type ℓ} (r : Result E A) → ((a : A) × (r ≡ ok a)) ⊎ ((e : E) × (r ≡ raised e))
Result-cases (ok a) = inl (a, refl)
Result-cases (raised e) = inr (e, refl)

-- The call that follows one that may raise.
abbrev pub and_then {ℓ} : {E A B : Type ℓ} → Result E A → (A → Result E B) → Result E B
and_then (ok a) k = k a
and_then (raised e) k = raised e

pub and_then_ok {ℓ} :
    {E A B : Type ℓ} (r : Result E A) (k : A → Result E B) (b : B)
    → and_then r k ≡ ok b
    → (a : A) × ((r ≡ ok a) × (k a ≡ ok b))
and_then_ok (ok a) k b h = (a, (refl, h))
and_then_ok (raised e) k b h = absurd (ground arith)

-- What holds of the value of a call, and of the exception where it raises.
abbrev pub Outcome : {E A : Type 0} → (A → Type 0) → (E → Type 0) → Result E A → Type 0
Outcome P Q (ok a) = P a
Outcome P Q (raised e) = Q e

pub and_then-Outcome :
    {E A B : Type 0} (P : A → Type 0) (R : B → Type 0) (Q : E → Type 0) (r : Result E A)
    (k : A → Result E B)
    → Outcome P Q r
    → ((a : A) → P a → Outcome R Q (k a))
    → Outcome R Q (and_then r k)
and_then-Outcome P R Q (ok a) k h next = next a h
and_then-Outcome P R Q (raised e) k h next = h
