-- ===== src/Gym/Reward/Laws.antt =====
-- A reward is a finite number, or that of a sound receipt, or there is none.
use shinken.Prelude.{
  ℕ, String, ◌≡◌, refl, Bool, true, false, List, Result, ok, raised, and_then, Outcome, ◌⊎◌, inl,
  inr, if◌then◌else◌,
}
use shinken.Prelude.Int.{ℤ}
use shinken.Errors.{Exc, gym_error}
use shinken.Eval.Receipt.{Verdict, VerifierReceipt, coerce_verifier_receipt}
use shinken.Eval.Receipt.Laws.{IsReceipt, coerce_verifier_receipt-IsReceipt}
use shinken.Gym.Reward.{
  Judgement, flag, integer, real, verdict, refused, from_float, from_receipt, reward_from,
}

module _ (str : ℕ → String) (show_names : List String → String) (show_bool : Bool → String)
    {N : Type 0} (one nothing : N) (is_finite : N → Bool) (float_of : ℤ → Result Exc N) where
  -- What a reward stands for.
  pub IsEarned : Judgement N → N → Type 0
  IsEarned (flag b) reward = reward ≡ (if b then one else nothing)
  IsEarned (integer z) reward = (float_of z ≡ ok reward) × (is_finite reward ≡ true)
  IsEarned (real n) reward = (reward ≡ n) × (is_finite n ≡ true)
  IsEarned (verdict v) reward =
      (r : VerifierReceipt) × ((coerce_verifier_receipt str show_names show_bool v ≡ ok r)
        × (IsReceipt r × (reward ≡ (if r.passed then one else nothing))))

  -- What may be raised: what `float` raises on an integer, or a GymError.
  pub Refuses : Judgement N → Exc → Type 0
  Refuses (integer z) e = (float_of z ≡ raised e) ⊎ (e.class ≡ gym_error)
  Refuses _ e = e.class ≡ gym_error

  IsFinite : N → N → Type 0
  IsFinite n reward = (reward ≡ n) × (is_finite n ≡ true)

  finite :
      (n : N) (b : Bool)
      → is_finite n ≡ b
      → Outcome
          (IsFinite n)
          (λ e. e.class ≡ gym_error)
          (if b then ok n else refused "verifier returned a non-finite reward")
  unfolding IsFinite refused
  finite n true e = (refl, e)
  finite n false e = refl

  from_integer :
      (z : ℤ) (n : N) (b : Bool)
      → float_of z ≡ ok n
      → is_finite n ≡ b
      → Outcome
          (IsEarned (integer z))
          (Refuses (integer z))
          (if b then ok n else refused "verifier returned a non-finite reward")
  unfolding IsEarned Refuses refused
  from_integer z n true h e = (h, e)
  from_integer z n false h e = inr refl

  converted :
      (z : ℤ) (r : Result Exc N)
      → float_of z ≡ r
      → Outcome
          (IsEarned (integer z))
          (Refuses (integer z))
          (and_then r (from_float str show_names show_bool one nothing is_finite float_of))
  unfolding Refuses from_float
  converted z (ok n) h = from_integer z n (is_finite n) h refl
  converted z (raised e) h = inl h

  from_verdict :
      (v : Verdict) (r : Result Exc VerifierReceipt)
      → coerce_verifier_receipt str show_names show_bool v ≡ r
      → Outcome
          (IsEarned (verdict v))
          (λ e. e.class ≡ gym_error)
          (from_receipt str show_names show_bool one nothing is_finite float_of r)
  unfolding IsEarned from_receipt refused
  from_verdict v (raised x) e = refl
  from_verdict v (ok r) e =
      (r, (e, (coerce_verifier_receipt-IsReceipt str show_names show_bool v r e, refl)))

  -- The reward of a Boolean is one or zero, that of an integer the float that it converts to and that of
  -- a float itself, if they are finite, and that of any other verdict one or zero by a receipt that is
  -- sound. Where there is no such number or receipt, the exception is a GymError, or what the conversion
  -- of the integer raises, and never a reward of zero.
  pub reward_from-IsEarned :
      (j : Judgement N)
      → Outcome
          (IsEarned j)
          (Refuses j)
          (reward_from str show_names show_bool one nothing is_finite float_of j)
  unfolding reward_from IsEarned Refuses from_float
  reward_from-IsEarned (flag b) = refl
  reward_from-IsEarned (integer z) = converted z (float_of z) refl
  reward_from-IsEarned (real n) = unfold IsFinite in finite n (is_finite n) refl
  reward_from-IsEarned (verdict v) =
      unfold IsEarned in from_verdict v (coerce_verifier_receipt str show_names show_bool v) refl
