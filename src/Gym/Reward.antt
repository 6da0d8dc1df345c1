-- ===== src/Gym/Reward.antt =====
-- _reward_from of gym.py: what a verifier returns as a reward. The rewards are a type of floats with a
-- test for the finite ones; `float_of` is Python's `float` on an integer, which rounds, and raises where
-- the integer is out of a float's range.
pub mod Laws
mod Tests
use shinken.Prelude.{ℕ, String, ◌<>◌, Bool, List, Result, ok, raised, and_then, if◌then◌else◌}
use shinken.Prelude.Int.{ℤ}
use shinken.Errors.{Exc, gym_error}
use shinken.Eval.Receipt.{Verdict, VerifierReceipt, coerce_verifier_receipt}

-- A Boolean is told from a number before its value is read; any other value is a verdict.
pub data Judgement (N : Type 0) : Type 0 where
  flag : Bool → Judgement N
  integer : ℤ → Judgement N
  real : N → Judgement N
  verdict : Verdict → Judgement N

refused : {N : Type 0} → String → Result Exc N
refused message = raised (record { class = gym_error; message = message })

module _ (str : ℕ → String) (show_names : List String → String) (show_bool : Bool → String)
    {N : Type 0} (one nothing : N) (is_finite : N → Bool) (float_of : ℤ → Result Exc N) where
  from_receipt : Result Exc VerifierReceipt → Result Exc N
  unfolding refused
  from_receipt (raised e) = refused ("verifier returned an invalid receipt: " <> e.message)
  from_receipt (ok r) = ok (if r.passed then one else nothing)

  -- `float(verdict)` is done; it must be finite.
  from_float : N → Result Exc N
  unfolding refused
  from_float n = if is_finite n then ok n else refused "verifier returned a non-finite reward"

  unfoldable pub reward_from : Judgement N → Result Exc N
  unfolding from_receipt from_float
  reward_from (flag b) = ok (if b then one else nothing)
  reward_from (integer z) = and_then (float_of z) from_float
  reward_from (real n) = from_float n
  reward_from (verdict v) = from_receipt (coerce_verifier_receipt str show_names show_bool v)
