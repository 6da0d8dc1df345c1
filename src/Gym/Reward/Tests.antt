-- ===== src/Gym/Reward/Tests.antt =====
-- A receipt without checks is no reward.
use shinken.Prelude.{
  ℕ, String, ◌≡◌, refl, Bool, true, some, List, [], Result, ok, raised, Outcome, ltb, if◌then◌else◌,
}
use shinken.Prelude.Int.{ℤ, pos, negsuc}
use shinken.Errors.{Exc, other_error}
use shinken.Eval.Receipt.{Value, shaped}
use shinken.Gym.Reward.{integer, verdict, reward_from}
use shinken.Gym.Reward.Laws.{IsEarned, Refuses, reward_from-IsEarned}

abbrev str : ℕ → String
str n = "n"

abbrev show_names : List String → String
show_names names = "names"

abbrev show_bool : Bool → String
show_bool b = "b"

abbrev one : ℕ
one = 1

abbrev nothing : ℕ
nothing = 0

abbrev is_finite : ℕ → Bool
is_finite n = true

-- An integer beyond the range of the floats, here those below 100, is refused by the conversion.
abbrev float_of : ℤ → Result Exc ℕ
float_of (pos n) =
    if ltb n 100
    then ok n
    else raised (record { class = other_error; message = "int too large to convert to float" })
float_of (negsuc n) = ok 0

too_large :
    reward_from str show_names show_bool one nothing is_finite float_of (integer (pos 400))
    ≡ Result.raised (record { class = other_error; message = "int too large to convert to float" })
unfolding reward_from
too_large = refl

reward_from-IsEarned_example :
    Outcome
      (IsEarned str show_names show_bool one nothing is_finite float_of
        (verdict (shaped "dict" (Value.flag true) (some []))))
      (Refuses str show_names show_bool one nothing is_finite float_of
        (verdict (shaped "dict" (Value.flag true) (some []))))
      (reward_from str show_names show_bool one nothing is_finite float_of
        (verdict (shaped "dict" (Value.flag true) (some []))))
reward_from-IsEarned_example =
    reward_from-IsEarned str show_names show_bool one nothing is_finite float_of
      (verdict (shaped "dict" (Value.flag true) (some [])))
