-- ===== src/Session/Floats.antt =====
-- The floats of Python in client.py, as far as a coordinate meets them. A finite float that is not below
-- zero is the rational number that it stands for, `(n, d)` for n/(d+1). The rounding `nearest` is a
-- parameter: it gives the float nearest to a rational number, and raises where that is out of range.
use shinken.Prelude.{ℕ, suc, ◌+◌, ◌-◌, ◌*◌, ◌≤◌, ◌<◌, ◌≡◌, Result, ok}
use shinken.Errors.{Exc}

abbrev pub Ratio : Type 0
Ratio = ℕ × ℕ

abbrev pub Rounding : Type 0
Rounding = Ratio → Result Exc Ratio

-- A number that is not below zero.
pub data Number : Type 0 where
  whole : ℕ → Number
  float : Ratio → Number

abbrev pub value : Number → Ratio
value (whole n) = (n, 0)
value (float q) = q

-- a/b, for b that is not zero
abbrev pub quotient : ℕ → ℕ → Ratio
quotient a b = (a, b - 1)

abbrev pub times : Ratio → Ratio → Ratio
times (n, d) (m, e) = (n * m, suc d * suc e - 1)

abbrev pub over : Ratio → Ratio → Ratio
over (n, d) (m, e) = quotient (n * suc e) (suc d * m)

abbrev pub plus_half : Ratio → Ratio
plus_half (n, d) = quotient (2 * n + suc d) (2 * suc d)

-- 2^53: the whole numbers up to it are floats.
abbrev pub whole_limit : ℕ
whole_limit = 9007199254740992

-- IEEE 754 in double precision, on quotients of whole numbers below the limit: they are in range,
-- rounding does not cross a whole number, and is off by at most one part in 2^53.
pub record IsNearest (nearest : Rounding) : Type 0 where
  pub in_range :
      (n d : ℕ) → n < whole_limit → d < whole_limit → (r : Ratio) × (nearest (n, d) ≡ ok r)
  pub monotone :
      (n d m : ℕ) (r : Ratio)
      → n < whole_limit
      → nearest (n, d) ≡ ok r
      → m * suc d ≤ n
      → m * suc (r.1) ≤ r.0
  pub close :
      (n d : ℕ) (r : Ratio)
      → n < whole_limit
      → d < whole_limit
      → nearest (n, d) ≡ ok r
      → whole_limit * (r.0 * suc d) ≤ (whole_limit + 1) * (n * suc (r.1))
