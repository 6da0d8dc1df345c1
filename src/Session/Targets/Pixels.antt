-- ===== src/Session/Targets/Pixels.antt =====
-- Pixels of an image and of the region that it shows: the inverse of the downscale is its sampling, also
-- through the rounding of floats.
use native.Mathlib.Nat.{
  div-lt_iff_lt-mul, mul-le-mul_left, mul-le-mul_right, le-div_iff_mul-le, div-mul-le_self,
}
use native.Mathlib.Decide.{dec_le}
use shinken.Prelude.{
  ok, and_then, max, leb, ◌||◌, Bool-cases, ◌==◌, nat_eq, inl, inr, ℕ, zero, suc, ◌+◌, ◌-◌, ◌*◌,
  ◌/◌, ◌≤◌, ◌<◌, min, ◌≡◌, ap, ◌∙◌, nat_eq, string_eq, arith,
}
use shinken.Session.Floats.{Rounding, whole, whole_limit, IsNearest}
use shinken.Session.Targets.{div_ceil, downscaled, pixel, floored, sampled}

sampled_lt :
    (p source delivered : ℕ) → p < delivered → 0 < source → sampled p source delivered < source
unfolding sampled
sampled_lt p source delivered h s =
    (div-lt_iff_lt-mul {k = delivered} {x = p * source} {y = source} (omega (arith, h))).1
      (omega (arith, mul-le-mul_right source h))

-- A quotient rounded to a float that is off by one part in 2^53 at most, and not below a whole number
-- that the quotient reaches, has the quotient's own floor.
rounded_floor :
    (a m e n f : ℕ)
    → a < whole_limit
    → 0 < f
    → m * e ≤ a
    → a < suc m * e
    → m * f ≤ n
    → whole_limit * (n * e) ≤ (whole_limit + 1) * (a * f)
    → n < suc m * f
rounded_floor a m e n f small pos_f low high above close = elim (dec_le (suc m * f) n) [
  | no below ↦ omega arith
  | yes past ↦ absurd (
      let scaled : suc m * f * e ≤ n * e = mul-le-mul_right e past in
      let reached : suc a * f ≤ suc m * e * f = mul-le-mul_right f (omega arith) in
      let bounded : suc a * f ≤ whole_limit * f = mul-le-mul_right f (omega arith) in
      let swap : suc m * e * f ≡ suc m * f * e = grind arith in
      let split : suc a * f ≡ a * f + f = grind arith in
      omega (arith, scaled, reached, bounded, swap, split, close))
]

floor_unique : (n f m : ℕ) → 0 < f → m * f ≤ n → n < suc m * f → n / f ≡ m
floor_unique n f m h low high =
    let below = (div-lt_iff_lt-mul {k = f} {x = n} {y = suc m} h).1 high in
    let above = (le-div_iff_mul-le {k = f} {x = m} {y = n} h).1 low in omega (arith, below, above)

-- An image's pixel is mapped to the pixel that the downscale samples for it, as long as the product of the
-- sizes is below 2^53: neither the rounding nor the bound changes the floor.
pub pixel-sampled :
    (nearest : Rounding)
    → IsNearest nearest
    → (p source delivered : ℕ) → p < delivered
    → 0 < source
    → source * delivered < whole_limit
    → pixel nearest (whole p) source delivered ≡ ok (sampled p source delivered)
unfolding pixel floored
pixel-sampled nearest laws p source zero h s small = absurd (omega (arith, h))
pixel-sampled nearest laws p source (suc d) h s small =
    let a = p * source in
    let m = sampled p source (suc d) in
    let a_small : a < whole_limit =
      let le : p * source ≤ suc d * source = mul-le-mul_right source (omega (arith, h)) in
      let swap : suc d * source ≡ source * suc d = grind arith in omega (arith, le, swap, small) in
    let d_small : d < whole_limit =
      let le : 1 * suc d ≤ source * suc d = mul-le-mul_right (suc d) (omega (arith, s)) in
      omega (arith, le, small) in
    let ((n, e), r) = laws.in_range a d a_small d_small in
    let low : m * suc d ≤ a = unfold sampled in div-mul-le_self a (suc d) in
    let high : a < suc m * suc d =
      unfold sampled in
      (div-lt_iff_lt-mul {k = suc d} {x = a} {y = suc (a / suc d)} (omega arith)).0 (omega arith) in
    let above = laws.monotone a d m (n, e) a_small r low in
    let below =
      rounded_floor a m (suc d) n (suc e) a_small (omega arith) low high above
        (laws.close a d (n, e) a_small d_small r) in
    let same : n / suc e ≡ m = floor_unique n (suc e) m (omega arith) above below in
    let one_less : suc d - 1 ≡ d = omega arith in
    ap (λ x. and_then x (λ q. ok (floored nearest source q)))
      (ap (λ (k : ℕ). nearest (a, k)) one_less ∙ r)
    ∙ ap (λ k. ok (min (source - 1) k)) same
    ∙ ap (λ k. ok k) (omega (arith, sampled_lt p source (suc d) h s))

-- Where the image is not larger than the region, a later pixel shows a later source pixel.
sampled_strict :
    (p q source delivered : ℕ)
    → p < q
    → 0 < delivered
    → delivered ≤ source
    → sampled p source delivered < sampled q source delivered
unfolding sampled
sampled_strict p q source delivered h d le =
    (le-div_iff_mul-le {k = delivered} {x = suc (p * source / delivered)} {y = q * source} d).1
      (omega (arith, div-mul-le_self (p * source) delivered, mul-le-mul_right source h, le))

-- A capped edge is never empty and never longer than before.
capped :
    (w long cap : ℕ)
    → 0 < w
    → cap < long
    → (0 < max (div_ceil (w * cap) long) 1) × (max (div_ceil (w * cap) long) 1 ≤ w)
unfolding div_ceil
capped w long cap hw h = (omega arith, omega (arith, fits))
  where
    fits : (w * cap + (long - 1)) / long < suc w
    fits =
        (div-lt_iff_lt-mul {k = long} {x = w * cap + (long - 1)} {y = suc w} (omega (arith, h))).1
          (grind (arith, mul-le-mul_left w h))

downscaled_le :
    (w h cap : ℕ)
    → 0 < w
    → 0 < h
    → ((0 < (downscaled w h cap).0) × ((downscaled w h cap).0 ≤ w))
      × ((0 < (downscaled w h cap).1) × ((downscaled w h cap).1 ≤ h))
unfolding downscaled
downscaled_le w h cap hw hh = elim (Bool-cases (cap == 0 || leb (max w h) cap)) [
  | inl e ↦ rw e ((hw, omega arith), (hh, omega arith))
  | inr e ↦
      rw e (
        capped w (max w h) cap hw (ground (arith, e)),
        capped h (max w h) cap hh (ground (arith, e)),
      )
]

-- However a capture is capped, a pixel further to the right shows a source pixel further to the right,
-- and a lower one a lower one: distinct pixels of the image show distinct pixels of the source.
pub sampled_strict_downscaled :
    (w h cap p q : ℕ)
    → 0 < w
    → 0 < h
    → p < q
    → (sampled p w (downscaled w h cap).0 < sampled q w (downscaled w h cap).0)
      × (sampled p h (downscaled w h cap).1 < sampled q h (downscaled w h cap).1)
sampled_strict_downscaled w h cap p q hw hh lt =
    let ((dw, lw), (dh, lh)) = downscaled_le w h cap hw hh in
    (
      sampled_strict p q w (downscaled w h cap).0 lt dw lw,
      sampled_strict p q h (downscaled w h cap).1 lt dh lh,
    )
